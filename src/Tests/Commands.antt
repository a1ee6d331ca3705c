-- ===== src/Tests/Commands.antt =====
-- Frames of a client and what the server's handlers do with them.
use mathlib.Core.Option
use messenger_cpp_r.Client.Session.{
  ClientState, inbox_begin, inbox_end, history_begin, history_end, receive_turn, log_in,
}
use messenger_cpp_r.Client.Session.Answers.{log_in-receive_turn}
use messenger_cpp_r.Server.Handler.Commands.{spaced, handle_inbox, handle_history}
use messenger_cpp_r.Server.Database.{MessageRecord}
use messenger_cpp_r.Server.Database.Mailbox.{
  clamp_limit, join, order_by, where_rows, get_inbox, get_history, get_user_id, history_rows,
}
use messenger_cpp_r.Server.Handler.{World}
use messenger_cpp_r.Client.Session.Listings.{
  IsReadable, inbox_answer, history_answer, Reads, inbox_of, history_of, listings_are_read,
}
use messenger_cpp_r.Server.Handler.Banning.{KeepsSessions, banned_frames_refused}
use messenger_cpp_r.Server.Handler.Turns.{turn_lifts, lifted}
use messenger_cpp_r.Server.Database.Accounts.{ban_user, has_moderator_rights}
use messenger_cpp_r.Server.Handler.{require_auth, require_moderator}
use messenger_cpp_r.Server.Handler.Identity.{KnowsUsers, run_turns-KnowsUsers}
use messenger_cpp_r.Server.Handler.{cleanup_session, send_response}
use messenger_cpp_r.Server.Handler.Commands.{turn, handle_login, open_session}
use messenger_cpp_r.Server.Sessions.{add_session, remove_session, remove}
use messenger_cpp_r.Server.Database.{User, offline, runs, audit, find_login, update_where}
use messenger_cpp_r.Server.Database.Accounts.{login_user, check_login, verify_password, logout_user}
use messenger_cpp_r.Base.{
  ◌++◌, ℕ, ◌≡◌, refl, true, List, [], ◌∷◌, Bytes, lit, arith, pos, all_of, str_eq, map, length, ◌<◌,
}
use messenger_cpp_r.Client.{credentials, register_user, login, send_message, history}
use messenger_cpp_r.Client.Parsing.{parse_command-dialogs}
use messenger_cpp_r.Tcp.Protocol
use messenger_cpp_r.Tcp.Protocol.{ReceiveFrameStatus}
use messenger_cpp_r.Server.Words.{is_space, no_space, read_word, skip_spaces, span_word}
use messenger_cpp_r.Server.Words.Reading.{IsWord, no_newline}
use messenger_cpp_r.Server.Command.{register_as, log_in_as, message_to, history_with, parse_command}
use messenger_cpp_r.Server.Database.{find_id}
use messenger_cpp_r.Server.Database.Invariant.{IsValid}
use messenger_cpp_r.Server.Sessions.{handlers_of}
use messenger_cpp_r.Server.Sessions.Counts.{count}
use messenger_cpp_r.Server.Handler.{respond}
use messenger_cpp_r.Server.Handler.Commands.{handle_frame}
use messenger_cpp_r.Server.Handler.Access.{
  needs_auth, needs_moderator, handle_frame-not_authed, Refused, handle_frame-forbidden,
}
use messenger_cpp_r.Server.Handler.Consistency.{
  IsConsistent, run_turns, run_turns-IsConsistent, run_turns-IsValid,
}
use messenger_cpp_r.Tests.Data.{env, db-IsValid, fresh, world, takes}

word : (w : Bytes) → all_of no_space w ≡ true → IsWord (120 ∷ w)
unfolding all_of no_space is_space
word w h = record { plain = h; some_char = omega arith }

parse_command-dialogs_example :
    (parse_command (register_user (credentials (lit "xavier") (lit "x-Correct123")))
      ≡ register_as (lit "xavier") (lit "x-Correct123"))
    × (parse_command (login (credentials (lit "xavier") (lit "x-Correct123")))
        ≡ log_in_as (lit "xavier") (lit "x-Correct123"))
    × (parse_command (history (lit "xavier")) ≡ history_with (lit "xavier") (pos 50) (pos 0))
    × (parse_command (send_message (lit "xavier") (lit " see you  at 5"))
        ≡ message_to (lit "xavier") (lit " see you  at 5"))
unfolding all_of no_space is_space no_newline
parse_command-dialogs_example =
    parse_command-dialogs (lit "xavier") (lit "x-Correct123") (lit " see you  at 5")
      (word (lit "avier") refl) (word (lit "-Correct123") refl) refl

handle_frame-not_authed_example :
    handle_frame env 1024 takes 2 (lit "MESSAGE bob hi") world
    ≡ respond env 1024 takes 2 (lit "ERROR_NOT_AUTH") world
unfolding parse_command read_word skip_spaces span_word is_space str_eq needs_auth
handle_frame-not_authed_example =
    handle_frame-not_authed env 1024 takes 2 world (lit "MESSAGE bob hi") refl refl

handle_frame-forbidden_example :
    Refused env 1024 takes 0 world (handle_frame env 1024 takes 0 (lit "BAN alice") world)
unfolding parse_command read_word skip_spaces span_word is_space str_eq needs_moderator find_id
handle_frame-forbidden_example =
    handle_frame-forbidden env 1024 takes 0 world (lit "BAN alice") refl refl refl

fresh-IsConsistent : IsConsistent fresh
unfolding handlers_of count
fresh-IsConsistent = record { map = tt; entries = λ j v. refl }

abbrev turns : List (ℕ × ReceiveFrameStatus × Bytes)
turns =
    (0, Protocol.ok, lit "LOGIN bob Another456")
    ∷ (1, Protocol.ok, lit "LOGIN alice Correct123")
    ∷ (1, Protocol.ok, lit "KICK bob")
    ∷ (0, Protocol.error, [])
    ∷ []

run_turns-IsConsistent_example : IsConsistent (run_turns env 1024 takes turns fresh)
run_turns-IsConsistent_example =
    run_turns-IsConsistent env 1024 takes turns fresh fresh-IsConsistent

run_turns-IsValid_example : IsValid (run_turns env 1024 takes turns fresh).db
run_turns-IsValid_example = run_turns-IsValid env 1024 takes turns fresh db-IsValid

-- After the ban of bob, his old connection asks for its inbox, and alice lifts another ban.
abbrev later : List (ℕ × ReceiveFrameStatus × Bytes)
later =
    (0, Protocol.ok, lit "INBOX")
    ∷ (1, Protocol.ok, lit "UNBAN carol")
    ∷ (0, Protocol.closed, [])
    ∷ []

banned_frames_refused_example :
    KeepsSessions
      (run_turns env 1024 takes later (turn env 1024 takes 1 Protocol.ok (lit "BAN bob") world))
      (handle_login env 1024 takes 2
        (lit "bob")
        (lit "Another456")
        (run_turns env 1024 takes later (turn env 1024 takes 1 Protocol.ok (lit "BAN bob") world)))
unfolding parse_command read_word skip_spaces span_word is_space str_eq ban_user runs audit
    find_login find_id update_where all_of turn_lifts lifted require_moderator has_moderator_rights
    require_auth
banned_frames_refused_example =
    banned_frames_refused env 1024 takes later world 1 2 (lit "BAN bob") (lit "bob")
      (lit "Another456") db-IsValid refl (refl, refl) (refl, (refl, (refl, tt)))

fresh-KnowsUsers : KnowsUsers fresh
fresh-KnowsUsers j h = cc h

run_turns-KnowsUsers_example : KnowsUsers (run_turns env 1024 takes turns fresh)
run_turns-KnowsUsers_example = run_turns-KnowsUsers env 1024 takes turns fresh fresh-KnowsUsers

-- Bob logs in twice on one connection.
abbrev relogin : List (ℕ × ReceiveFrameStatus × Bytes)
relogin =
    (0, Protocol.ok, lit "LOGIN bob Another456") ∷ (0, Protocol.ok, lit "LOGIN bob Another456") ∷ []

-- The table says offline, the handler and the registry say logged in.
relogin_offline :
    (Option.map
        (λ u. User.status u)
        (find_login (lit "bob") (run_turns env 1024 takes relogin fresh).db.users)
      ≡ Option.some offline)
    × (((run_turns env 1024 takes relogin fresh).handlers 0).authed ≡ true)
    × (handlers_of (pos 2) (run_turns env 1024 takes relogin fresh).sessions ≡ 0 ∷ [])
unfolding run_turns turn handle_frame parse_command read_word skip_spaces span_word is_space str_eq
    handle_login open_session cleanup_session login_user check_login verify_password logout_user
    runs all_of audit find_login find_id update_where add_session remove_session remove handlers_of
    send_response
relogin_offline = (refl, refl, refl)

-- Alice wrote to bob, and he to her.
abbrev mailed : World
mailed = record world {
  db = record world.db {
    messages =
        record { id = 1; sender_id = 1; receiver_id = 2; text = lit "hi  there"; created_at = 5 }
        ∷ record { id = 2; sender_id = 2; receiver_id = 1; text = lit "hello"; created_at = 6 }
        ∷ [];
    next_message_id = 3;
  };
}

one_line :
    (m : MessageRecord)
    → all_of no_space m.sender ≡ true
    → 0 < length m.sender
    → all_of no_space m.receiver ≡ true
    → 0 < length m.receiver
    → all_of no_space m.created_at ≡ true
    → 0 < length m.created_at
    → all_of no_newline m.text ≡ true
    → IsReadable m
one_line m s s0 r r0 c c0 t = record {
  sender = record { plain = s; some_char = s0 };
  receiver = record { plain = r; some_char = r0 };
  created_at = record { plain = c; some_char = c0 };
  text = t;
}

listings_are_read_example :
    Reads env 1024
      (λ n. true)
      0
      (λ n. refl)
      mailed
      (handle_inbox env 1024 (λ n. true) 0 mailed)
      (inbox_begin ∷ map inbox_answer (inbox_of env 1024 (λ n. true) 0 (λ n. refl) mailed)
        ++ inbox_end ∷ [])
    × Reads env 1024
        (λ n. true)
        0
        (λ n. refl)
        mailed
        (handle_history env 1024 (λ n. true) 0 (lit "alice") (pos 50) (pos 0) mailed)
        (history_begin
            ∷ map history_answer (
                history_of env 1024 (λ n. true) 0 (λ n. refl) (lit "alice") (pos 50) (pos 0) mailed)
          ++ history_end ∷ [])
unfolding all_of no_space is_space no_newline find_login find_id str_eq runs spaced get_inbox
    clamp_limit join order_by where_rows get_history get_user_id history_rows
listings_are_read_example =
    listings_are_read env 1024 (λ n. true) 0 (λ n. refl) (lit "alice") (pos 50) (pos 0) mailed refl
      refl (refl, (refl, (refl, (refl, tt)))) (refl, tt) (refl, (refl, tt))
      (one_line _ refl (omega arith) refl (omega arith) refl (omega arith) refl, tt)
      (
        one_line _ refl (omega arith) refl (omega arith) refl (omega arith) refl,
        (one_line _ refl (omega arith) refl (omega arith) refl (omega arith) refl, tt),
      )

abbrev idle : ClientState
idle = record { running = true; current_user = []; pending_login = []; shown = []; sent = [] }

log_in-receive_turn_example :
    ((receive_turn Protocol.ok
        (lit "LOGIN_OK " ++ lit "user")
        (log_in true (credentials (lit "xavier") (lit "pw")) idle)).current_user
      ≡ lit "xavier")
    × ((receive_turn Protocol.ok
          (lit "LOGIN_OK " ++ lit "user")
          (log_in true (credentials (lit "xavier") (lit "pw")) idle)).pending_login
        ≡ [])
unfolding all_of no_space is_space
log_in-receive_turn_example =
    log_in-receive_turn (lit "xavier") (lit "pw") (lit "user") idle (word (lit "avier") refl)
