-- ===== src/Tests/Window.antt =====
-- A socket that has received bytes, and the window's tables on it.
use messenger_cpp_r.Base.{
  ◌↔◌, inl, str_eq, false≢true, ℕ, suc, ◌≤◌, ◌≡◌, ◌≢◌, refl, sym, true, false, not, [], ◌∷◌, ◌++◌,
  map, arith, Bytes, lit, all_of, is_empty, length, take, drop, length-take, take-append-drop, pos,
}
use messenger_cpp_r.Server.Database.{Db, Env, find_id, runs}
use messenger_cpp_r.Server.Database.Invariant.{IsValid}
use messenger_cpp_r.Server.Database.Mailbox.{
  list_users, get_all_messages, order_by, insert, join, clamp_limit,
}
use messenger_cpp_r.Server.Handler.Commands.{user_line, message_line}
use messenger_cpp_r.Tcp.Frame.{encode_frame}
use messenger_cpp_r.Tcp.Protocol
use messenger_cpp_r.Tcp.Protocol.Receiving.{IsSource}
use messenger_cpp_r.Gui.Text.{not_space}
use messenger_cpp_r.Gui.Frames.{QTcpSocket, ready, read_frame, max_frame_size}
use messenger_cpp_r.Gui.Frames.Agreement.{receive, as_socket, as_read, read_frame-Agrees}
use messenger_cpp_r.Gui.Commands.{read_response}
use messenger_cpp_r.Gui.Commands.Responses.{wire}
use messenger_cpp_r.Gui.Tables.{update_users, update_messages}
use messenger_cpp_r.Gui.Tables.Rows.{row_of, row_of_message}
use messenger_cpp_r.Gui.Tables.Answers.{IsTime}
use messenger_cpp_r.Gui.Tables.UserList.{update_users-list_users}
use messenger_cpp_r.Gui.Tables.MessageList.{update_messages-get_all_messages}
use messenger_cpp_r.Gui.Tables.{UserRow, is_banned, toggle_command, succeeded}
use messenger_cpp_r.Gui.Tables.{MessageRow, matches_date}
use messenger_cpp_r.Gui.Dates.{has, date_choices, date_choices-matches_date}
use messenger_cpp_r.Gui.Tables.Moderation.{toggle_ban-HasBan}
use messenger_cpp_r.Server.Words.{is_space, no_space, read_word, skip_spaces, span_word}
use messenger_cpp_r.Server.Words.Reading.{IsWord}
use messenger_cpp_r.Server.Command.{parse_command}
use messenger_cpp_r.Server.Sessions.{handlers_of}
use messenger_cpp_r.Server.Database.{audit, find_login, update_where}
use messenger_cpp_r.Server.Database.Accounts.{ban_user, has_moderator_rights}
use messenger_cpp_r.Server.Database.Bans.{HasBan}
use messenger_cpp_r.Server.Handler.{
  require_auth, require_moderator, send_response, disconnect_user, disconnect_all,
  disconnect_from_admin,
}
use messenger_cpp_r.Server.Handler.Commands.{handle_ban, handle_frame}
use messenger_cpp_r.Tests.Data.{world}
use messenger_cpp_r.Tests.AsciiQt.{ascii_qt, ascii_qt-IsQt}
use messenger_cpp_r.Tests.Data.{env, db, db-IsValid}

-- What has arrived is read in any pieces; nothing more comes.
non_empty_take : (s : Bytes) (n : ℕ) → not (is_empty s) ≡ true → take (suc n) s ≢ []
non_empty_take [] n h = cc
non_empty_take (c ∷ cs) n h = λ e. cc

take-length-le : (n : ℕ) (s : Bytes) → length (take n s) ≤ n
take-length-le n s = ground (arith, length-take n s)

abbrev received : QTcpSocket
received = record {
  State = Bytes;
  connect_to_host = λ s. s;
  wait_for_connected = λ s. (true, s);
  disconnect_from_host = λ s. s;
  write = λ s bs. s;
  wait_for_bytes_written = λ s. (true, s);
  bytes_available = λ s. not (is_empty s);
  wait_for_ready_read = λ s. (false, s);
  read = λ s n. (take n s, drop n s);
  read_fits = λ s n. take-length-le n s;
  read_some = non_empty_take;
  ready_available = λ s h. absurd (false≢true h);
}

receive_takes : (s : Bytes) (n : ℕ) → s ≡ (receive received s n).0 ++ (receive received s n).1
unfolding receive ready
receive_takes [] n = refl
receive_takes (c ∷ cs) n = sym (take-append-drop n (c ∷ cs))

receive_progress : (s : Bytes) (n : ℕ) → (receive received s (suc n)).0 ≡ [] → s ≡ []
unfolding receive ready
receive_progress [] n h = refl
receive_progress (c ∷ cs) n h = cc

abbrev received-IsSource : IsSource (as_socket received)
received-IsSource = record {
  pending = λ s. s;
  receive_takes = receive_takes;
  receive_progress = receive_progress;
}

read_frame-Agrees_example :
    read_frame received ascii_qt (encode_frame (lit "OK"))
    ≡ as_read received ascii_qt
        (Protocol.receive_frame (as_socket received) (encode_frame (lit "OK")) max_frame_size)
read_frame-Agrees_example = read_frame-Agrees received ascii_qt (encode_frame (lit "OK"))

abbrev noon : Bytes
noon = lit "2024-01-01T12:00:00Z"

noon-IsTime : IsTime noon
unfolding all_of not_space
noon-IsTime = (record { ascii = omega arith; one_part = refl }, omega arith)

abbrev clock : Env
clock = record env { to_char = λ n. noon }

update_users-list_users_example :
    (update_users ascii_qt
        (read_response ascii_qt received 5 (lit "LIST") (
          wire (lit "USERS_BEGIN" ∷ map user_line (list_users clock db).0)
          ++ (encode_frame (lit "USERS_END") ++ []))).0
        []
      ≡ map row_of (list_users clock db).0)
    × ((read_response ascii_qt received 5 (lit "LIST") (
          wire (lit "USERS_BEGIN" ∷ map user_line (list_users clock db).0)
          ++ (encode_frame (lit "USERS_END") ++ []))).1
        ≡ [])
unfolding list_users runs order_by all_of
update_users-list_users_example =
    update_users-list_users ascii_qt ascii_qt-IsQt received received-IsSource clock db [] 5 _ []
      (λ t. noon-IsTime) db-IsValid (omega arith) refl

-- A message with a space in its text.
abbrev chat : Db
chat = record db {
  messages =
      record { id = 1; sender_id = 1; receiver_id = 2; text = lit "hi there"; created_at = 5 } ∷ [];
  next_message_id = 2;
}

chat-IsValid : IsValid chat
unfolding find_id
chat-IsValid = record {
  logins = db-IsValid.logins;
  distinct = db-IsValid.distinct;
  fresh = db-IsValid.fresh;
  stored = ((omega arith, (λ e. cc), (λ e. cc), omega arith, omega arith), tt);
}

update_messages-get_all_messages_example :
    (update_messages ascii_qt
        (read_response ascii_qt received 5 (lit "ALL_MESSAGES 200") (
          wire
            (lit "ALL_MESSAGES_BEGIN" ∷ map message_line (get_all_messages clock chat (pos 200)).0)
          ++ (encode_frame (lit "ALL_MESSAGES_END") ++ []))).0
        []
      ≡ map (row_of_message ascii_qt) (get_all_messages clock chat (pos 200)).0)
    × ((read_response ascii_qt received 5 (lit "ALL_MESSAGES 200") (
          wire
            (lit "ALL_MESSAGES_BEGIN" ∷ map message_line (get_all_messages clock chat (pos 200)).0)
          ++ (encode_frame (lit "ALL_MESSAGES_END") ++ []))).1
        ≡ [])
unfolding get_all_messages runs order_by join find_id clamp_limit all_of
update_messages-get_all_messages_example =
    update_messages-get_all_messages ascii_qt ascii_qt-IsQt received received-IsSource clock chat []
      5 _ [] (λ t. noon-IsTime) chat-IsValid (omega arith) refl

-- The row that comes out, space and all.
chat_shown :
    map (row_of_message ascii_qt) (get_all_messages clock chat (pos 200)).0
    ≡ record {
      sender = lit "alice";
      recipient = lit "bob";
      text = lit "hi there";
      timestamp = noon;
    }
      ∷ []
unfolding get_all_messages runs order_by insert join find_id clamp_limit all_of
chat_shown = refl

abbrev bob_row : UserRow
bob_row = record { login = lit "bob"; status = lit "online"; role = lit "user"; last_seen = noon }

bob-IsWord : IsWord (lit "bob")
unfolding all_of no_space is_space
bob-IsWord = record { plain = refl; some_char = omega arith }

-- The connection of alice, on a network that takes every frame.
toggle_ban-HasBan_example :
    HasBan
      (lit "bob")
      (handle_frame env 1024 (λ n. true) 1 (toggle_command ascii_qt bob_row) world).db.users
unfolding handle_frame parse_command read_word skip_spaces span_word is_space str_eq handle_ban
    ban_user runs audit find_login find_id update_where all_of require_moderator
    has_moderator_rights require_auth send_response disconnect_user disconnect_all
    disconnect_from_admin handlers_of is_banned toggle_command succeeded
toggle_ban-HasBan_example =
    toggle_ban-HasBan ascii_qt ascii_qt-IsQt env 1024 (λ n. true) 1 world bob_row (lit "OK" ∷ [])
      bob-IsWord (omega arith) refl refl refl

abbrev chat_row : MessageRow
chat_row = record { sender = lit "alice"; recipient = lit "bob"; text = lit "hi"; timestamp = noon }

date_choices-matches_date_example :
    (has noon (date_choices ascii_qt (λ xs. xs) (chat_row ∷ [])) ≡ true)
    × ((matches_date ascii_qt noon noon ≡ true) ↔ (noon ≡ noon))
date_choices-matches_date_example =
    date_choices-matches_date ascii_qt (λ xs. xs) (chat_row ∷ []) noon noon noon (λ x xs. refl) refl
      (λ e. cc) (inl refl) refl
