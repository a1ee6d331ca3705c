-- ===== src/Server/Handler/Commands.antt =====
-- The handlers of the commands and the dispatch of ClientHandler::run.
use messenger_cpp_r.Base.{
  ℕ, Bool, true, false, not, none, some, List, [], ◌∷◌, ◌++◌, map, Bytes, lit, ltb, if◌then◌else◌,
  ℤ, pos, negsuc,
}
use messenger_cpp_r.Tcp.Protocol.{ReceiveFrameStatus}
use messenger_cpp_r.Server.Numbers.{int_text}
use messenger_cpp_r.Server.Database.{
  role_text, status_text, Env, DbStatus, ok, LoginResult, UserSummary, MessageRecord,
}
use messenger_cpp_r.Server.Database.Accounts.{
  register_user, login_user, ban_user, unban_user, kick_user,
}
use messenger_cpp_r.Server.Database.Mailbox.{
  send_message, get_user_by_login, get_inbox, get_history, get_all_messages,
}
use messenger_cpp_r.Server.Database.Mailbox
use messenger_cpp_r.Server.Sessions.{add_session}
use messenger_cpp_r.Server.Command.{
  Command, register_as, log_in_as, log_out, list_users, read_inbox, message_to, history_with,
  all_messages, ban, unban, kick, unknown, parse_command,
}
use messenger_cpp_r.Server.Handler.{
  World, set_handler, status_to_text, role_name, respond, respond_all, deliver_to_user,
  disconnect_user, cleanup_session, require_auth, require_moderator,
}

abbrev pub is_ok : DbStatus → Bool
is_ok s = elim s [ ok ↦ true | _ ↦ false ]

-- Words with a space between each two.
unfoldable pub spaced : List Bytes → Bytes
spaced [] = []
spaced (w ∷ []) = w
spaced (w ∷ v ∷ vs) = w ++ 32 ∷ spaced (v ∷ vs)

-- A line of the answer to LIST, and one of the answer to ALL_MESSAGES.
abbrev pub user_line : UserSummary → Bytes
user_line u =
    spaced (lit "USER" ∷ u.login ∷ status_text u.status ∷ role_text u.role ∷ u.last_seen ∷ [])

abbrev pub message_line : MessageRecord → Bytes
message_line m = spaced (lit "MSG" ∷ m.sender ∷ m.receiver ∷ m.created_at ∷ m.text ∷ [])

-- A line of the answer to INBOX, and one of the answer to HISTORY.
abbrev pub inbox_line : MessageRecord → Bytes
inbox_line m = spaced (lit "INBOX_MSG" ∷ m.sender ∷ m.created_at ∷ m.text ∷ [])

abbrev pub history_line : MessageRecord → Bytes
history_line m = spaced (lit "HIST" ∷ m.sender ∷ m.receiver ∷ m.created_at ∷ m.text ∷ [])

abbrev pub with_status : Bytes → DbStatus → Bytes → Bytes
with_status prefix status message = prefix ++ status_to_text status ++ 32 ∷ message

module _ (env : Env) (max_frame_size : ℕ) (takes : ℕ → Bool) (i : ℕ) where
  abbrev pub say : Bytes → World → World
  say payload w = respond env max_frame_size takes i payload w

  unfoldable pub handle_register : Bytes → Bytes → World → World
  handle_register login pass w =
      let (result, db) = register_user env w.db login pass in
      say
        (if is_ok result.status
          then lit "REGISTER_OK"
          else with_status (lit "REGISTER_ERROR ") result.status result.message)
        (record w { db = db })

  -- The fields and the registry after a login that succeeded.
  unfoldable pub open_session : LoginResult → World → World
  open_session result w =
      record (set_handler i
        (record (w.handlers i) {
          authed = true;
          user_id = result.user_id;
          username = result.login;
          role = result.role;
        })
        w) { sessions = add_session result.user_id i w.sessions }

  unfoldable pub handle_login : Bytes → Bytes → World → World
  handle_login login pass w =
      let (result, db) = login_user env w.db login pass in
      let w1 = record w { db = db } in
      if not (is_ok result.status)
      then say (with_status (lit "LOGIN_ERROR ") result.status result.message) w1
      else say (lit "LOGIN_OK " ++ role_name result.role)
          (open_session result (cleanup_session env max_frame_size takes i w1))

  unfoldable pub handle_logout : World → World
  handle_logout w =
      if not (w.handlers i).authed
      then say (lit "LOGOUT_OK") w
      else say (lit "LOGOUT_OK") (cleanup_session env max_frame_size takes i w)

  abbrev pub answer_list : Bytes → List Bytes → Bytes → World → World
  answer_list first lines last w =
      say last (respond_all env max_frame_size takes i lines (say first w))

  unfoldable pub handle_list : World → World
  handle_list w =
      let (allowed, w1) = require_auth env max_frame_size takes i w in
      if not allowed
      then w1
      else let (users, db) = Mailbox.list_users env w1.db in
        answer_list (lit "USERS_BEGIN") (map user_line users) (lit "USERS_END")
          (record w1 { db = db })

  unfoldable pub handle_inbox : World → World
  handle_inbox w =
      let (allowed, w1) = require_auth env max_frame_size takes i w in
      if not allowed
      then w1
      else let (messages, db) = get_inbox env w1.db (w1.handlers i).user_id (pos 100) in
        answer_list (lit "INBOX_BEGIN") (map inbox_line messages) (lit "INBOX_END")
          (record w1 { db = db })

  -- The receiver is looked up again, and each of its sessions is sent the message.
  unfoldable pub forward : Bytes → Bytes → World → World
  forward to text w =
      let (receiver, db) = get_user_by_login env w.db to in
      let w1 = record w { db = db } in
      elim receiver [
        | none ↦ w1
        | some u ↦
            (deliver_to_user env max_frame_size takes (pos u.id)
              (lit "MESSAGE " ++ (w1.handlers i).username ++ 32 ∷ text) w1).1
      ]

  unfoldable pub handle_message : Bytes → Bytes → World → World
  handle_message to text w =
      let (allowed, w1) = require_auth env max_frame_size takes i w in
      if not allowed
      then w1
      else let (result, db) = send_message env w1.db (w1.handlers i).user_id to text in
        let w2 = record w1 { db = db } in
        if not (is_ok result.status)
        then say (with_status (lit "MESSAGE_ERROR ") result.status result.message) w2
        else forward to text (say (lit "MESSAGE_OK " ++ int_text result.id) w2)

  unfoldable pub handle_history : Bytes → ℤ → ℤ → World → World
  handle_history target limit offset w =
      let (allowed, w1) = require_auth env max_frame_size takes i w in
      if not allowed
      then w1
      else let (messages, db) = get_history env w1.db (w1.handlers i).user_id target limit offset in
        answer_list (lit "HISTORY_BEGIN") (map history_line messages) (lit "HISTORY_END")
          (record w1 { db = db })

  unfoldable pub handle_all_messages : ℤ → World → World
  handle_all_messages limit w =
      let (allowed, w1) = require_moderator env max_frame_size takes i w in
      if not allowed
      then w1
      else let (messages, db) = get_all_messages env w1.db limit in
        answer_list (lit "ALL_MESSAGES_BEGIN") (map message_line messages) (lit "ALL_MESSAGES_END")
          (record w1 { db = db })

  -- if (result.id >= 0) sessions_->disconnectUser(result.id)
  abbrev pub disconnect_if : ℤ → World → World
  disconnect_if (pos id) w = (disconnect_user env max_frame_size takes (pos id) w).1
  disconnect_if (negsuc n) w = w

  unfoldable pub handle_ban : Bytes → World → World
  handle_ban login w =
      let (allowed, w1) = require_moderator env max_frame_size takes i w in
      if not allowed
      then w1
      else let (result, db) = ban_user env w1.db (w1.handlers i).user_id login in
        let w2 = record w1 { db = db } in
        if is_ok result.status
        then say (lit "OK") (disconnect_if result.id w2)
        else say (with_status (lit "ERROR_") result.status result.message) w2

  unfoldable pub handle_unban : Bytes → World → World
  handle_unban login w =
      let (allowed, w1) = require_moderator env max_frame_size takes i w in
      if not allowed
      then w1
      else let (result, db) = unban_user env w1.db (w1.handlers i).user_id login in
        say
          (if is_ok result.status
            then lit "OK"
            else with_status (lit "ERROR_") result.status result.message)
          (record w1 { db = db })

  unfoldable pub handle_kick : Bytes → World → World
  handle_kick login w =
      let (allowed, w1) = require_moderator env max_frame_size takes i w in
      if not allowed
      then w1
      else let (result, db) = kick_user env w1.db (w1.handlers i).user_id login in
        let w2 = record w1 { db = db } in
        if not (is_ok result.status)
        then say (with_status (lit "ERROR_") result.status result.message) w2
        else let (kicked, w3) = disconnect_user env max_frame_size takes result.id w2 in
          say (if ltb 0 kicked then lit "OK" else lit "ERROR_NOT_FOUND active session not found") w3

  abbrev pub handle_command : Command → World → World
  handle_command (register_as login pass) w = handle_register login pass w
  handle_command (log_in_as login pass) w = handle_login login pass w
  handle_command log_out w = handle_logout w
  handle_command list_users w = handle_list w
  handle_command read_inbox w = handle_inbox w
  handle_command (message_to to text) w = handle_message to text w
  handle_command (history_with target limit offset) w = handle_history target limit offset w
  handle_command (all_messages limit) w = handle_all_messages limit w
  handle_command (ban login) w = handle_ban login w
  handle_command (unban login) w = handle_unban login w
  handle_command (kick login) w = handle_kick login w
  handle_command unknown w = say (lit "UNKNOWN_CMD") w

  -- One frame that was received.
  unfoldable pub handle_frame : Bytes → World → World
  handle_frame frame w = handle_command (parse_command frame) w

  -- The end of `run` and the destructor: the session is cleaned up and the socket closed.
  unfoldable pub finish : World → World
  finish w =
      let w1 =
        cleanup_session env max_frame_size takes i (cleanup_session env max_frame_size takes i w) in
      set_handler i (record (w1.handlers i) { connected = false }) w1

  -- One turn of the loop of `run`, with what receiveFrame gave.
  unfoldable pub turn : ReceiveFrameStatus → Bytes → World → World
  turn ReceiveFrameStatus.ok frame w = handle_frame frame w
  turn ReceiveFrameStatus.closed frame w = finish w
  turn ReceiveFrameStatus.too_large frame w = finish (say (lit "ERROR_FRAME_TOO_LARGE") w)
  turn ReceiveFrameStatus.error frame w = finish w
  turn ReceiveFrameStatus.invalid frame w = finish w
