-- ===== src/Server/Handler/Turns.antt =====
-- The turns of ClientHandler::run as steps of the four kinds.
pub mod Sessions
pub mod Answers
use messenger_cpp_r.Base.{
  Option, arith, ℕ, ◌≡◌, refl, inl, inr, Bool, true, false, Option-cases, Bytes, lit, str_eq,
  ==_refl, if◌then◌else◌, Bool-cases, ℤ, pos, negsuc,
}
use messenger_cpp_r.Tcp.Protocol.{ReceiveFrameStatus}
use messenger_cpp_r.Server.Database.{Env}
use messenger_cpp_r.Server.Database.Accounts.{login_user}
use messenger_cpp_r.Server.Database.Mailbox.{get_user_by_login}
use messenger_cpp_r.Server.Database.{Role, DbStatus, ok}
use messenger_cpp_r.Server.Database.Identity.{IsAccount, serve-IsAccount, login_user-IsAccount}
use messenger_cpp_r.Server.Database.Requests.{
  lifts, logs_out, serve, registers, logs_in, bans, unbans, kicks, finds_user, sends, lists,
  reads_inbox, reads_history, reads_all,
}
use messenger_cpp_r.Server.Command.{
  Command, register_as, log_in_as, log_out, list_users, read_inbox, message_to, history_with,
  all_messages, ban, unban, kick, unknown, parse_command,
}
use messenger_cpp_r.Server.Handler.{World, cleanup_session, require_auth, require_moderator}
use messenger_cpp_r.Server.Handler.Commands.{
  is_ok, disconnect_if, forward, finish, turn, handle_command, handle_frame, handle_register,
  handle_login, handle_logout, handle_list, handle_inbox, handle_message, handle_history,
  handle_all_messages, handle_ban, handle_unban, handle_kick,
}
use messenger_cpp_r.Server.Handler.Effects.{
  Talks-refl, disconnect_user-Talks, deliver_to_user-Talks, set_handler-SameUser, talks, serves,
  ends, starts, after,
}
use messenger_cpp_r.Server.Handler.Turns.Sessions.{
  handle_register-Effect, handle_login-Effect, handle_logout-Effect,
}
use messenger_cpp_r.Server.Handler.Turns.Answers.{
  handle_list-Effect, handle_inbox-Effect, handle_history-Effect, handle_all_messages-Effect,
  handle_message-Effect, handle_ban-Effect, handle_unban-Effect, handle_kick-Effect,
}
use messenger_cpp_r.Server.Handler.Guards.{
  Goes, says, answer_list-Effect, guarded_auth, guarded_moderator,
}

-- Whose ban a command lifts, if it is obeyed and succeeds.
unfoldable pub lifted : Command → Bytes → Bool
lifted (unban login) l = str_eq login l
lifted (register_as login pass) l = false
lifted (log_in_as login pass) l = false
lifted log_out l = false
lifted list_users l = false
lifted read_inbox l = false
lifted (message_to to text) l = false
lifted (history_with target limit offset) l = false
lifted (all_messages limit) l = false
lifted (ban login) l = false
lifted (kick login) l = false
lifted unknown l = false

-- Whose ban a turn lifts.
unfoldable pub turn_lifts : ReceiveFrameStatus → Bytes → Bytes → Bool
turn_lifts ReceiveFrameStatus.ok frame l = lifted (parse_command frame) l
turn_lifts ReceiveFrameStatus.closed frame l = false
turn_lifts ReceiveFrameStatus.too_large frame l = false
turn_lifts ReceiveFrameStatus.error frame l = false
turn_lifts ReceiveFrameStatus.invalid frame l = false

module _ (env : Env) (max_frame_size : ℕ) (takes : ℕ → Bool) (k : Bytes → Bool) (i : ℕ) where
  handle_command-Effect :
      (c : Command) (w : World)
      → ((x : Bytes) → k x ≡ false → lifted c x ≡ false)
      → Goes env max_frame_size takes k i w (handle_command env max_frame_size takes i c w)
  unfolding lifted
  handle_command-Effect (register_as login pass) w may =
      handle_register-Effect env max_frame_size takes k i login pass w
  handle_command-Effect (log_in_as login pass) w may =
      handle_login-Effect env max_frame_size takes k i login pass w
  handle_command-Effect log_out w may = handle_logout-Effect env max_frame_size takes k i w
  handle_command-Effect list_users w may = handle_list-Effect env max_frame_size takes k i w
  handle_command-Effect read_inbox w may = handle_inbox-Effect env max_frame_size takes k i w
  handle_command-Effect (message_to to text) w may =
      handle_message-Effect env max_frame_size takes k i to text w
  handle_command-Effect (history_with target limit offset) w may =
      handle_history-Effect env max_frame_size takes k i target limit offset w
  handle_command-Effect (all_messages limit) w may =
      handle_all_messages-Effect env max_frame_size takes k i limit w
  handle_command-Effect (ban login) w may = handle_ban-Effect env max_frame_size takes k i login w
  handle_command-Effect (unban login) w may =
      handle_unban-Effect env max_frame_size takes k i login w may
  handle_command-Effect (kick login) w may = handle_kick-Effect env max_frame_size takes k i login w
  handle_command-Effect unknown w may = says env max_frame_size takes k i (lit "UNKNOWN_CMD") w

  finish-Effect :
      (w : World) → Goes env max_frame_size takes k i w (finish env max_frame_size takes i w)
  unfolding finish
  finish-Effect w =
      let w1 =
        cleanup_session env max_frame_size takes i (cleanup_session env max_frame_size takes i w) in
      after (ends w) (
        after (ends _) (
          talks (record {
            db = refl;
            sessions = refl;
            handlers =
                set_handler-SameUser i (record (w1.handlers i) { connected = false }) w1
                  (refl, refl, refl, refl);
          })))

module _ (env : Env) (max_frame_size : ℕ) (takes : ℕ → Bool) (i : ℕ) where
  pub turn-Effect :
      (s : ReceiveFrameStatus) (frame : Bytes) (w : World)
      → Goes env max_frame_size takes
          (turn_lifts s frame)
          i
          w
          (turn env max_frame_size takes i s frame w)
  unfolding turn handle_frame turn_lifts
  turn-Effect ReceiveFrameStatus.ok frame w =
      handle_command-Effect env max_frame_size takes (lifted (parse_command frame)) i
        (parse_command frame) w (λ x h. h)
  turn-Effect ReceiveFrameStatus.closed frame w =
      finish-Effect env max_frame_size takes (λ l. false) i w
  turn-Effect ReceiveFrameStatus.too_large frame w =
      after (says env max_frame_size takes (λ l. false) i (lit "ERROR_FRAME_TOO_LARGE") w)
        (finish-Effect env max_frame_size takes (λ l. false) i _)
  turn-Effect ReceiveFrameStatus.error frame w =
      finish-Effect env max_frame_size takes (λ l. false) i w
  turn-Effect ReceiveFrameStatus.invalid frame w =
      finish-Effect env max_frame_size takes (λ l. false) i w
