-- ===== src/Server/Database/Atomic.antt =====
-- Database.cpp: the answers of its operations and the rows that they write.
use messenger_cpp_r.Base.{◌≡◌, refl, ap, ◌⊎◌, inl, inr, Option, none, some, arith, Bytes, ℤ}
use messenger_cpp_r.Server.Database.{Db, Env, DbStatus, DbResult, ok, audit}
use messenger_cpp_r.Server.Database.Accounts.{
  register_user, login_user, check_login, logout_user, ban_user, unban_user, kick_user,
  mark_user_offline, has_moderator_rights, commit_audited,
}
use messenger_cpp_r.Server.Database.Mailbox.{
  send_message, store_message, get_user_id, get_user_by_login, list_users, get_inbox, history_rows,
  get_history, get_all_messages,
}
use messenger_cpp_r.Server.Database.Requests.{
  Request, registers, logs_in, logs_out, asks_rights, bans, unbans, kicks, marks_offline, finds_id,
  finds_user, sends, lists, reads_inbox, reads_history, reads_all, serve,
}

abbrev pub SameRows : Db → Db → Type 0
SameRows a b = (b.users ≡ a.users) × (b.messages ≡ a.messages) × (b.audits ≡ a.audits)

-- Succeeded, or nothing was written.
abbrev pub Atomic : Db → DbStatus → Db → Type 0
Atomic db status db' = (status ≡ ok) ⊎ SameRows db db'

module _ (env : Env) (db : Db) where
  commit_audited-Atomic :
      (o : Option Db) (r : DbResult)
      → r.status ≡ ok
      → Atomic db (commit_audited env db o r).0.status (commit_audited env db o r).1
  commit_audited-Atomic none r e = inr (refl, refl, refl)
  commit_audited-Atomic (some d) r e = inl e

  ban_user-Atomic :
      (actor : ℤ) (l : Bytes)
      → Atomic db (ban_user env db actor l).0.status (ban_user env db actor l).1
  unfolding ban_user
  ban_user-Atomic actor l = ground (arith, audit env db)

  unban_user-Atomic :
      (actor : ℤ) (l : Bytes)
      → Atomic db (unban_user env db actor l).0.status (unban_user env db actor l).1
  unfolding unban_user
  unban_user-Atomic actor l = ground (arith, audit env db)

  kick_user-Atomic :
      (actor : ℤ) (l : Bytes)
      → Atomic db (kick_user env db actor l).0.status (kick_user env db actor l).1
  unfolding kick_user
  kick_user-Atomic actor l = ground (arith, audit env db)

  mark_user_offline-Atomic :
      (l : Bytes) → Atomic db (mark_user_offline env db l).0.status (mark_user_offline env db l).1
  unfolding mark_user_offline
  mark_user_offline-Atomic l = ground arith

  logout_user-Atomic : (i : ℤ) → Atomic db (logout_user env db i).0.status (logout_user env db i).1
  unfolding logout_user
  logout_user-Atomic i = ground arith

  register_user-Atomic :
      (l p : Bytes) → Atomic db (register_user env db l p).0.status (register_user env db l p).1
  unfolding register_user
  register_user-Atomic l p = ground (arith, audit env db)

  login_user-Atomic :
      (l p : Bytes) → Atomic db (login_user env db l p).0.status (login_user env db l p).1
  unfolding login_user check_login
  login_user-Atomic l p = ground (arith, audit env db)

  send_message-Atomic :
      (i : ℤ) (l t : Bytes)
      → Atomic db (send_message env db i l t).0.status (send_message env db i l t).1
  unfolding send_message store_message
  send_message-Atomic i l t = ground arith

  -- The status that an operation answers; the queries answer none.
  unfoldable pub answer : Request → Option DbStatus
  answer (registers login password) = some (register_user env db login password).0.status
  answer (logs_in login password) = some (login_user env db login password).0.status
  answer (logs_out id) = some (logout_user env db id).0.status
  answer (asks_rights id) = none
  answer (bans actor login) = some (ban_user env db actor login).0.status
  answer (unbans actor login) = some (unban_user env db actor login).0.status
  answer (kicks actor login) = some (kick_user env db actor login).0.status
  answer (marks_offline login) = some (mark_user_offline env db login).0.status
  answer (finds_id login) = none
  answer (finds_user login) = none
  answer (sends sender login text) = some (send_message env db sender login text).0.status
  answer lists = none
  answer (reads_inbox id limit) = none
  answer (reads_history id login limit offset) = none
  answer (reads_all limit) = none

  answered :
      (status : DbStatus) (d : Db) → Atomic db status d → (some status ≡ some ok) ⊎ SameRows db d
  answered status d (inl h) = inl (ap some h)
  answered status d (inr h) = inr h

  -- Every operation of the class Database answers Ok, or leaves the rows of the three tables as they
  -- were; the queries always leave them.
  pub serve-Atomic : (r : Request) → (answer r ≡ some ok) ⊎ SameRows db (serve env db r)
  unfolding serve answer
  serve-Atomic (registers login password) =
      answered _ (register_user env db login password).1 (register_user-Atomic login password)
  serve-Atomic (logs_in login password) =
      answered _ (login_user env db login password).1 (login_user-Atomic login password)
  serve-Atomic (logs_out id) = answered _ (logout_user env db id).1 (logout_user-Atomic id)
  serve-Atomic (asks_rights id) = inr (unfold has_moderator_rights in ground arith)
  serve-Atomic (bans actor login) =
      answered _ (ban_user env db actor login).1 (ban_user-Atomic actor login)
  serve-Atomic (unbans actor login) =
      answered _ (unban_user env db actor login).1 (unban_user-Atomic actor login)
  serve-Atomic (kicks actor login) =
      answered _ (kick_user env db actor login).1 (kick_user-Atomic actor login)
  serve-Atomic (marks_offline login) =
      answered _ (mark_user_offline env db login).1 (mark_user_offline-Atomic login)
  serve-Atomic (finds_id login) = inr (unfold get_user_id in ground arith)
  serve-Atomic (finds_user login) = inr (unfold get_user_by_login in ground arith)
  serve-Atomic (sends sender login text) =
      answered _ (send_message env db sender login text).1 (send_message-Atomic sender login text)
  serve-Atomic lists = inr (unfold list_users in ground arith)
  serve-Atomic (reads_inbox id limit) = inr (unfold get_inbox in ground arith)
  serve-Atomic (reads_history id login limit offset) =
      inr (unfold get_history get_user_id history_rows in ground arith)
  serve-Atomic (reads_all limit) = inr (unfold get_all_messages in ground arith)
