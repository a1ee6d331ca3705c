-- ===== src/Server/Database/Requests.antt =====
-- The public operations of the class Database as requests, one transaction or two each, and any
-- sequence of them. The threads of the server reach the tables only through these. Each request is one
-- step; statements of several requests that overlap, as READ COMMITTED allows, are left out.
use messenger_cpp_r.Base.{
  ◌≡◌, refl, inl, inr, Bool, false, Option-cases, List, [], ◌∷◌, arith, Bytes, str_eq, ℤ, pos,
}
use messenger_cpp_r.Server.Database.{Db, Env, begin}
use messenger_cpp_r.Server.Database.Accounts.{
  register_user, login_user, logout_user, has_moderator_rights, ban_user, unban_user, kick_user,
  mark_user_offline,
}
use messenger_cpp_r.Server.Database.Mailbox.{
  send_message, get_user_id, get_user_by_login, list_users, get_inbox, history_rows, get_history,
  get_all_messages,
}
use messenger_cpp_r.Server.Database.Change.{Change, same_tables, begin-Change}
use messenger_cpp_r.Server.Database.Change.Moderation.{
  ban_user-Change, unban_user-Change, kick_user-Change, mark_user_offline-Change,
  logout_user-Change, has_moderator_rights-Change,
}
use messenger_cpp_r.Server.Database.Change.Entries.{
  register_user-Change, login_user-Change, send_message-Change,
}

pub data Request : Type 0 where
  registers logs_in : Bytes → Bytes → Request
  logs_out asks_rights : ℤ → Request
  bans unbans kicks : ℤ → Bytes → Request
  marks_offline finds_id finds_user : Bytes → Request
  sends : ℤ → Bytes → Bytes → Request
  lists : Request
  reads_inbox : ℤ → ℤ → Request
  reads_history : ℤ → Bytes → ℤ → ℤ → Request
  reads_all : ℤ → Request

-- Whose ban the request lifts, if it succeeds.
unfoldable pub lifts : Request → Bytes → Bool
lifts (unbans actor login) l = str_eq login l
lifts (registers a b) l = false
lifts (logs_in a b) l = false
lifts (logs_out a) l = false
lifts (asks_rights a) l = false
lifts (bans a b) l = false
lifts (kicks a b) l = false
lifts (marks_offline a) l = false
lifts (finds_id a) l = false
lifts (finds_user a) l = false
lifts (sends a b c) l = false
lifts lists l = false
lifts (reads_inbox a b) l = false
lifts (reads_history a b c d) l = false
lifts (reads_all a) l = false

module _ (env : Env) where
  -- The tables after a request.
  unfoldable pub serve : Db → Request → Db
  serve db (registers login password) = (register_user env db login password).1
  serve db (logs_in login password) = (login_user env db login password).1
  serve db (logs_out id) = (logout_user env db id).1
  serve db (asks_rights id) = (has_moderator_rights env db id).1
  serve db (bans actor login) = (ban_user env db actor login).1
  serve db (unbans actor login) = (unban_user env db actor login).1
  serve db (kicks actor login) = (kick_user env db actor login).1
  serve db (marks_offline login) = (mark_user_offline env db login).1
  serve db (finds_id login) = (get_user_id env db login).1
  serve db (finds_user login) = (get_user_by_login env db login).1
  serve db (sends sender login text) = (send_message env db sender login text).1
  serve db lists = (list_users env db).1
  serve db (reads_inbox id limit) = (get_inbox env db id limit).1
  serve db (reads_history id login limit offset) = (get_history env db id login limit offset).1
  serve db (reads_all limit) = (get_all_messages env db limit).1

  unfoldable pub serve_all : Db → List Request → Db
  serve_all db [] = db
  serve_all db (r ∷ rs) = serve_all (serve db r) rs

  get_user_id-begin : (db : Db) (login : Bytes) → (get_user_id env db login).1 ≡ begin db
  unfolding get_user_id
  get_user_id-begin db login = ground arith

  get_user_by_login-begin :
      (db : Db) (login : Bytes) → (get_user_by_login env db login).1 ≡ begin db
  unfolding get_user_by_login
  get_user_by_login-begin db login = ground arith

  history_rows-begin : (db : Db) (a b l o : ℤ) → (history_rows env db a b l o).1 ≡ begin db
  unfolding history_rows
  history_rows-begin db a b l o = ground arith

  as_begin : {k : Bytes → Bool} (db d : Db) → d ≡ begin db → Change k db d
  as_begin db d e = rw e (begin-Change env db)

  get_history-Change :
      {k : Bytes → Bool} (db : Db) (a : ℤ) (login : Bytes) (l o : ℤ)
      → Change k db (get_history env db a login l o).1
  unfolding get_history
  get_history-Change db a login l o = elim (Option-cases (get_user_id env db login).0) [
    | inl e ↦ rw (e, get_history) (as_begin db _ (get_user_id-begin db login))
    | inr (i, e) ↦
        rw (e, get_history)
          (rw (get_user_id-begin db login, history_rows-begin (begin db) a (pos i) l o)
            (same_tables db (begin (begin db)) refl refl refl refl refl))
  ]

  pub serve-Change : (db : Db) (r : Request) → Change (lifts r) db (serve db r)
  unfolding serve lifts
  serve-Change db (registers login password) = register_user-Change env db login password
  serve-Change db (logs_in login password) = login_user-Change env db login password
  serve-Change db (logs_out id) = logout_user-Change env db id
  serve-Change db (asks_rights id) = has_moderator_rights-Change env db id
  serve-Change db (bans actor login) = ban_user-Change env db actor login
  serve-Change db (unbans actor login) = unban_user-Change env db actor login
  serve-Change db (kicks actor login) = kick_user-Change env db actor login
  serve-Change db (marks_offline login) = mark_user_offline-Change env db login
  serve-Change db (finds_id login) = as_begin db _ (get_user_id-begin db login)
  serve-Change db (finds_user login) = as_begin db _ (get_user_by_login-begin db login)
  serve-Change db (sends sender login text) = send_message-Change env db sender login text
  serve-Change db lists = as_begin db _ (unfold list_users in ground arith)
  serve-Change db (reads_inbox id limit) = as_begin db _ (unfold get_inbox in ground arith)
  serve-Change db (reads_history id login limit offset) =
      get_history-Change db id login limit offset
  serve-Change db (reads_all limit) = as_begin db _ (unfold get_all_messages in ground arith)
