-- ===== src/Server/Database/Accounts.antt =====
-- Registration, login and the status of accounts: Database.cpp from registerUser to markUserOffline.
use messenger_cpp_r.Base.{
  ◌+◌, ◌^◌, Bool, true, false, not, ◌&&◌, ◌||◌, Option, none, some, [], ◌∷◌, ◌++◌, Bytes, lit,
  str_eq, ltb, ◌==◌, if◌then◌else◌, ℤ, pos, minus_one, eqb_ℤ,
}
use messenger_cpp_r.Server.Auth.{is_valid_login, validate_password}
use messenger_cpp_r.Server.Database.{
  user, online, offline, banned, is_banned, is_moderator, User, Db, Env, DbStatus, ok,
  validation_error, unauthorized, not_found, duplicate, banned_status, error, DbResult, LoginResult,
  make_result, database_error, find_login, find_id, update_where, begin, runs, audit, seen_as,
}

module _ (env : Env) where
  -- SELECT crypt($1, gen_salt('bf', 12))
  unfoldable pub hash_password : Db → Bytes → Bytes
  hash_password db password = env.crypt password (env.gen_salt db.txns)

  -- SELECT crypt($1, $2) = $2
  unfoldable pub verify_password : Bytes → Bytes → Bool
  verify_password password password_hash = str_eq (env.crypt password password_hash) password_hash

  -- A transaction that ends in an exception.
  abbrev pub rolled_back : Db → DbResult × Db
  rolled_back db = (database_error, begin db)

  -- Commits what `audit` gave, or rolls back on its exception.
  abbrev pub commit_audited : Db → Option Db → DbResult → DbResult × Db
  commit_audited db none result = rolled_back db
  commit_audited db (some db') result = (result, begin db')

  unfoldable pub insert_user : Db → Bytes → Bytes → Db
  insert_user db login password_hash = record db {
    users =
        db.users
        ++ record {
          id = db.next_user_id;
          login = login;
          password_hash = password_hash;
          role = user;
          status = offline;
          last_seen = none;
        }
          ∷ [];
    next_user_id = db.next_user_id + 1;
  }

  -- The sequence behind `id` does not go back when the login turns out to be taken, and it ends at the
  -- largest int.
  unfoldable pub register_user : Db → Bytes → Bytes → DbResult × Db
  unfolding hash_password insert_user
  register_user db login password =
      if not (is_valid_login login)
      then (
        make_result validation_error
            (lit "login must be 3-50 chars: letters, digits, '.', '_' or '-'") minus_one,
        db,
      )
      else let policy = validate_password password in
        if not policy.ok
        then (make_result validation_error policy.message minus_one, db)
        else if not (runs env db (login ∷ password ∷ [])) || not (ltb db.next_user_id (2 ^ 31))
        then rolled_back db
        else elim (find_login login db.users) [
          | some taken ↦ (
            make_result duplicate (lit "login already exists") minus_one,
            begin (record db { next_user_id = db.next_user_id + 1 }),
          )
          | none ↦
              let inserted = insert_user db login (hash_password db password) in
              commit_audited db
                (audit env inserted (pos db.next_user_id) (lit "register") login
                  (lit "user self-registered"))
                (make_result ok (lit "registered") (pos db.next_user_id))
        ]

  abbrev pub login_failure : DbStatus → Bytes → LoginResult
  login_failure status message = record {
    status = status;
    message = message;
    user_id = minus_one;
    login = [];
    role = none;
  }

  abbrev pub bad_credentials : LoginResult
  bad_credentials = login_failure unauthorized (lit "invalid login or password")

  abbrev pub commit_login : Db → Option Db → LoginResult → LoginResult × Db
  commit_login db none result = (login_failure error (lit "database error"), begin db)
  commit_login db (some db') result = (result, begin db')

  -- The password is checked for a user that was found and is not banned.
  unfoldable pub check_login : Db → Bytes → Bytes → User → LoginResult × Db
  unfolding verify_password
  check_login db login password u =
      if is_banned u.status
      then (
        record {
          status = banned_status;
          message = lit "user is banned";
          user_id = pos u.id;
          login = login;
          role = some u.role;
        },
        begin db,
      )
      else if not (env.is_text password)
      then (login_failure error (lit "database error"), begin db)
      else if not (verify_password password u.password_hash)
      then (bad_credentials, begin db)
      else commit_login db
          (audit env
            (record db {
              users = update_where (λ v. v.id == u.id) (seen_as env db online) db.users;
            })
            (pos u.id) (lit "login") login (lit "login success"))
          (record {
            status = ok;
            message = lit "login ok";
            user_id = pos u.id;
            login = login;
            role = some u.role;
          })

  unfoldable pub login_user : Db → Bytes → Bytes → LoginResult × Db
  unfolding check_login
  login_user db login password =
      if not (runs env db (login ∷ []))
      then (login_failure error (lit "database error"), begin db)
      else elim (find_login login db.users) [
        | none ↦ (bad_credentials, begin db)
        | some u ↦ check_login db login password u
      ]

  unfoldable pub logout_user : Db → ℤ → DbResult × Db
  logout_user db user_id = if not (runs env db []) then rolled_back db else (
    make_result ok (lit "logout ok") user_id,
    begin (record db {
      users =
          update_where (λ u. eqb_ℤ (pos u.id) user_id && not (is_banned u.status))
            (seen_as env db offline) db.users;
    }),
  )

  unfoldable pub has_moderator_rights : Db → ℤ → Bool × Db
  has_moderator_rights db user_id =
      if not (runs env db []) then (false, begin db) else elim (find_id user_id db.users) [
        | none ↦ (false, begin db)
        | some u ↦ (is_moderator u.role, begin db)
      ]

  -- UPDATE … WHERE login = $1 [AND …] RETURNING id, then the audit: the shape of ban, unban and kick.
  -- The row that is updated is the one with this login, if it passes the rest of the test.
  abbrev pub update_login : Db → Bytes → (User → Bool) → (User → User) → Db
  update_login db login p f = record db {
    users = update_where (λ u. str_eq u.login login && p u) f db.users;
  }

  abbrev pub returning : Db → Bytes → (User → Bool) → Option User
  returning db login p = elim (find_login login db.users) [
    | none ↦ none
    | some u ↦ if p u then some u else none
  ]

  unfoldable pub ban_user : Db → ℤ → Bytes → DbResult × Db
  ban_user db actor login =
      if not (runs env db (login ∷ []))
      then rolled_back db
      else elim (returning db login (λ u. true)) [
        | none ↦ (make_result not_found (lit "user not found") minus_one, begin db)
        | some u ↦
            commit_audited db
              (audit env (update_login db login (λ v. true) (λ v. record v { status = banned }))
                actor (lit "ban") login (lit "user banned"))
              (make_result ok (lit "user banned") (pos u.id))
      ]

  unfoldable pub unban_user : Db → ℤ → Bytes → DbResult × Db
  unban_user db actor login =
      if not (runs env db (login ∷ []))
      then rolled_back db
      else elim (returning db login (λ u. is_banned u.status)) [
        | none ↦ (make_result not_found (lit "banned user not found") minus_one, begin db)
        | some u ↦
            commit_audited db
              (audit env
                (update_login db login (λ v. is_banned v.status)
                  (λ v. record v { status = offline }))
                actor (lit "unban") login (lit "user unbanned"))
              (make_result ok (lit "user unbanned") (pos u.id))
      ]

  unfoldable pub kick_user : Db → ℤ → Bytes → DbResult × Db
  kick_user db actor login =
      if not (runs env db (login ∷ []))
      then rolled_back db
      else elim (returning db login (λ u. not (is_banned u.status))) [
        | none ↦
            (make_result not_found (lit "active non-banned user not found") minus_one, begin db)
        | some u ↦
            commit_audited db
              (audit env
                (update_login db login (λ v. not (is_banned v.status)) (seen_as env db offline))
                actor (lit "kick") login (lit "user session kicked"))
              (make_result ok (lit "user kicked") (pos u.id))
      ]

  unfoldable pub mark_user_offline : Db → Bytes → DbResult × Db
  mark_user_offline db login =
      if not (runs env db (login ∷ []))
      then rolled_back db
      else elim (returning db login (λ u. not (is_banned u.status))) [
        | none ↦ (make_result not_found (lit "user not found or banned") minus_one, begin db)
        | some u ↦ (
          make_result ok (lit "user offline") (pos u.id),
          begin (update_login db login (λ v. not (is_banned v.status)) (seen_as env db offline)),
        )
      ]
