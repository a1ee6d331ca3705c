-- ===== src/Server/Database/Change/Entries.antt =====
-- The changes that registration, login and sendMessage make.
use messenger_cpp_r.Base.{
  ◌^◌, ◌≤◌, ◌<◌, ◌≡◌, refl, ap, ◌∙◌, inl, inr, Bool, false, not, ◌||◌, some, Option-cases, [], ◌∷◌,
  arith, Bytes, is_empty, length, ltb, Bool-cases, ℤ,
}
use messenger_cpp_r.Server.Auth.{PasswordPolicyResult, is_valid_login, validate_password}
use messenger_cpp_r.Server.Database.{
  online, is_banned, User, Audit, Db, Env, LoginResult, find_login, find_id, begin, runs, audit,
  seen_as,
}
use messenger_cpp_r.Server.Database.Accounts.{
  verify_password, commit_login, register_user, check_login, login_user,
}
use messenger_cpp_r.Server.Database.Mailbox.{store_message, send_message, is_blank}
use messenger_cpp_r.Server.Database.Rows.{find_login-login, find_id-id}
use messenger_cpp_r.Server.Database.Change.{
  Change, quiet, logged_in, registered, sent, same_tables, seen_as-KeepsIdentity, audit_cases,
  begin-Change, commit_audited-Change,
}

text_size :
    (text : Bytes)
    → (is_empty text || ltb 4096 (length text)) ≡ false
    → (0 < length text) × (length text ≤ 4096)
text_size [] h = cc
text_size (c ∷ cs) h = ground arith

module _ (env : Env) where
  commit_login-Change :
      {lifts : Bytes → Bool} (db d : Db) (actor : ℤ) (action target details : Bytes)
      (r : LoginResult)
      → ((a : Audit) → Change lifts db (begin (record d { audits = a ∷ d.audits })))
      → Change lifts db (commit_login env db (audit env d actor action target details) r).1
  commit_login-Change db d actor action target details r made =
      elim (audit_cases env d actor action target details) [
        | inl e ↦ rw e (begin-Change env db)
        | inr (a, e) ↦ rw e (made a)
      ]

  pub check_login-Change :
      {lifts : Bytes → Bool} (db : Db) (login password : Bytes) (u : User)
      → find_login u.login db.users ≡ some u
      → Change lifts db (check_login env db login password u).1
  unfolding check_login
  check_login-Change db login password u found = elim (Bool-cases (is_banned u.status)) [
    | inl b ↦ rw b (begin-Change env db)
    | inr free ↦ elim (Bool-cases (env.is_text password)) [
      | inr bad ↦ rw (free, bad) (begin-Change env db)
      | inl good ↦ elim (Bool-cases (verify_password env password u.password_hash)) [
        | inr wrong ↦ rw (free, good) (rw (wrong, check_login) (begin-Change env db))
        | inl right ↦
            rw (free, good)
              (rw (right, check_login)
                (commit_login-Change db _ _ _ login _ _ λ a.
                  logged_in u (seen_as env db online) (seen_as-KeepsIdentity env db online) found
                    free refl (refl, refl) refl))
      ]
    ]
  ]

  pub login_user-Change :
      {lifts : Bytes → Bool} (db : Db) (login password : Bytes)
      → Change lifts db (login_user env db login password).1
  unfolding login_user
  login_user-Change db login password = elim (Bool-cases (runs env db (login ∷ []))) [
    | inr down ↦ rw down (begin-Change env db)
    | inl up ↦ elim (Option-cases (find_login login db.users)) [
      | inl e ↦ rw (up, e, login_user) (begin-Change env db)
      | inr (u, e) ↦
          rw (up, e, login_user)
            (check_login-Change db login password u
              (ap (λ l. find_login l db.users) (find_login-login login db.users u e) ∙ e))
    ]
  ]

  pub register_user-Change :
      {lifts : Bytes → Bool} (db : Db) (login password : Bytes)
      → Change lifts db (register_user env db login password).1
  unfolding register_user
  register_user-Change db login password = elim (Bool-cases (is_valid_login login)) [
    | inr bad ↦ rw bad (same_tables db db refl refl refl refl refl)
    | inl good ↦ elim (Bool-cases (PasswordPolicyResult.ok (validate_password password))) [
      | inr weak ↦ rw (good, weak) (same_tables db db refl refl refl refl refl)
      | inl strong ↦ elim (Bool-cases (runs env db (login ∷ password ∷ []))) [
        | inr down ↦ rw (good, strong, down) (begin-Change env db)
        | inl up ↦ elim (Bool-cases (ltb db.next_user_id (2 ^ 31))) [
          | inr out ↦ rw (good, strong, up, out) (begin-Change env db)
          | inl room ↦ elim (Option-cases (find_login login db.users)) [
            | inr (u, e) ↦
                rw (good, strong, up, room)
                  (rw (e, register_user) (quiet refl (refl, refl) refl (omega arith)))
            | inl e ↦
                rw (good, strong, up, room)
                  (rw (e, register_user)
                    (commit_audited-Change env db _ _ _ login _ _
                      λ a. registered _ good e refl refl refl refl (refl, refl) refl))
          ]
        ]
      ]
    ]
  ]

  store_message-Change :
      {lifts : Bytes → Bool} (db : Db) (sender_id : ℤ) (text l : Bytes) (receiver : User)
      → find_login l db.users ≡ some receiver
      → is_banned receiver.status ≡ false
      → (0 < length text) × (length text ≤ 4096)
      → Change lifts db (store_message env db sender_id text receiver).1
  unfolding store_message
  store_message-Change db sender_id text l receiver found free size =
      elim (Option-cases (find_id sender_id db.users)) [
        | inl e ↦ rw (e, store_message) (begin-Change env db)
        | inr (s, e) ↦
            elim (Bool-cases
              (is_blank text || not (env.is_text text) || not (ltb db.next_message_id (2 ^ 31)))) [
                | inl bad ↦ rw (e, store_message) (rw bad (begin-Change env db))
                | inr fine ↦
                    rw (e, store_message)
                      (rw fine (
                        sent _ s receiver
                          (ap (λ i. find_id i db.users) (find_id-id sender_id db.users s e) ∙ e) l
                          found refl free refl size refl refl refl refl))
              ]
      ]

  pub send_message-Change :
      {lifts : Bytes → Bool} (db : Db) (sender_id : ℤ) (login text : Bytes)
      → Change lifts db (send_message env db sender_id login text).1
  unfolding send_message
  send_message-Change db sender_id login text =
      elim (Bool-cases (is_empty text || ltb 4096 (length text))) [
        | inl bad ↦ rw bad (same_tables db db refl refl refl refl refl)
        | inr fine ↦ elim (Bool-cases (runs env db (login ∷ []))) [
          | inr down ↦ rw (fine, down) (begin-Change env db)
          | inl up ↦ elim (Option-cases (find_login login db.users)) [
            | inl e ↦ rw (fine, up) (rw (e, send_message) (begin-Change env db))
            | inr (u, e) ↦ elim (Bool-cases (is_banned u.status)) [
              | inl b ↦
                  rw (fine, up) (rw (e, send_message) (rw (b, send_message) (begin-Change env db)))
              | inr free ↦
                  rw (fine, up)
                    (rw (e, send_message)
                      (rw (free, send_message)
                        (store_message-Change db sender_id text login u e free
                          (text_size text fine))))
            ]
          ]
        ]
      ]
