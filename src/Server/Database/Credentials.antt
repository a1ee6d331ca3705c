-- ===== src/Server/Database/Credentials.antt =====
-- registerUser and loginUser of Database.cpp, one after the other.
use mathlib.Core.Option
use messenger_cpp_r.Base.{
  all_of, ℕ, ◌^◌, ◌≡◌, refl, ap, ◌∙◌, inl, inr, true, false, none, some, Option-cases, [], ◌∷◌,
  arith, Bytes, lit, str_eq, str_eq_refl, ltb, Bool-cases, ℤ, pos, non_positive, ◌==◌,
}
use messenger_cpp_r.Server.Auth.{PasswordPolicyResult, is_valid_login, validate_password}
use messenger_cpp_r.Server.Database.{
  user, Audit, online, offline, update_where, seen_as, User, Db, Env, ok, runs, audit, is_banned,
  find_login, find_id,
}
use messenger_cpp_r.Server.Database.Accounts.{
  register_user, login_user, check_login, insert_user, hash_password, verify_password,
}
use messenger_cpp_r.Server.Database.Rows.{find_login-append, modify, find_id-update_where}
use messenger_cpp_r.Server.Database.Change.{audit_cases, seen_as-KeepsIdentity}
use messenger_cpp_r.Server.Database.Change.Entries.{register_user-Change}
use messenger_cpp_r.Server.Database.Invariant.{IsValid}
use messenger_cpp_r.Server.Database.Invariant.Preserved.{Change-IsValid}
use messenger_cpp_r.Server.Database.Bans.{find_login→find_id}

-- crypt() applied to its own output gives it back: the salt is read from the hash.
pub record IsCrypt (env : Env) : Type 0 where
  pub stable : (p s : Bytes) → env.crypt p (env.crypt p s) ≡ env.crypt p s

-- The account that a registration created.
abbrev pub HasAccount : Env → Db → Bytes → Bytes → ℕ → Db → Type 0
HasAccount env db login password id db' =
    (u : User) × (find_login login db'.users ≡ some u)
    × (u.id ≡ id)
    × (u.password_hash ≡ hash_password env db password)
    × (u.role ≡ user)
    × (u.status ≡ offline)

new_row :
    (env : Env) (db : Db) (login h : Bytes) (a : Audit)
    → find_login login db.users ≡ none
    → (u : User) × (find_login login
          (record (insert_user env db login h) {
            audits = a ∷ (insert_user env db login h).audits;
          }).users
        ≡ some u)
      × (u.id ≡ db.next_user_id)
      × (u.password_hash ≡ h)
      × (u.role ≡ user)
      × (u.status ≡ offline)
unfolding insert_user find_login
new_row env db login h a e =
    let u : User = record {
      id = db.next_user_id;
      login = login;
      password_hash = h;
      role = user;
      status = offline;
      last_seen = none;
    } in
    (
      u,
      find_login-append login db.users (u ∷ []) ∙ rw (e, str_eq_refl login) refl,
      refl,
      refl,
      refl,
      refl,
    )

pub register_user-HasAccount :
    (env : Env) (db : Db) (login password : Bytes)
    → (register_user env db login password).0.status ≡ ok
    → HasAccount env db login password db.next_user_id (register_user env db login password).1
unfolding register_user
register_user-HasAccount env db login password = elim (Bool-cases (is_valid_login login)) [
  | inr bad ↦ rw bad (λ e. cc)
  | inl good ↦ elim (Bool-cases (PasswordPolicyResult.ok (validate_password password))) [
    | inr weak ↦ rw (good, weak) (λ e. cc)
    | inl strong ↦ elim (Bool-cases (runs env db (login ∷ password ∷ []))) [
      | inr down ↦ rw (good, strong, down) (λ e. cc)
      | inl up ↦ elim (Bool-cases (ltb db.next_user_id (2 ^ 31))) [
        | inr out ↦ rw (good, strong, up, out) (λ e. cc)
        | inl room ↦ elim (Option-cases (find_login login db.users)) [
          | inr (u, e) ↦ rw (good, strong, up, room) (rw (e, register_user) (λ e. cc))
          | inl e ↦
              rw (good, strong, up, room)
                (rw (e, register_user)
                  (elim (audit_cases env (insert_user env db login (hash_password env db password))
                    (pos db.next_user_id) (lit "register") login (lit "user self-registered")) [
                      | inl f ↦ rw f (λ done. cc)
                      | inr (a, f) ↦
                          rw f (λ done. new_row env db login (hash_password env db password) a e)
                    ]))
        ]
      ]
    ]
  ]
]

register_user-runs :
    (env : Env) (db : Db) (login password : Bytes)
    → (register_user env db login password).0.status ≡ ok
    → runs env db (login ∷ password ∷ []) ≡ true
unfolding register_user
register_user-runs env db login password done = ground arith

runs_texts :
    (env : Env) (db : Db) (a b : Bytes)
    → runs env db (a ∷ b ∷ []) ≡ true
    → (env.is_text a ≡ true) × (env.is_text b ≡ true)
unfolding runs all_of
runs_texts env db a b h = ground arith

runs_with :
    (env : Env) (db : Db) (a : Bytes)
    → env.up db.txns ≡ true
    → env.is_text a ≡ true
    → runs env db (a ∷ []) ≡ true
unfolding runs all_of
runs_with env db a up t = rw (up, t)

audit_of_row :
    (env : Env) (db : Db) (actor : ℤ) (action target details : Bytes) (u : User)
    → find_id actor db.users ≡ some u
    → (a : Audit) × (audit env db actor action target details
        ≡ some (record db { audits = a ∷ db.audits }))
unfolding audit
audit_of_row env db actor action target details u e = elim (Bool-cases (non_positive actor)) [
  | inl h ↦ rw h (_, refl)
  | inr h ↦ rw (h, e, audit) (_, refl)
]

-- The account that `login_user` lets in.
login_user-ok :
    (env : Env) (db : Db) (login password s : Bytes) (u : User)
    → IsCrypt env
    → runs env db (login ∷ []) ≡ true
    → env.is_text password ≡ true
    → find_login login db.users ≡ some u
    → find_id (pos u.id) db.users ≡ some u
    → is_banned u.status ≡ false
    → u.password_hash ≡ env.crypt password s
    → ((login_user env db login password).0.status ≡ ok)
      × ((login_user env db login password).0.user_id ≡ pos u.id)
      × ((login_user env db login password).0.role ≡ some u.role)
unfolding login_user check_login verify_password
login_user-ok env db login password s u c up text found by_id free h =
    let right : str_eq (env.crypt password u.password_hash) u.password_hash ≡ true =
      rw (h, c.stable password s, str_eq_refl (env.crypt password s)) in
    rw (up, found, login_user)
      (rw (free, text, right)
        (let (a, e) =
            audit_of_row env
              (record db {
                users = update_where (λ v. v.id == u.id) (seen_as env db online) db.users;
              })
              (pos u.id) (lit "login") login (lit "login success") _
              (find_id-update_where (λ v. v.id == u.id) (seen_as env db online)
                  (seen_as-KeepsIdentity env db online) (pos u.id) db.users
                ∙ ap (Option.map (modify (λ v. v.id == u.id) (seen_as env db online))) by_id) in
          rw e (refl, refl, refl)))

-- An account that was registered can log in with the password of the registration as soon as a
-- transaction runs: in valid tables, with crypt() as documented, the login answers OK with the new
-- account's id and the role user.
pub login_user-register_user :
    (env : Env) (db : Db) (login password : Bytes)
    → IsCrypt env
    → IsValid db
    → (register_user env db login password).0.status ≡ ok
    → env.up (register_user env db login password).1.txns ≡ true
    → ((login_user env (register_user env db login password).1 login password).0.status ≡ ok)
      × ((login_user env (register_user env db login password).1 login password).0.user_id
          ≡ pos db.next_user_id)
      × ((login_user env (register_user env db login password).1 login password).0.role ≡ some user)
unfolding hash_password
login_user-register_user env db login password c v done up =
    let (u, found, id, h, role, st) = register_user-HasAccount env db login password done in
    let are_text =
      runs_texts env db login password (register_user-runs env db login password done) in
    let db' = (register_user env db login password).1 in
    let v' =
      Change-IsValid {k = λ x. false} db db' (register_user-Change env db login password) v in
    let (s, i, r) =
      login_user-ok env db' login password (env.gen_salt db.txns) u c
        (runs_with env db' login up are_text.0) are_text.1 found
        (find_login→find_id db'.users login u v'.distinct found) (ap is_banned st) h in
    (s, i ∙ ap pos id, r ∙ ap some role)
