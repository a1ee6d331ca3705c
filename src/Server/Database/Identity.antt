-- ===== src/Server/Database/Identity.antt =====
-- Database.cpp: the id and the role of the account behind a login.
use mathlib.Core.Option
use messenger_cpp_r.Base.{
  ◌≡◌, refl, ap, ◌∙◌, inl, inr, Bool, Option, some, Option-cases, List, [], ◌∷◌, Bytes, lit, ◌==◌,
  Bool-cases, ℤ, pos,
}
use messenger_cpp_r.Server.Database.{
  User, Role, Db, Env, ok, online, offline, is_banned, runs, find_login, update_where, seen_as,
}
use messenger_cpp_r.Server.Database.Accounts.{login_user, check_login, verify_password}
use messenger_cpp_r.Server.Database.Rows.{
  KeepsIdentity, modify, modify_id, modify_role, find_login-update_where, find_login-append,
}
use messenger_cpp_r.Server.Database.Change.{
  Change, quiet, touched, logged_in, unbanned, registered, sent, set_status,
  set_status-KeepsIdentity, seen_as-KeepsIdentity, audit_cases,
}
use messenger_cpp_r.Server.Database.Requests.{Request, lifts, serve, serve-Change}

-- The account with this login has this id and this role.
abbrev pub IsAccount : List User → Bytes → ℤ → Option Role → Type 0
IsAccount us l id role =
    (u : User) × (find_login l us ≡ some u) × (pos u.id ≡ id) × (some u.role ≡ role)

update_where-IsAccount :
    (p : User → Bool) (f : User → User) (us : List User) (l : Bytes) (id : ℤ) (role : Option Role)
    → KeepsIdentity f
    → IsAccount us l id role
    → IsAccount (update_where p f us) l id role
update_where-IsAccount p f us l id role keeps (u, e, i, r) = (
  modify p f u,
  find_login-update_where p f keeps l us ∙ ap (Option.map (modify p f)) e,
  ap pos (modify_id p f keeps u) ∙ i,
  ap some (modify_role p f keeps u) ∙ r,
)

Change-IsAccount :
    (k : Bytes → Bool) (a b : Db) (l : Bytes) (id : ℤ) (role : Option Role)
    → Change k a b
    → IsAccount a.users l id role
    → IsAccount b.users l id role
Change-IsAccount k a b l id role (quiet e m au le) h = rw e h
Change-IsAccount k a b l id role (touched p f keeps bans e m n) h =
    rw e (update_where-IsAccount p f a.users l id role keeps h)
Change-IsAccount k a b l id role (logged_in u f keeps found free e m n) h =
    rw e (update_where-IsAccount _ f a.users l id role keeps h)
Change-IsAccount k a b l id role (unbanned login may e m n) h = rw e (
    update_where-IsAccount _ (set_status offline) a.users l id role
      (set_status-KeepsIdentity offline) h)
Change-IsAccount k a b l id role (registered u good free new r st e m n) (v, g, i, q) =
    (v, rw (e, find_login-append l a.users (u ∷ []), g) refl, i, q)
Change-IsAccount k a b l id role (sent m s r found j to_r rid free new size e ms n x) h = rw e h

module _ (env : Env) where
  pub serve-IsAccount :
      (db : Db) (r : Request) (l : Bytes) (id : ℤ) (role : Option Role)
      → IsAccount db.users l id role
      → IsAccount (serve env db r).users l id role
  serve-IsAccount db r l id role h =
      Change-IsAccount (lifts r) db _ l id role (serve-Change env db r) h

  -- A login that succeeds names the account it is for.
  pub login_user-IsAccount :
      (db : Db) (l password : Bytes)
      → (login_user env db l password).0.status ≡ ok
      → IsAccount
          (login_user env db l password).1.users
          (login_user env db l password).0.login
          (login_user env db l password).0.user_id
          (login_user env db l password).0.role
  unfolding login_user check_login
  login_user-IsAccount db l password = elim (Bool-cases (runs env db (l ∷ []))) [
    | inr down ↦ rw down (λ done. cc)
    | inl up ↦ elim (Option-cases (find_login l db.users)) [
      | inl e ↦ rw (up, e, login_user) (λ done. cc)
      | inr (u, e) ↦
          rw (up, e, login_user)
            (elim (Bool-cases (is_banned u.status)) [
              | inl bad ↦ rw bad (λ done. cc)
              | inr free ↦ elim (Bool-cases (env.is_text password)) [
                | inr bad ↦ rw (free, bad) (λ done. cc)
                | inl text ↦ elim (Bool-cases (verify_password env password u.password_hash)) [
                  | inr bad ↦ rw (free, text, bad) (λ done. cc)
                  | inl right ↦
                      rw (free, text, right)
                        (elim (audit_cases env
                          (record db {
                            users =
                                update_where (λ v. v.id == u.id) (seen_as env db online) db.users;
                          })
                          (pos u.id) (lit "login") l (lit "login success")) [
                            | inl x ↦ rw x (λ done. cc)
                            | inr (a, x) ↦ rw x (λ done.
                                update_where-IsAccount (λ v. v.id == u.id) (seen_as env db online)
                                  db.users l _ _ (seen_as-KeepsIdentity env db online)
                                  (u, e, refl, refl))
                          ])
                ]
              ]
            ])
    ]
  ]
