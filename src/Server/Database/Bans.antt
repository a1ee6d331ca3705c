-- ===== src/Server/Database/Bans.antt =====
-- Database.cpp: banUser against loginUser and sendMessage.
use mathlib.Core.Option
use mathlib.Core.Bool.{false≢true}
use messenger_cpp_r.Base.{
  ◌≡◌, ◌≢◌, sym, ap, ◌∙◌, inl, inr, Bool, true, false, ◌&&◌, some, Option-cases, List, [], ◌∷◌,
  arith, Bytes, str_eq, str_eq→eq, eq→str_eq, lit, All, ◌==◌, ==_iff, is_empty, length, ltb, ◌||◌,
  Bool-cases, ℤ, pos,
}
use messenger_cpp_r.Server.Database.{
  User, Db, Env, ok, offline, banned, is_banned, find_login, find_id, update_where, runs,
}
use messenger_cpp_r.Server.Database.Accounts.{login_user, check_login, ban_user}
use messenger_cpp_r.Server.Database.Mailbox.{send_message}
use messenger_cpp_r.Server.Database.Rows.{
  KeepsIdentity, modify, find_login-update_where, find_login-append, find_login-login,
}
use messenger_cpp_r.Server.Database.Change.{
  Change, audit_cases, quiet, touched, logged_in, unbanned, registered, sent, set_status,
  set_status-KeepsIdentity,
}
use messenger_cpp_r.Server.Database.Change.Moderation.{ban_user-Change}
use messenger_cpp_r.Server.Database.Requests.{Request, lifts, serve, serve_all, serve-Change}
use messenger_cpp_r.Server.Database.Invariant.{Distinct, IsValid}
use messenger_cpp_r.Server.Database.Invariant.Preserved.{Change-IsValid}

-- The account with this login exists and is banned.
abbrev pub HasBan : Bytes → List User → Type 0
HasBan l us = (u : User) × (find_login l us ≡ some u) × (is_banned u.status ≡ true)

-- In a table without doubles the row that is found by its login is the row of its id.
pub find_login→find_id :
    (us : List User) (l : Bytes) (u : User)
    → Distinct us
    → find_login l us ≡ some u
    → find_id (pos u.id) us ≡ some u
unfolding find_login find_id
find_login→find_id [] l u d e = cc
find_login→find_id (w ∷ us) l u (dl, di, d) e = elim (Bool-cases (str_eq w.login l)) [
  | inl h ↦ ground (arith, (rw (h, find_login) at e))
  | inr h ↦ ground (arith, find_login→find_id us l u d (rw (h, find_login) at e))
]

HasBan-touched :
    (l : Bytes) (us : List User) (p : User → Bool) (f : User → User)
    → KeepsIdentity f
    → ((u : User)
        → find_login l us ≡ some u
        → is_banned u.status ≡ true
        → is_banned (modify p f u).status ≡ true)
    → HasBan l us
    → HasBan l (update_where p f us)
HasBan-touched l us p f keeps bans (u, e, b) = (
  modify p f u,
  find_login-update_where p f keeps l us ∙ ap (Option.map (modify p f)) e,
  bans u e b,
)

-- Logging in changes only a row that is not banned.
not_logged_in :
    (l : Bytes) (us : List User) (u v : User) (f : User → User)
    → Distinct us
    → find_login u.login us ≡ some u
    → is_banned u.status ≡ false
    → find_login l us ≡ some v
    → is_banned v.status ≡ true
    → is_banned (modify (λ w. w.id == u.id) f v).status ≡ true
not_logged_in l us u v f d e free g b = elim (Bool-cases (v.id == u.id)) [
  | inr other ↦ rw other b
  | inl same ↦
      let one : v ≡ u = cc (
        find_login→find_id us l v d g,
        find_login→find_id us u.login u d e,
        (==_iff v.id u.id).0 same,
      ) in
      absurd (false≢true (sym free ∙ ap (λ w. is_banned w.status) (sym one) ∙ b))
]

not_lifted :
    (k : Bytes → Bool) (login l : Bytes) (u : User)
    → k login ≡ true
    → k l ≡ false
    → u.login ≡ l
    → is_banned u.status ≡ true
    → is_banned
        (modify (λ v. str_eq v.login login && is_banned v.status) (set_status offline) u).status
      ≡ true
not_lifted k login l u may held e ban = elim (Bool-cases (str_eq u.login login)) [
  | inl same ↦ absurd (false≢true (sym held ∙ ap k (sym e ∙ str_eq→eq u.login login same) ∙ may))
  | inr other ↦ rw other ban
]

Change-HasBan :
    (k : Bytes → Bool) (a b : Db) (l : Bytes)
    → Distinct a.users
    → k l ≡ false
    → Change k a b
    → HasBan l a.users
    → HasBan l b.users
Change-HasBan k a b l d held (quiet e m au le) h = rw e h
Change-HasBan k a b l d held (touched p f keeps bans e m i) h =
    rw e (HasBan-touched l a.users p f keeps (λ u _. bans u) h)
Change-HasBan k a b l d held (logged_in u f keeps found free e m i) h =
    rw e
      (HasBan-touched l a.users _ f keeps (λ v g. not_logged_in l a.users u v f d found free g) h)
Change-HasBan k a b l d held (unbanned login may e m i) h = rw e (
    HasBan-touched l a.users _ (set_status offline) (set_status-KeepsIdentity offline)
      (λ u g ban. not_lifted k login l u may held (find_login-login l a.users u g) ban) h)
Change-HasBan k a b l d held (registered u good free new role st e m i) (v, g, ban) =
    (v, rw (e, find_login-append l a.users (u ∷ []), g), ban)
Change-HasBan k a b l d held (sent m s r found j to_r rid free new size e ms n i) h = rw e h

-- Once banned, an account stays banned through any requests, logins, logouts, kicks and further bans
-- among them, as long as none lifts the ban of this login.
pub serve_all-HasBan :
    (env : Env) (db : Db) (rs : List Request) (l : Bytes)
    → IsValid db
    → All (λ r. lifts r l ≡ false) rs
    → HasBan l db.users
    → HasBan l (serve_all env db rs).users
unfolding serve_all
serve_all-HasBan env db [] l v held h = h
serve_all-HasBan env db (r ∷ rs) l v (held, rest) h =
    serve_all-HasBan env (serve env db r) rs l (Change-IsValid db _ (serve-Change env db r) v) rest
      (Change-HasBan (lifts r) db _ l v.distinct held (serve-Change env db r) h)

-- Whatever the password and whatever fails, the login of a banned account is refused.
pub login_user-HasBan :
    (env : Env) (db : Db) (l password : Bytes)
    → HasBan l db.users
    → (login_user env db l password).0.status ≢ ok
unfolding login_user check_login
login_user-HasBan env db l password (u, e, b) = elim (Bool-cases (runs env db (l ∷ []))) [
  | inr down ↦ rw down (λ h. cc)
  | inl up ↦ rw (up, e, login_user) (rw b (λ h. cc))
]

-- A message to a banned account is refused.
pub send_message-HasBan :
    (env : Env) (db : Db) (sender : ℤ) (l text : Bytes)
    → HasBan l db.users
    → (send_message env db sender l text).0.status ≢ ok
unfolding send_message
send_message-HasBan env db sender l text (u, e, b) =
    elim (Bool-cases (is_empty text || ltb 4096 (length text))) [
      | inl bad ↦ rw bad (λ h. cc)
      | inr fine ↦ elim (Bool-cases (runs env db (l ∷ []))) [
        | inr down ↦ rw (fine, down) (λ h. cc)
        | inl up ↦ rw (fine, up) (rw (e, send_message) (rw b (λ h. cc)))
      ]
    ]

abbrev banning : Db → Bytes → Db
banning db l = record db {
  users = update_where (λ v. str_eq v.login l && true) (set_status banned) db.users;
}

HasBan-now :
    (l : Bytes) (us : List User) (u : User)
    → find_login l us ≡ some u
    → HasBan l (update_where (λ v. str_eq v.login l && true) (set_status banned) us)
HasBan-now l us u e =
    let hit : str_eq u.login l ≡ true = eq→str_eq u.login l (find_login-login l us u e) in
    (
      modify (λ v. str_eq v.login l && true) (set_status banned) u,
      find_login-update_where _ (set_status banned) (set_status-KeepsIdentity banned) l us
          ∙ ap (Option.map (modify _ (set_status banned))) e,
      rw hit,
    )

pub ban_user-HasBan :
    (env : Env) (db : Db) (actor : ℤ) (l : Bytes)
    → (ban_user env db actor l).0.status ≡ ok
    → HasBan l (ban_user env db actor l).1.users
unfolding ban_user
ban_user-HasBan env db actor l = elim (Bool-cases (runs env db (l ∷ []))) [
  | inr down ↦ rw down (λ done. cc)
  | inl up ↦ elim (Option-cases (find_login l db.users)) [
    | inl e ↦ rw (up, e, ban_user) (λ done. cc)
    | inr (u, e) ↦
        rw (up, e, ban_user)
          (elim (audit_cases env (banning db l) actor (lit "ban") l (lit "user banned")) [
            | inl x ↦ rw x (λ done. cc)
            | inr (a, x) ↦ rw x (λ done. HasBan-now l db.users u e)
          ])
  ]
]

-- In valid tables, after a ban that answered OK, no login of that account succeeds, with any password, whatever is
-- asked of the database in between, until a request lifts that ban.
pub banned_cannot_login :
    (env : Env) (db : Db) (actor : ℤ) (l password : Bytes) (rs : List Request)
    → IsValid db
    → (ban_user env db actor l).0.status ≡ ok
    → All (λ r. lifts r l ≡ false) rs
    → (login_user env (serve_all env (ban_user env db actor l).1 rs) l password).0.status ≢ ok
banned_cannot_login env db actor l password rs v done held =
    login_user-HasBan env (serve_all env (ban_user env db actor l).1 rs) l password (
      serve_all-HasBan env (ban_user env db actor l).1 rs l
        (Change-IsValid {k = λ x. false} db _ (ban_user-Change env db actor l) v) held
        (ban_user-HasBan env db actor l done))
