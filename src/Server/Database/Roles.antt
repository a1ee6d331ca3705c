-- ===== src/Server/Database/Roles.antt =====
-- The roles of chat.users under the operations of Database.cpp.
use mathlib.Core.Option
use messenger_cpp_r.Base.{
  ◌≡◌, refl, ap, ◌∙◌, Bool, false, Option, none, some, List, [], ◌∷◌, arith, Bytes, ℤ,
}
use messenger_cpp_r.Server.Database.{User, user, Db, Env, offline, is_moderator, find_id}
use messenger_cpp_r.Server.Database.Rows.{
  KeepsIdentity, modify, modify_role, find_id-update_where, or_else, find_id-append,
}
use messenger_cpp_r.Server.Database.Change.{
  Change, quiet, touched, logged_in, unbanned, registered, sent, set_status,
  set_status-KeepsIdentity,
}
use messenger_cpp_r.Server.Database.Requests.{Request, lifts, serve, serve_all, serve-Change}

-- Whether the account with this id is a moderator or an admin.
abbrev pub rights : Option User → Bool
rights none = false
rights (some u) = is_moderator u.role

rights-map :
    (p : User → Bool) (f : User → User)
    → KeepsIdentity f
    → (o : Option User) → rights (Option.map (modify p f) o) ≡ rights o
rights-map p f keeps none = refl
rights-map p f keeps (some u) = ap is_moderator (modify_role p f keeps u)

rights-or_else :
    (o : Option User) (p : Option User) → rights p ≡ false → rights (or_else o p) ≡ rights o
rights-or_else none p h = h
rights-or_else (some u) p h = refl

plain_user : (u : User) (i : ℤ) → u.role ≡ user → rights (find_id i (u ∷ [])) ≡ false
unfolding find_id
plain_user u i e = ground arith

Change-rights :
    (k : Bytes → Bool) (a b : Db) (i : ℤ)
    → Change k a b
    → rights (find_id i b.users) ≡ rights (find_id i a.users)
Change-rights k a b i (quiet e m au le) = rw e
Change-rights k a b i (touched p f keeps bans e m n) =
    rw (e, find_id-update_where p f keeps i a.users) (rights-map p f keeps _)
Change-rights k a b i (logged_in u f keeps found free e m n) =
    rw (e, find_id-update_where _ f keeps i a.users) (rights-map _ f keeps _)
Change-rights k a b i (unbanned login may e m n) =
    rw (e, find_id-update_where _ (set_status offline) (set_status-KeepsIdentity offline) i a.users)
      (rights-map _ _ (set_status-KeepsIdentity offline) _)
Change-rights k a b i (registered u good free new role st e m n) =
    rw (e, find_id-append i a.users (u ∷ [])) (rights-or_else _ _ (plain_user u i role))
Change-rights k a b i (sent m s r found j to_r rid free new size e ms n x) = rw e

-- No sequence of requests, registrations included, changes whether an id belongs to a moderator or an
-- admin: it neither gives these rights nor takes them.
pub serve_all-rights :
    (env : Env) (db : Db) (rs : List Request) (i : ℤ)
    → rights (find_id i (serve_all env db rs).users) ≡ rights (find_id i db.users)
unfolding serve_all
serve_all-rights env db [] i = refl
serve_all-rights env db (r ∷ rs) i =
    serve_all-rights env (serve env db r) rs i
    ∙ Change-rights (lifts r) db _ i (serve-Change env db r)
