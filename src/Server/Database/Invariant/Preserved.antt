-- ===== src/Server/Database/Invariant/Preserved.antt =====
-- The invariant of the tables of Database.cpp under all requests.
use messenger_cpp_r.Base.{
  ◌+◌, ◌≤◌, ◌<◌, ◌≡◌, ◌≢◌, inl, inr, Bool, Option, none, some, List, [], ◌∷◌, ◌++◌, arith, Bytes,
  length, str_eq, Bool-cases, pos,
}
use messenger_cpp_r.Server.Database.{User, Message, Db, Env, offline, find_login, find_id}
use messenger_cpp_r.Server.Database.Change.{
  Change, quiet, touched, logged_in, unbanned, registered, sent, set_status,
  set_status-KeepsIdentity,
}
use messenger_cpp_r.Server.Database.Requests.{Request, serve, serve_all, serve-Change}
use messenger_cpp_r.Server.Database.Invariant.{Stored, IsValid}
use messenger_cpp_r.Server.Database.Invariant.Updates.{
  All-mono, All-append, updated-IsValid, registered-IsValid,
}

-- A row found by its login has an id that is found.
find_login-find_id :
    (l : Bytes) (us : List User) (u : User)
    → find_login l us ≡ some u
    → find_id (pos u.id) us ≢ none
unfolding find_login find_id
find_login-find_id l [] u e = cc
find_login-find_id l (v ∷ us) u e = elim (Bool-cases (str_eq v.login l)) [
  | inl h ↦ ground (arith, (rw (h, find_login) at e))
  | inr h ↦ ground (arith, find_login-find_id l us u (rw (h, find_login) at e))
]

quiet-IsValid :
    (a b : Db)
    → b.users ≡ a.users
    → (b.messages ≡ a.messages) × (b.next_message_id ≡ a.next_message_id)
    → a.next_user_id ≤ b.next_user_id
    → IsValid a
    → IsValid b
quiet-IsValid a b e (m, n) le v = record {
  logins = rw e v.logins;
  distinct = rw e v.distinct;
  fresh = rw e (All-mono _ _ a.users (λ w (h : w.id < a.next_user_id). omega arith) v.fresh);
  stored = rw (e, m, n) v.stored;
}

some_ne_none {ℓ} : {A : Type ℓ} (o : Option A) (a : A) → o ≡ some a → o ≢ none
some_ne_none o a e = λ h. cc (e, h)

sent-IsValid :
    (a b : Db) (m : Message)
    → find_id (pos m.sender_id) a.users ≢ none
    → find_id (pos m.receiver_id) a.users ≢ none
    → m.id ≡ a.next_message_id
    → (0 < length m.text) × (length m.text ≤ 4096)
    → b.users ≡ a.users
    → b.messages ≡ a.messages ++ m ∷ []
    → b.next_message_id ≡ a.next_message_id + 1
    → b.next_user_id ≡ a.next_user_id
    → IsValid a
    → IsValid b
sent-IsValid a b m s r new (lo, hi) e ms n i v = record {
  logins = rw e v.logins;
  distinct = rw e v.distinct;
  fresh = rw (e, i) v.fresh;
  stored =
      rw (e, ms, n)
        (All-append _ a.messages (m ∷ [])
          (All-mono _ _ a.messages
            (λ x (h : Stored a.users a.next_message_id x). (omega arith, h.1, h.2, h.3, h.4))
            v.stored)
          ((omega arith, s, r, lo, hi), tt));
}

pub Change-IsValid : {k : Bytes → Bool} (a b : Db) → Change k a b → IsValid a → IsValid b
Change-IsValid a b (quiet e m au le) v = quiet-IsValid a b e m le v
Change-IsValid a b (touched p f keeps bans e m i) v = updated-IsValid p f keeps a b e m i v
Change-IsValid a b (logged_in u f keeps found free e m i) v = updated-IsValid _ f keeps a b e m i v
Change-IsValid a b (unbanned login may e m i) v =
    updated-IsValid _ (set_status offline) (set_status-KeepsIdentity offline) a b e m i v
Change-IsValid a b (registered u good free new role st e m i) v =
    registered-IsValid a b u good free new e m i v
Change-IsValid a b (sent m s r found l to_r rid free new size e ms n i) v =
    sent-IsValid a b m (some_ne_none _ s found) (rw rid (find_login-find_id l a.users r to_r)) new
      size e ms n i v

-- If this held before, then after any requests, in any order and with any failures of the connection: every
-- login passed the check of registration, no two accounts share a login or an id, ids lie below the
-- sequence, and every message has an id below its sequence, 1 to 4096 bytes, and a sender and a receiver that are
-- accounts.
pub serve_all-IsValid :
    (env : Env) (db : Db) (rs : List Request) → IsValid db → IsValid (serve_all env db rs)
unfolding serve_all
serve_all-IsValid env db [] v = v
serve_all-IsValid env db (r ∷ rs) v =
    serve_all-IsValid env (serve env db r) rs (Change-IsValid db _ (serve-Change env db r) v)
