-- ===== src/Server/Database/Invariant/Updates.antt =====
-- The invariant after an UPDATE and after the INSERT of an account.
use mathlib.Core.Option
use messenger_cpp_r.Base.{
  ◌+◌, ◌<◌, ◌≡◌, ◌≢◌, refl, Bool, true, Option, none, some, List, [], ◌∷◌, ◌++◌, arith, str_eq_iff,
  All, pos,
}
use messenger_cpp_r.Server.Auth.{is_valid_login}
use messenger_cpp_r.Server.Database.{User, Db, find_login, find_id, update_where}
use messenger_cpp_r.Server.Database.Rows.{
  KeepsIdentity, modify, modify_login, modify_id, find_login-update_where, find_id-update_where,
  or_else, find_login-append, find_id-append, find_id-fresh,
}
use messenger_cpp_r.Server.Database.Invariant.{Distinct, Stored, IsValid}

pub All-mono {ℓ κ} :
    {A : Type ℓ} (P Q : A → Type κ) (xs : List A) → ((x : A) → P x → Q x) → All P xs → All Q xs
All-mono P Q [] f h = h
All-mono P Q (x ∷ xs) f h = (f x h.0, All-mono P Q xs f h.1)

pub All-append {ℓ κ} :
    {A : Type ℓ} (P : A → Type κ) (xs ys : List A) → All P xs → All P ys → All P (xs ++ ys)
All-append P [] ys h k = k
All-append P (x ∷ xs) ys h k = (h.0, All-append P xs ys h.1 k)

map_none {ℓ} : {A : Type ℓ} (f : A → A) (o : Option A) → o ≡ none → Option.map f o ≡ none
map_none f o e = rw e

map_ne_none {ℓ} : {A : Type ℓ} (f : A → A) (o : Option A) → o ≢ none → Option.map f o ≢ none
map_ne_none f none h = absurd (h refl)
map_ne_none f (some a) h = λ e. cc

or_else_ne_none {ℓ} : {A : Type ℓ} (o p : Option A) → o ≢ none → or_else o p ≢ none
or_else_ne_none none p h = absurd (h refl)
or_else_ne_none (some a) p h = λ e. cc

module _ (p : User → Bool) (f : User → User) (keeps : KeepsIdentity f) where
  All-update_where :
      (P : User → Type 0) (us : List User)
      → ((u : User) → P u → P (modify p f u))
      → All P us
      → All P (update_where p f us)
  unfolding update_where
  All-update_where P [] h k = k
  All-update_where P (u ∷ us) h k = (h u k.0, All-update_where P us h k.1)

  Distinct-update_where : (us : List User) → Distinct us → Distinct (update_where p f us)
  unfolding update_where
  Distinct-update_where [] d = tt
  Distinct-update_where (u ∷ us) (l, i, d) = (
    rw (modify_login p f keeps u, find_login-update_where p f keeps u.login us) (map_none _ _ l),
    rw (modify_id p f keeps u, find_id-update_where p f keeps (pos u.id) us) (map_none _ _ i),
    Distinct-update_where us d,
  )

  pub updated-IsValid :
      (a b : Db)
      → b.users ≡ update_where p f a.users
      → (b.messages ≡ a.messages) × (b.next_message_id ≡ a.next_message_id)
      → b.next_user_id ≡ a.next_user_id
      → IsValid a
      → IsValid b
  updated-IsValid a b e (m, n) i v = record {
    logins = rw e (All-update_where _ a.users (λ u h. rw (modify_login p f keeps u) h) v.logins);
    distinct = rw e (Distinct-update_where a.users v.distinct);
    fresh = rw (e, i) (All-update_where _ a.users (λ u h. rw (modify_id p f keeps u) h) v.fresh);
    stored =
        rw (e, m, n)
          (All-mono _ _ a.messages
            (λ x (h : Stored a.users a.next_message_id x). (
              h.0,
              rw (find_id-update_where p f keeps (pos x.sender_id) a.users) (map_ne_none _ _ h.1),
              rw (find_id-update_where p f keeps (pos x.receiver_id) a.users) (map_ne_none _ _ h.2),
              h.3,
              h.4,
            ))
            v.stored);
  }

-- A new row whose login and id are free keeps the table free of doubles.
Distinct-append :
    (us : List User) (u : User)
    → Distinct us
    → find_login u.login us ≡ none
    → find_id (pos u.id) us ≡ none
    → Distinct (us ++ u ∷ [])
unfolding find_login find_id
Distinct-append [] u d l i = (refl, refl, tt)
Distinct-append (v ∷ us) u (dl, di, d) l i = (
  rw (find_login-append v.login us (u ∷ []), dl)
      (ground (arith, str_eq_iff u.login v.login, str_eq_iff v.login u.login)),
  rw (find_id-append (pos v.id) us (u ∷ []), di) (ground arith),
  Distinct-append us u d (ground arith) (ground arith),
)

pub registered-IsValid :
    (a b : Db) (u : User)
    → is_valid_login u.login ≡ true
    → find_login u.login a.users ≡ none
    → u.id ≡ a.next_user_id
    → b.users ≡ a.users ++ u ∷ []
    → (b.messages ≡ a.messages) × (b.next_message_id ≡ a.next_message_id)
    → b.next_user_id ≡ a.next_user_id + 1
    → IsValid a
    → IsValid b
registered-IsValid a b u good free new e (m, n) i v =
    let unseen : find_id (pos u.id) a.users ≡ none =
      rw new (find_id-fresh a.next_user_id a.users v.fresh) in
    record {
      logins = rw e (All-append _ a.users (u ∷ []) v.logins (good, tt));
      distinct = rw e (Distinct-append a.users u v.distinct free unseen);
      fresh =
          rw (e, i)
            (All-append _ a.users (u ∷ [])
              (All-mono _ _ a.users (λ w (h : w.id < a.next_user_id). omega arith) v.fresh)
              (omega arith, tt));
      stored =
          rw (e, m, n)
            (All-mono _ _ a.messages
              (λ x (h : Stored a.users a.next_message_id x). (
                h.0,
                rw (find_id-append (pos x.sender_id) a.users (u ∷ [])) (or_else_ne_none _ _ h.1),
                rw (find_id-append (pos x.receiver_id) a.users (u ∷ [])) (or_else_ne_none _ _ h.2),
                h.3,
                h.4,
              ))
              v.stored);
    }
