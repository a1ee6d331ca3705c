-- ===== src/Server/Database/Privacy.antt =====
-- Whose messages the inbox and the history show.
use messenger_cpp_r.Base.{
  ℕ, zero, suc, ◌≤◌, ◌≡◌, refl, ap, subst, ◌∙◌, ◌⊎◌, inl, inr, Bool, true, none, some, Option-cases,
  Bool-cases, List, [], ◌∷◌, arith, Bytes, All, take, drop, length, length-take, ℤ, pos, negsuc,
  eqb_ℤ, eqb_ℤ_iff, max_zero,
}
use messenger_cpp_r.Server.Database.{
  User, Message, MessageRecord, Db, Env, find_login, find_id, runs, begin,
}
use messenger_cpp_r.Server.Database.Mailbox.{
  where_rows, insert, order_by, join, get_inbox, get_history, history_rows, get_user_id, between,
  clamp_limit, newest_first, oldest_first,
}
use messenger_cpp_r.Server.Database.Invariant.{IsValid}
use messenger_cpp_r.Server.Database.Bans.{find_login→find_id}
use messenger_cpp_r.Server.Database.Rows.{find_login-login}

module _ {A : Type 0} (P : A → Type 0) where
  pub All-take : (n : ℕ) (xs : List A) → All P xs → All P (take n xs)
  All-take zero xs h = tt
  All-take (suc n) [] h = tt
  All-take (suc n) (x ∷ xs) (hx, hxs) = (hx, All-take n xs hxs)

  All-drop : (n : ℕ) (xs : List A) → All P xs → All P (drop n xs)
  All-drop zero xs h = h
  All-drop (suc n) [] h = tt
  All-drop (suc n) (x ∷ xs) (hx, hxs) = All-drop n xs hxs

  All-insert : (le : A → A → Bool) (x : A) (xs : List A) → P x → All P xs → All P (insert le x xs)
  unfolding insert
  All-insert le x [] hx h = (hx, tt)
  All-insert le x (y ∷ ys) hx (hy, hys) = elim (Bool-cases (le x y)) [
    | inl e ↦ rw e (hx, (hy, hys))
    | inr e ↦ rw e (hy, All-insert le x ys hx hys)
  ]

  pub All-order_by : (le : A → A → Bool) (xs : List A) → All P xs → All P (order_by le xs)
  unfolding order_by
  All-order_by le [] h = tt
  All-order_by le (x ∷ xs) (hx, hxs) = All-insert le x (order_by le xs) hx (All-order_by le xs hxs)

where_rows-All : {A : Type 0} (p : A → Bool) (xs : List A) → All (λ x. p x ≡ true) (where_rows p xs)
unfolding where_rows
where_rows-All p [] = tt
where_rows-All p (x ∷ xs) = elim (Bool-cases (p x)) [
  | inl e ↦ rw e (e, where_rows-All p xs)
  | inr e ↦ rw e (where_rows-All p xs)
]

module _ (env : Env) (users : List User) where
  -- What a joined record says of its message.
  abbrev pub Shows : Message → MessageRecord → Type 0
  Shows m r =
      ((s : User) × (find_id (pos m.sender_id) users ≡ some s) × (r.sender ≡ s.login))
      × ((t : User) × (find_id (pos m.receiver_id) users ≡ some t) × (r.receiver ≡ t.login))
      × (r.text ≡ m.text)
      × (r.created_at ≡ env.to_char m.created_at)

  pub join-All :
      (P : Message → Type 0) (Q : MessageRecord → Type 0)
      → ((m : Message) (r : MessageRecord) → P m → Shows m r → Q r)
      → (ms : List Message) → All P ms
      → All Q (join env users ms)
  unfolding join
  join-All P Q step [] h = tt
  join-All P Q step (m ∷ ms) (hm, hms) = elim (Option-cases (find_id (pos m.sender_id) users)) [
    | inl e ↦ rw (e, join) (join-All P Q step ms hms)
    | inr (s, e) ↦ elim (Option-cases (find_id (pos m.receiver_id) users)) [
      | inl f ↦ rw (e, f, join) (join-All P Q step ms hms)
      | inr (t, f) ↦
          rw (e, f, join)
            (step m _ hm ((s, e, refl), (t, f, refl), refl, refl), join-All P Q step ms hms)
    ]
  ]

clamp_limit-le : (limit : ℤ) → clamp_limit limit ≤ 500
unfolding clamp_limit
clamp_limit-le (pos n) = ground arith
clamp_limit-le (negsuc n) = omega arith

take-le : {A : Type 0} (limit : ℤ) (xs : List A) → length (take (clamp_limit limit) xs) ≤ 500
take-le limit xs = ground (arith, length-take (clamp_limit limit) xs, clamp_limit-le limit)

-- The row of an id has one login.
login_of :
    (us : List User) (u t : User) (i : ℕ)
    → find_id (pos u.id) us ≡ some u
    → find_id (pos i) us ≡ some t
    → eqb_ℤ (pos i) (pos u.id) ≡ true
    → t.login ≡ u.login
login_of us u t i e f same =
    let one : pos i ≡ pos u.id = (eqb_ℤ_iff (pos i) (pos u.id)).0 same in
    let both : t ≡ u = cc (e, f, one) in ap (λ v. User.login v) both

-- Every record of an account's inbox names that account as its receiver, and there are at most 500.
pub get_inbox-receiver :
    (env : Env) (db : Db) (u : User) (limit : ℤ)
    → find_id (pos u.id) db.users ≡ some u
    → All (λ r. MessageRecord.receiver r ≡ u.login) (get_inbox env db (pos u.id) limit).0
      × (length (get_inbox env db (pos u.id) limit).0 ≤ 500)
unfolding get_inbox
get_inbox-receiver env db u limit e = elim (Bool-cases (runs env db [])) [
  | inr down ↦ rw down (tt, omega arith)
  | inl up ↦ rw up (
    All-take _ (clamp_limit limit) _ (
        join-All env db.users (λ m. eqb_ℤ (pos m.receiver_id) (pos u.id) ≡ true) _
          (λ m r mine (s, (t, f, named), text, time).
            named ∙ login_of db.users u t m.receiver_id e f mine)
          _
          (All-order_by _ newest_first _
            (where_rows-All (λ m. eqb_ℤ (pos m.receiver_id) (pos u.id)) db.messages))),
    take-le limit _,
  )
]

-- A record between the two.
abbrev pub Exchanged : Bytes → Bytes → MessageRecord → Type 0
Exchanged a b r = ((r.sender ≡ a) × (r.receiver ≡ b)) ⊎ ((r.sender ≡ b) × (r.receiver ≡ a))

between-cases :
    (env : Env) (a b : ℤ) (m : Message)
    → between env a b m ≡ true
    → ((eqb_ℤ (pos m.sender_id) a ≡ true) × (eqb_ℤ (pos m.receiver_id) b ≡ true))
      ⊎ ((eqb_ℤ (pos m.sender_id) b ≡ true) × (eqb_ℤ (pos m.receiver_id) a ≡ true))
between-cases env a b m h = ground arith

module _ (env : Env) (db : Db) (u v : User) (e : find_id (pos u.id) db.users ≡ some u)
    (g : find_id (pos v.id) db.users ≡ some v) where
  between-Exchanged :
      (m : Message) (r : MessageRecord)
      → between env (pos u.id) (pos v.id) m ≡ true
      → Shows env db.users m r
      → Exchanged u.login v.login r
  between-Exchanged m r h ((s, f, sn), (t, k, tn), text, time) =
      elim (between-cases env (pos u.id) (pos v.id) m h) [
        | inl (a, b) ↦ inl (
          sn ∙ login_of db.users u s m.sender_id e f a,
          tn ∙ login_of db.users v t m.receiver_id g k b,
        )
        | inr (a, b) ↦ inr (
          sn ∙ login_of db.users v s m.sender_id g f a,
          tn ∙ login_of db.users u t m.receiver_id e k b,
        )
      ]

  history_rows-Exchanged :
      (limit offset : ℤ)
      → All (Exchanged u.login v.login) (history_rows env db (pos u.id) (pos v.id) limit offset).0
        × (length (history_rows env db (pos u.id) (pos v.id) limit offset).0 ≤ 500)
  unfolding history_rows
  history_rows-Exchanged limit offset = elim (Bool-cases (runs env db [])) [
    | inr down ↦ rw down (tt, omega arith)
    | inl up ↦ rw up (
      All-take _ (clamp_limit limit) _ (
          All-drop _ (max_zero offset) _ (
            join-All env db.users (λ m. between env (pos u.id) (pos v.id) m ≡ true) _
              between-Exchanged _
              (All-order_by _ oldest_first _
                (where_rows-All (between env (pos u.id) (pos v.id)) db.messages)))),
      take-le limit _,
    )
  ]

get_user_id-cases :
    (env : Env) (db : Db) (l : Bytes)
    → (get_user_id env db l ≡ (none, begin db))
      ⊎ ((v : User) × (find_login l db.users ≡ some v)
          × (get_user_id env db l ≡ (some v.id, begin db)))
unfolding get_user_id
get_user_id-cases env db l = elim (Bool-cases (runs env db (l ∷ []))) [
  | inr down ↦ inl (rw down)
  | inl up ↦ elim (Option-cases (find_login l db.users)) [
    | inl f ↦ inl (rw (up, f, get_user_id))
    | inr (v, f) ↦ inr (v, f, rw (up, f, get_user_id))
  ]
]

get_history-none :
    (env : Env) (db : Db) (i : ℤ) (l : Bytes) (limit offset : ℤ)
    → get_user_id env db l ≡ (none, begin db)
    → get_history env db i l limit offset ≡ ([], begin db)
unfolding get_history
get_history-none env db i l limit offset f = rw (get_history, f) (rw f)

get_history-some :
    (env : Env) (db : Db) (i : ℤ) (l : Bytes) (limit offset : ℤ) (id : ℕ)
    → get_user_id env db l ≡ (some id, begin db)
    → get_history env db i l limit offset ≡ history_rows env (begin db) i (pos id) limit offset
unfolding get_history
get_history-some env db i l limit offset id f = rw (get_history, f) (rw f)

-- In valid tables every record of a history is a message between the account that asks and the login it
-- asks about, one way or the other, and there are at most 500.
pub get_history-Exchanged :
    (env : Env) (db : Db) (u : User) (l : Bytes) (limit offset : ℤ)
    → IsValid db
    → find_id (pos u.id) db.users ≡ some u
    → All (Exchanged u.login l) (get_history env db (pos u.id) l limit offset).0
      × (length (get_history env db (pos u.id) l limit offset).0 ≤ 500)
get_history-Exchanged env db u l limit offset valid e = elim (get_user_id-cases env db l) [
  | inl f ↦ rw (get_history-none env db (pos u.id) l limit offset f) (tt, omega arith)
  | inr (v, f, found) ↦ rw (get_history-some env db (pos u.id) l limit offset v.id found) (
      subst
        (λ x.
          All (Exchanged u.login x)
            (history_rows env (begin db) (pos u.id) (pos v.id) limit offset).0
          × (length (history_rows env (begin db) (pos u.id) (pos v.id) limit offset).0 ≤ 500))
        (find_login-login l db.users v f)
        (history_rows-Exchanged env (begin db) u v e
          (find_login→find_id db.users l v valid.distinct f) limit offset))
]

-- In valid tables every record of an account's inbox names that account as its receiver, every record
-- of its history with a login is a message between the two, one way or the other, and either listing
-- has at most 500.
pub listings_are_private :
    (env : Env) (db : Db) (u : User) (l : Bytes) (limit offset : ℤ)
    → IsValid db
    → find_id (pos u.id) db.users ≡ some u
    → (All (λ r. MessageRecord.receiver r ≡ u.login) (get_inbox env db (pos u.id) limit).0
        × (length (get_inbox env db (pos u.id) limit).0 ≤ 500))
      × (All (Exchanged u.login l) (get_history env db (pos u.id) l limit offset).0
          × (length (get_history env db (pos u.id) l limit offset).0 ≤ 500))
listings_are_private env db u l limit offset valid e =
    (get_inbox-receiver env db u limit e, get_history-Exchanged env db u l limit offset valid e)
