-- ===== src/Server/Database/Delivery.antt =====
-- A message that sendMessage of Database.cpp stores, seen by getInbox.
use messenger_cpp_r.Base.{
  ℕ, zero, suc, min, ◌<◌, ◌^◌, ◌≡◌, refl, ap, inl, inr, Bool, true, false, not, ◌||◌, some,
  Bool-cases, List, [], ◌∷◌, ◌++◌, arith, Bytes, All, take, length, ltb, ℤ, pos, negsuc, eqb_ℤ,
  eqb_ℤ_iff, is_empty,
}
use messenger_cpp_r.Server.Database.{
  is_banned, User, Message, MessageRecord, Db, Env, ok, DbResult, find_login, find_id, runs, begin,
}
use messenger_cpp_r.Server.Database.Mailbox.{
  where_rows, insert, order_by, join, get_inbox, send_message, store_message, insert_message,
  clamp_limit, newest_first, is_blank,
}
use messenger_cpp_r.Server.Database.Invariant.{IsValid}
use messenger_cpp_r.Server.Database.Bans.{find_login→find_id}
use messenger_cpp_r.Server.Database.Rows.{find_login-login}

where_rows-last :
    {A : Type 0} (p : A → Bool) (xs : List A) (x : A)
    → p x ≡ true
    → where_rows p (xs ++ x ∷ []) ≡ where_rows p xs ++ x ∷ []
unfolding where_rows
where_rows-last p [] x h = rw h
where_rows-last p (y ∷ xs) x h = elim (Bool-cases (p y)) [
  | inl e ↦ rw e (ap (λ t. y ∷ t) (where_rows-last p xs x h))
  | inr e ↦ rw e (where_rows-last p xs x h)
]

All-where_rows :
    {A : Type 0} (P : A → Type 0) (p : A → Bool) (xs : List A) → All P xs → All P (where_rows p xs)
unfolding where_rows
All-where_rows P p [] h = tt
All-where_rows P p (x ∷ xs) (hx, hxs) = elim (Bool-cases (p x)) [
  | inl e ↦ rw e (hx, All-where_rows P p xs hxs)
  | inr e ↦ rw e (All-where_rows P p xs hxs)
]

abbrev OlderThan : ℕ → Message → Type 0
OlderThan t m = m.created_at < t

-- A row younger than all others comes first.
order_by-newest :
    (ms : List Message) (m : Message)
    → All (OlderThan m.created_at) ms
    → order_by newest_first (ms ++ m ∷ []) ≡ m ∷ order_by newest_first ms
unfolding order_by insert
order_by-newest [] m h = refl
order_by-newest (n ∷ ms) m (hn, hms) =
    let younger : newest_first n m ≡ false = ground arith in
    rw (order_by-newest ms m hms) (rw younger)

clamp_limit-suc : (limit : ℤ) → (k : ℕ) × (clamp_limit limit ≡ suc k)
unfolding clamp_limit
clamp_limit-suc (pos zero) = (49, refl)
clamp_limit-suc (pos (suc n)) = (min n 499, ground arith)
clamp_limit-suc (negsuc n) = (49, refl)

take-clamp_limit :
    {A : Type 0} (limit : ℤ) (x : A) (xs : List A)
    → (rest : List A) × (take (clamp_limit limit) (x ∷ xs) ≡ x ∷ rest)
take-clamp_limit limit x xs =
    let (k, e) = clamp_limit-suc limit in (take k xs, ap (λ n. take n (x ∷ xs)) e)

module _ (env : Env) (db : Db) (s r : User) (text : Bytes) where
  -- What an answer `ok` says of the tables.
  abbrev Stored : DbResult × Db → Type 0
  Stored x = x.0.status ≡ ok → x.1 ≡ begin (insert_message env db s.id r.id text)

  store_message-ok :
      find_id (pos s.id) db.users ≡ some s → Stored (store_message env db (pos s.id) text r)
  unfolding store_message
  store_message-ok found =
      rw (found, store_message)
        (elim (Bool-cases
          (is_blank text || not (env.is_text text) || not (ltb db.next_message_id (2 ^ 31)))) [
            | inl bad ↦ rw bad (λ h. cc)
            | inr good ↦ rw good (λ h. refl)
          ])

  send_message-ok :
      (l : Bytes)
      → find_id (pos s.id) db.users ≡ some s
      → find_login l db.users ≡ some r
      → Stored (send_message env db (pos s.id) l text)
  unfolding send_message
  send_message-ok l found receiver = elim (Bool-cases (is_empty text || ltb 4096 (length text))) [
    | inl bad ↦ rw bad (λ h. cc)
    | inr short ↦ rw short (elim (Bool-cases (runs env db (l ∷ []))) [
      | inr down ↦ rw down (λ h. cc)
      | inl up ↦
          rw (up, receiver)
            (elim (Bool-cases (is_banned r.status)) [
              | inl banned ↦ rw banned (λ h. cc)
              | inr active ↦ rw active (store_message-ok found)
            ])
    ])
  ]

  -- The row that sendMessage inserts, and what getInbox shows of it.
  abbrev new_message : Message
  new_message = record {
    id = db.next_message_id;
    sender_id = s.id;
    receiver_id = r.id;
    text = text;
    created_at = env.now db.txns;
  }

  abbrev pub new_record : MessageRecord
  new_record = record {
    id = db.next_message_id;
    sender = s.login;
    receiver = r.login;
    text = text;
    created_at = env.to_char (env.now db.txns);
  }

  join-new_message :
      (ms : List Message)
      → find_id (pos s.id) db.users ≡ some s
      → find_id (pos r.id) db.users ≡ some r
      → join env db.users (new_message ∷ ms) ≡ new_record ∷ join env db.users ms
  unfolding join
  join-new_message ms e f = rw (join, e) (rw f)

  get_inbox-insert_message :
      (limit : ℤ)
      → find_id (pos s.id) db.users ≡ some s
      → find_id (pos r.id) db.users ≡ some r
      → All (OlderThan (env.now db.txns)) db.messages
      → runs env (begin (insert_message env db s.id r.id text)) [] ≡ true
      → (rest : List MessageRecord) × ((get_inbox env
            (begin (insert_message env db s.id r.id text))
            (pos r.id)
            limit).0
          ≡ new_record ∷ rest)
  unfolding get_inbox
  get_inbox-insert_message limit e f older up =
      let mine : Message → Bool = λ m. eqb_ℤ (pos m.receiver_id) (pos r.id) in
      let last : where_rows mine (db.messages ++ new_message ∷ [])
          ≡ where_rows mine db.messages ++ new_message ∷ [] =
        where_rows-last mine db.messages new_message ((eqb_ℤ_iff (pos r.id) (pos r.id)).1 refl) in
      rw
        (
          up,
          last,
          order_by-newest (where_rows mine db.messages) new_message
              (All-where_rows _ mine db.messages older),
          join-new_message (order_by newest_first (where_rows mine db.messages)) e f,
        )
        (take-clamp_limit limit new_record _)

-- When sendMessage answers ok to an account, and every message of the valid tables is older than its
-- clock, then the first record of the receiver's inbox, under any limit and once the next transaction
-- runs, is that message: the sender's login, the receiver's login, the text unchanged and the new id.
pub get_inbox-send_message :
    (env : Env) (db : Db) (s r : User) (l text : Bytes) (limit : ℤ)
    → IsValid db
    → find_id (pos s.id) db.users ≡ some s
    → find_login l db.users ≡ some r
    → All (OlderThan (env.now db.txns)) db.messages
    → (send_message env db (pos s.id) l text).0.status ≡ ok
    → runs env (send_message env db (pos s.id) l text).1 [] ≡ true
    → (rest : List MessageRecord) × ((get_inbox env
          (send_message env db (pos s.id) l text).1
          (pos r.id)
          limit).0
        ≡ new_record env db s r text ∷ rest)
      × (r.login ≡ l)
get_inbox-send_message env db s r l text limit valid e f older sent up =
    let stored = send_message-ok env db s r text l e f sent in
    let (rest, first) =
      get_inbox-insert_message env db s r text limit e
        (find_login→find_id db.users l r valid.distinct f) older (rw stored at up) in
    (rest, rw stored first, find_login-login l db.users r f)
