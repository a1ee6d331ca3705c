-- ===== src/Server/Database/Mailbox.antt =====
-- Messages and the queries of Database.cpp: sendMessage, getInbox, getHistory, getAllMessages,
-- getUserId, getUserByLogin and listUsers. Rows with equal sort keys come in an order that SQL leaves
-- open; here they keep the order of the table.
use messenger_cpp_r.Base.{
  ℕ, ◌+◌, ◌^◌, Bool, not, ◌&&◌, ◌||◌, Option, none, some, List, [], ◌∷◌, ◌++◌, map, Bytes, lit, ltb,
  leb, ◌==◌, if◌then◌else◌, ℤ, pos, minus_one, eqb_ℤ, non_positive, max_zero, length, take, drop,
  all_of, is_empty, min,
}
use messenger_cpp_r.Server.Database.{
  is_banned, User, Message, Db, Env, ok, validation_error, not_found, banned_status, DbResult,
  UserSummary, MessageRecord, make_result, database_error, find_login, find_id, begin, runs,
}

abbrev pub default_limit : ℕ
default_limit = 50

abbrev pub max_limit : ℕ
max_limit = 500

unfoldable pub clamp_limit : ℤ → ℕ
clamp_limit limit = if non_positive limit then default_limit else min (max_zero limit) max_limit

-- ORDER BY: insertion sort by a test `le` on rows.
module _ {ℓ} {A : Type ℓ} (le : A → A → Bool) where
  unfoldable pub insert : A → List A → List A
  insert x [] = x ∷ []
  insert x (y ∷ ys) = if le x y then x ∷ y ∷ ys else y ∷ insert x ys

  unfoldable pub order_by : List A → List A
  unfolding insert
  order_by [] = []
  order_by (x ∷ xs) = insert x (order_by xs)

-- WHERE
unfoldable pub where_rows {ℓ} : {A : Type ℓ} → (A → Bool) → List A → List A
where_rows p [] = []
where_rows p (x ∷ xs) = let rest = where_rows p xs in if p x then x ∷ rest else rest

abbrev pub newest_first : Message → Message → Bool
newest_first m n = leb n.created_at m.created_at

abbrev pub oldest_first : Message → Message → Bool
oldest_first m n = leb m.created_at n.created_at

-- CHECK (length(trim(text)) > 0)
unfoldable pub is_blank : Bytes → Bool
is_blank text = all_of (λ c. c == 32) text

module _ (env : Env) where
  abbrev pub insert_message : Db → ℕ → ℕ → Bytes → Db
  insert_message db sender receiver text = record db {
    messages =
        db.messages
        ++ record {
          id = db.next_message_id;
          sender_id = sender;
          receiver_id = receiver;
          text = text;
          created_at = env.now db.txns;
        }
          ∷ [];
    next_message_id = db.next_message_id + 1;
  }

  -- The INSERT fails on a sender that is no row (foreign key), on blank text (CHECK), and on text that
  -- is not in the encoding; the id, a bigint, must fit an int.
  unfoldable pub store_message : Db → ℤ → Bytes → User → DbResult × Db
  unfolding is_blank
  store_message db sender_id text receiver = elim (find_id sender_id db.users) [
    | none ↦ (database_error, begin db)
    | some sender ↦
        if is_blank text || not (env.is_text text) || not (ltb db.next_message_id (2 ^ 31))
        then (database_error, begin db)
        else (
          make_result ok (lit "message stored") (pos db.next_message_id),
          begin (insert_message db sender.id receiver.id text),
        )
  ]

  unfoldable pub send_message : Db → ℤ → Bytes → Bytes → DbResult × Db
  unfolding store_message
  send_message db sender_id receiver_login text =
      if is_empty text || ltb 4096 (length text)
      then (make_result validation_error (lit "message must be 1-4096 characters") minus_one, db)
      else if not (runs env db (receiver_login ∷ []))
      then (database_error, begin db)
      else elim (find_login receiver_login db.users) [
        | none ↦ (make_result not_found (lit "receiver not found") minus_one, begin db)
        | some receiver ↦
            if is_banned receiver.status
            then (make_result banned_status (lit "receiver is banned") minus_one, begin db)
            else store_message db sender_id text receiver
      ]

  -- The two JOINs: a message with the logins of its users.
  unfoldable pub join : List User → List Message → List MessageRecord
  unfolding find_id
  join users [] = []
  join users (m ∷ ms) =
      let rest = join users ms in
      elim (find_id (pos m.sender_id) users) [
        | none ↦ rest
        | some s ↦ elim (find_id (pos m.receiver_id) users) [
          | none ↦ rest
          | some r ↦
              record {
                id = m.id;
                sender = s.login;
                receiver = r.login;
                text = m.text;
                created_at = env.to_char m.created_at;
              }
              ∷ rest
        ]
      ]

  unfoldable pub get_user_id : Db → Bytes → Option ℕ × Db
  get_user_id db login =
      if not (runs env db (login ∷ []))
      then (none, begin db)
      else elim (find_login login db.users) [
        | none ↦ (none, begin db)
        | some u ↦ (some u.id, begin db)
      ]

  -- COALESCE(to_char(last_seen …), '')
  abbrev pub summary : User → UserSummary
  summary u = record {
    id = u.id;
    login = u.login;
    role = u.role;
    status = u.status;
    last_seen = elim u.last_seen [ none ↦ [] | some t ↦ env.to_char t ];
  }

  unfoldable pub get_user_by_login : Db → Bytes → Option UserSummary × Db
  get_user_by_login db login =
      if not (runs env db (login ∷ []))
      then (none, begin db)
      else elim (find_login login db.users) [
        | none ↦ (none, begin db)
        | some u ↦ (some (summary u), begin db)
      ]

  unfoldable pub list_users : Db → List UserSummary × Db
  list_users db =
      if not (runs env db [])
      then ([], begin db)
      else (map summary (order_by (λ u v. env.login_le u.login v.login) db.users), begin db)

  unfoldable pub get_inbox : Db → ℤ → ℤ → List MessageRecord × Db
  get_inbox db user_id limit = if not (runs env db []) then ([], begin db) else (
    take (clamp_limit limit) (
        join db.users (
          order_by newest_first (where_rows (λ m. eqb_ℤ (pos m.receiver_id) user_id) db.messages))),
    begin db,
  )

  abbrev pub between : ℤ → ℤ → Message → Bool
  between a b m =
      (eqb_ℤ (pos m.sender_id) a && eqb_ℤ (pos m.receiver_id) b)
      || (eqb_ℤ (pos m.sender_id) b && eqb_ℤ (pos m.receiver_id) a)

  unfoldable pub history_rows : Db → ℤ → ℤ → ℤ → ℤ → List MessageRecord × Db
  history_rows db user_id target limit offset = if not (runs env db []) then ([], begin db) else (
    take (clamp_limit limit) (
        drop (max_zero offset) (
          join db.users (order_by oldest_first (where_rows (between user_id target) db.messages)))),
    begin db,
  )

  -- getUserId has a transaction of its own.
  unfoldable pub get_history : Db → ℤ → Bytes → ℤ → ℤ → List MessageRecord × Db
  get_history db user_id target_login limit offset =
      let (target, db') = get_user_id db target_login in
      elim target [ none ↦ ([], db') | some id ↦ history_rows db' user_id (pos id) limit offset ]

  unfoldable pub get_all_messages : Db → ℤ → List MessageRecord × Db
  get_all_messages db limit =
      if not (runs env db [])
      then ([], begin db)
      else (take (clamp_limit limit) (join db.users (order_by newest_first db.messages)), begin db)
