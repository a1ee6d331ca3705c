-- ===== src/Server/Database/Change.antt =====
-- The transactions of Database.cpp by what they do to the tables, in six kinds.
pub mod Moderation
pub mod Entries
use messenger_cpp_r.Base.{
  ℕ, suc, ◌+◌, ◌^◌, ◌≤◌, ◌<◌, ◌≡◌, ◌≢◌, refl, ap, ◌∙◌, ◌⊎◌, inl, inr, Bool, true, false, not, ◌&&◌,
  ◌||◌, Option, none, some, Option-cases, List, [], ◌∷◌, ◌++◌, arith, Bytes, lit, is_empty, length,
  str_eq, ltb, ◌==◌, if◌then◌else◌, Bool-cases, ℤ, pos, eqb_ℤ, minus_one, non_positive,
}
use messenger_cpp_r.Server.Auth.{is_valid_login, validate_password}
use messenger_cpp_r.Server.Database.{
  Role, user, Status, online, offline, banned, is_banned, User, Message, Audit, Db, Env, DbResult,
  LoginResult, DbStatus, ok, make_result, find_login, find_id, update_where, begin, runs, audit,
  seen_as,
}
use messenger_cpp_r.Server.Database.Accounts.{
  insert_user, hash_password, verify_password, commit_audited, commit_login, register_user,
  check_login, login_user, logout_user, has_moderator_rights, ban_user, unban_user, kick_user,
  mark_user_offline,
}
use messenger_cpp_r.Server.Database.Mailbox.{insert_message, store_message, send_message, is_blank}
use messenger_cpp_r.Server.Database.Rows.{KeepsIdentity, modify, find_login-login}

-- The other tables and the sequences stay as they were.
abbrev pub SameMessages : Db → Db → Type 0
SameMessages a b = (b.messages ≡ a.messages) × (b.next_message_id ≡ a.next_message_id)

-- From `a` to `b`; `lifts` says whose ban the transaction may lift.
pub data Change (lifts : Bytes → Bool) (a b : Db) : Type 0 where
  -- Nothing but the sequence of the user ids.
  quiet :
      b.users ≡ a.users
      → SameMessages a b
      → b.audits ≡ a.audits
      → a.next_user_id ≤ b.next_user_id
      → Change lifts a b
  -- An UPDATE that leaves identities and bans in place.
  touched :
      (p : User → Bool) (f : User → User)
      → KeepsIdentity f
      → ((u : User) → is_banned u.status ≡ true → is_banned (modify p f u).status ≡ true)
      → b.users ≡ update_where p f a.users
      → SameMessages a b
      → b.next_user_id ≡ a.next_user_id
      → Change lifts a b
  -- The row of an account that is not banned is updated, by its id.
  logged_in :
      (u : User) (f : User → User)
      → KeepsIdentity f
      → find_login u.login a.users ≡ some u
      → is_banned u.status ≡ false
      → b.users ≡ update_where (λ v. v.id == u.id) f a.users
      → SameMessages a b
      → b.next_user_id ≡ a.next_user_id
      → Change lifts a b
  -- The ban of one login is lifted.
  unbanned :
      (login : Bytes)
      → lifts login ≡ true
      → b.users
        ≡ update_where
            (λ u. str_eq u.login login && is_banned u.status)
            (λ u. record u { status = offline })
            a.users
      → SameMessages a b
      → b.next_user_id ≡ a.next_user_id
      → Change lifts a b
  -- A new account under a login that was free.
  registered :
      (u : User)
      → is_valid_login u.login ≡ true
      → find_login u.login a.users ≡ none
      → u.id ≡ a.next_user_id
      → u.role ≡ user
      → u.status ≡ offline
      → b.users ≡ a.users ++ u ∷ []
      → SameMessages a b
      → b.next_user_id ≡ a.next_user_id + 1
      → Change lifts a b
  -- A new message between two accounts.
  sent :
      (m : Message) (sender receiver : User)
      → find_id (pos m.sender_id) a.users ≡ some sender
      → (l : Bytes) → find_login l a.users ≡ some receiver
      → m.receiver_id ≡ receiver.id
      → is_banned receiver.status ≡ false
      → m.id ≡ a.next_message_id
      → (0 < length m.text) × (length m.text ≤ 4096)
      → b.users ≡ a.users
      → b.messages ≡ a.messages ++ m ∷ []
      → b.next_message_id ≡ a.next_message_id + 1
      → b.next_user_id ≡ a.next_user_id
      → Change lifts a b

pub same_tables :
    {lifts : Bytes → Bool} (a b : Db)
    → b.users ≡ a.users
    → b.messages ≡ a.messages
    → b.next_message_id ≡ a.next_message_id
    → b.audits ≡ a.audits
    → b.next_user_id ≡ a.next_user_id
    → Change lifts a b
same_tables a b u m n au i = quiet u (m, n) au (omega arith)

abbrev pub set_status : Status → User → User
set_status s u = record u { status = s }

pub set_status-KeepsIdentity : (s : Status) → KeepsIdentity (set_status s)
set_status-KeepsIdentity s = record {
  id = λ u. refl;
  login = λ u. refl;
  role = λ u. refl;
  password_hash = λ u. refl;
}

module _ (env : Env) where
  pub seen_as-KeepsIdentity : (db : Db) (s : Status) → KeepsIdentity (seen_as env db s)
  seen_as-KeepsIdentity db s = record {
    id = λ u. refl;
    login = λ u. refl;
    role = λ u. refl;
    password_hash = λ u. refl;
  }

  -- Only a row is added, or the exception is raised.
  pub audit_cases :
      (db : Db) (actor : ℤ) (action target details : Bytes)
      → (audit env db actor action target details ≡ none)
        ⊎ ((a : Audit) × (audit env db actor action target details
              ≡ some (record db { audits = a ∷ db.audits })))
  unfolding audit
  audit_cases db actor action target details = elim (Bool-cases (non_positive actor)) [
    | inl h ↦ rw h (inr (_, refl))
    | inr h ↦ elim (Option-cases (find_id actor db.users)) [
      | inl e ↦ rw (h, e, audit) (inl refl)
      | inr (u, e) ↦ rw (h, e, audit) (inr (_, refl))
    ]
  ]

  pub begin-Change : {lifts : Bytes → Bool} (db : Db) → Change lifts db (begin db)
  begin-Change db = same_tables db (begin db) refl refl refl refl refl

  -- The audited commit: a change made before the audit is the change, and a failed audit undoes it.
  pub commit_audited-Change :
      {lifts : Bytes → Bool} (db d : Db) (actor : ℤ) (action target details : Bytes) (r : DbResult)
      → ((a : Audit) → Change lifts db (begin (record d { audits = a ∷ d.audits })))
      → Change lifts db (commit_audited env db (audit env d actor action target details) r).1
  commit_audited-Change db d actor action target details r made =
      elim (audit_cases d actor action target details) [
        | inl e ↦ rw e (begin-Change db)
        | inr (a, e) ↦ rw e (made a)
      ]
