-- ===== src/Server/Database.antt =====
-- The tables of root/app/database/migrations, and what Database.cpp runs on them. One transaction is
-- one function on `Db`: a std::exception inside it leaves the tables as they were, which is what the
-- rollback does. What PostgreSQL and the clock decide is the parameter `Env`.
pub mod Accounts
pub mod Mailbox
pub mod Rows
pub mod Change
pub mod Requests
pub mod Invariant
pub mod Bans
pub mod Delivery
pub mod Privacy
pub mod Identity
pub mod Roles
pub mod Credentials
pub mod Atomic
use messenger_cpp_r.Base.{
  ℕ, zero, suc, ◌+◌, ◌^◌, Bool, true, false, not, ◌&&◌, ◌||◌, Option, none, some, List, [], ◌∷◌,
  ◌++◌, Bytes, lit, str_eq, ltb, leb, ◌==◌, if◌then◌else◌, all_of, ℤ, pos, negsuc, minus_one, eqb_ℤ,
  non_positive, is_empty,
}

-- The values that the CHECK constraints allow.
pub data Role : Type 0 where
  user moderator admin : Role

pub data Status : Type 0 where
  online offline banned : Status

abbrev pub role_text : Role → Bytes
role_text user = lit "user"
role_text moderator = lit "moderator"
role_text admin = lit "admin"

abbrev pub status_text : Status → Bytes
status_text online = lit "online"
status_text offline = lit "offline"
status_text banned = lit "banned"

abbrev pub is_banned : Status → Bool
is_banned online = false
is_banned offline = false
is_banned banned = true

abbrev pub is_moderator : Role → Bool
is_moderator user = false
is_moderator moderator = true
is_moderator admin = true

-- A row of chat.users, less created_at and updated_at, which nothing reads.
pub record User : Type 0 where
  pub id : ℕ
  pub login : Bytes
  pub password_hash : Bytes
  pub role : Role
  pub status : Status
  pub last_seen : Option ℕ

-- A row of chat.messages.
pub record Message : Type 0 where
  pub id : ℕ
  pub sender_id : ℕ
  pub receiver_id : ℕ
  pub text : Bytes
  pub created_at : ℕ

-- A row of chat.audit_log; `none` is the NULL actor.
pub record Audit : Type 0 where
  pub actor : Option ℕ
  pub action : Bytes
  pub target : Bytes
  pub details : Bytes

-- `txns` counts the transactions that were begun; it is the time that `Env` is asked about.
pub record Db : Type 0 where
  pub users : List User
  pub messages : List Message
  pub audits : List Audit
  pub next_user_id : ℕ
  pub next_message_id : ℕ
  pub txns : ℕ

-- PostgreSQL and its surroundings, by the number of the transaction: whether it runs without an
-- exception of the connection, the time of now(), and the salt that gen_salt gives; which byte
-- strings are text in the database's encoding; crypt(); to_char(); and the order of the collation.
pub record Env : Type 0 where
  pub up : ℕ → Bool
  pub now : ℕ → ℕ
  pub gen_salt : ℕ → Bytes
  pub is_text : Bytes → Bool
  pub crypt : Bytes → Bytes → Bytes
  pub to_char : ℕ → Bytes
  pub login_le : Bytes → Bytes → Bool

pub data DbStatus : Type 0 where
  ok validation_error unauthorized forbidden not_found duplicate banned_status error : DbStatus

pub record DbResult : Type 0 where
  pub status : DbStatus
  pub message : Bytes
  pub id : ℤ

-- LoginResult; an empty role is `none`.
pub record LoginResult : Type 0 where
  pub status : DbStatus
  pub message : Bytes
  pub user_id : ℤ
  pub login : Bytes
  pub role : Option Role

pub record UserSummary : Type 0 where
  pub id : ℕ
  pub login : Bytes
  pub role : Role
  pub status : Status
  pub last_seen : Bytes

pub record MessageRecord : Type 0 where
  pub id : ℕ
  pub sender : Bytes
  pub receiver : Bytes
  pub text : Bytes
  pub created_at : Bytes

abbrev pub make_result : DbStatus → Bytes → ℤ → DbResult
make_result status message id = record { status = status; message = message; id = id }

abbrev pub database_error : DbResult
database_error = make_result error (lit "database error") minus_one

-- WHERE login = $1, with the UNIQUE constraint; WHERE id = $1, with the primary key.
unfoldable pub find_login : Bytes → List User → Option User
find_login login [] = none
find_login login (u ∷ us) = if str_eq u.login login then some u else find_login login us

unfoldable pub find_id : ℤ → List User → Option User
find_id id [] = none
find_id id (u ∷ us) = if eqb_ℤ (pos u.id) id then some u else find_id id us

-- UPDATE chat.users SET … WHERE …
unfoldable pub update_where : (User → Bool) → (User → User) → List User → List User
update_where p f [] = []
update_where p f (u ∷ us) = (if p u then f u else u) ∷ update_where p f us

-- The transaction begins: its number is used up.
abbrev pub begin : Db → Db
begin db = record db { txns = db.txns + 1 }

module _ (env : Env) where
  -- The transaction runs, and takes the parameters as text.
  unfoldable pub runs : Db → List Bytes → Bool
  runs db params = env.up db.txns && all_of env.is_text params

  -- Database::audit. A positive actor must be a row of chat.users, or the foreign key fails.
  unfoldable pub audit : Db → ℤ → Bytes → Bytes → Bytes → Option Db
  unfolding find_id
  audit db actor action target details =
      if non_positive actor
      then some (record db {
        audits =
            record { actor = none; action = action; target = target; details = details }
            ∷ db.audits;
      })
      else elim (find_id actor db.users) [
        | none ↦ none
        | some u ↦ some (record db {
          audits =
              record { actor = some u.id; action = action; target = target; details = details }
              ∷ db.audits;
        })
      ]

  -- SET status = …, last_seen = now()
  abbrev pub seen_as : Db → Status → User → User
  seen_as db status u = record u { status = status; last_seen = some (env.now db.txns) }
