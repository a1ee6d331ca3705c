-- ===== src/Server/Database/Invariant.antt =====
-- The invariant of the tables of Database.cpp. The proofs are in the children.
pub mod Updates
pub mod Preserved
use mathlib.Core.Option
use messenger_cpp_r.Base.{
  ℕ, suc, ◌+◌, ◌≤◌, ◌<◌, ◌≡◌, ◌≢◌, refl, sym, ap, ◌∙◌, ◌⊎◌, inl, inr, Bool, true, false, Option,
  none, some, Option-cases, List, [], ◌∷◌, ◌++◌, arith, Bytes, length, str_eq, str_eq_iff, ◌==◌,
  if◌then◌else◌, Bool-cases, All, ℤ, pos, eqb_ℤ, eqb_ℤ_iff,
}
use messenger_cpp_r.Server.Auth.{is_valid_login}
use messenger_cpp_r.Server.Database.{
  User, Message, Db, Env, Status, offline, find_login, find_id, update_where,
}
use messenger_cpp_r.Server.Database.Rows.{
  KeepsIdentity, modify, modify_login, modify_id, find_login-update_where, find_id-update_where,
  or_else, find_login-append, find_id-append, find_id-fresh,
}
use messenger_cpp_r.Server.Database.Change.{
  Change, quiet, touched, logged_in, unbanned, registered, sent, set_status,
  set_status-KeepsIdentity,
}
use messenger_cpp_r.Server.Database.Requests.{Request, serve, serve_all, serve-Change}

-- No two rows share a login or an id.
abbrev pub Distinct : List User → Type 0
Distinct [] = Unit {0}
Distinct (u ∷ us) = (find_login u.login us ≡ none) × (find_id (pos u.id) us ≡ none) × Distinct us

-- A message that the constraints of chat.messages and the checks of sendMessage allow.
abbrev pub Stored : List User → ℕ → Message → Type 0
Stored us next m =
    (m.id < next)
    × (find_id (pos m.sender_id) us ≢ none)
    × (find_id (pos m.receiver_id) us ≢ none)
    × (0 < length m.text)
    × (length m.text ≤ 4096)

pub record IsValid (db : Db) : Type 0 where
  pub logins : All (λ u. is_valid_login u.login ≡ true) db.users
  pub distinct : Distinct db.users
  pub fresh : All (λ u. u.id < db.next_user_id) db.users
  pub stored : All (Stored db.users db.next_message_id) db.messages
