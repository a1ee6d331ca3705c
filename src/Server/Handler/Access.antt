-- ===== src/Server/Handler/Access.antt =====
-- Who may ask for what: requireAuth and requireModerator in front of the commands.
use messenger_cpp_r.Base.{
  ℕ, ◌≡◌, ◌⊎◌, inl, inr, Bool, true, false, Option-cases, [], Bytes, lit, Bool-cases, ℤ,
}
use messenger_cpp_r.Server.Database.{Db, Env, begin, runs, find_id}
use messenger_cpp_r.Server.Database.Accounts.{has_moderator_rights}
use messenger_cpp_r.Server.Database.Roles.{rights}
use messenger_cpp_r.Server.Command.{
  Command, register_as, log_in_as, log_out, list_users, read_inbox, message_to, history_with,
  all_messages, ban, unban, kick, unknown, parse_command,
}
use messenger_cpp_r.Server.Handler.{
  World, respond, require_auth, require_moderator, moderator_role, moderator_required,
}
use messenger_cpp_r.Server.Handler.Commands
use messenger_cpp_r.Server.Handler.Commands.{
  handle_frame, handle_list, handle_inbox, handle_message, handle_history, handle_all_messages,
  handle_ban, handle_unban, handle_kick,
}

-- The commands of a user.
unfoldable pub needs_auth : Command → Bool
needs_auth (register_as login pass) = false
needs_auth (log_in_as login pass) = false
needs_auth log_out = false
needs_auth list_users = true
needs_auth read_inbox = true
needs_auth (message_to to text) = true
needs_auth (history_with target limit offset) = true
needs_auth (all_messages limit) = true
needs_auth (ban login) = true
needs_auth (unban login) = true
needs_auth (kick login) = true
needs_auth unknown = false

-- The commands of a moderator.
unfoldable pub needs_moderator : Command → Bool
needs_moderator (register_as login pass) = false
needs_moderator (log_in_as login pass) = false
needs_moderator log_out = false
needs_moderator list_users = false
needs_moderator read_inbox = false
needs_moderator (message_to to text) = false
needs_moderator (history_with target limit offset) = false
needs_moderator (all_messages limit) = true
needs_moderator (ban login) = true
needs_moderator (unban login) = true
needs_moderator (kick login) = true
needs_moderator unknown = false

module _ (env : Env) (max_frame_size : ℕ) (takes : ℕ → Bool) (i : ℕ) (w : World) where
  require_auth-not :
      (w.handlers i).authed ≡ false
      → require_auth env max_frame_size takes i w
        ≡ (false, respond env max_frame_size takes i (lit "ERROR_NOT_AUTH") w)
  unfolding require_auth
  require_auth-not h = rw h

  require_auth-yes :
      (w.handlers i).authed ≡ true → require_auth env max_frame_size takes i w ≡ (true, w)
  unfolding require_auth
  require_auth-yes h = rw h

  require_moderator-not :
      (w.handlers i).authed ≡ false
      → require_moderator env max_frame_size takes i w
        ≡ (false, respond env max_frame_size takes i (lit "ERROR_NOT_AUTH") w)
  unfolding require_moderator
  require_moderator-not h = rw (require_auth-not h)

  handle_command-not_authed :
      (c : Command)
      → (w.handlers i).authed ≡ false
      → needs_auth c ≡ true
      → Commands.handle_command env max_frame_size takes i c w
        ≡ respond env max_frame_size takes i (lit "ERROR_NOT_AUTH") w
  unfolding needs_auth handle_list handle_inbox handle_message handle_history handle_all_messages
      handle_ban handle_unban handle_kick
  handle_command-not_authed (register_as login pass) h n = cc
  handle_command-not_authed (log_in_as login pass) h n = cc
  handle_command-not_authed log_out h n = cc
  handle_command-not_authed list_users h n = rw (require_auth-not h)
  handle_command-not_authed read_inbox h n = rw (require_auth-not h)
  handle_command-not_authed (message_to to text) h n = rw (require_auth-not h)
  handle_command-not_authed (history_with target limit offset) h n = rw (require_auth-not h)
  handle_command-not_authed (all_messages limit) h n = rw (require_moderator-not h)
  handle_command-not_authed (ban login) h n = rw (require_moderator-not h)
  handle_command-not_authed (unban login) h n = rw (require_moderator-not h)
  handle_command-not_authed (kick login) h n = rw (require_moderator-not h)
  handle_command-not_authed unknown h n = cc

  -- On a handler that is not logged in, every frame with a command of a user or of a moderator gets
  -- the answer ERROR_NOT_AUTH and does nothing else.
  pub handle_frame-not_authed :
      (frame : Bytes)
      → (w.handlers i).authed ≡ false
      → needs_auth (parse_command frame) ≡ true
      → handle_frame env max_frame_size takes i frame w
        ≡ respond env max_frame_size takes i (lit "ERROR_NOT_AUTH") w
  unfolding handle_frame
  handle_frame-not_authed frame h n = handle_command-not_authed (parse_command frame) h n

  has_moderator_rights-not :
      (db : Db) (id : ℤ)
      → rights (find_id id db.users) ≡ false
      → has_moderator_rights env db id ≡ (false, begin db)
  unfolding has_moderator_rights
  has_moderator_rights-not db id h = elim (Bool-cases (runs env db [])) [
    | inr down ↦ rw down
    | inl up ↦ elim (Option-cases (find_id id db.users)) [
      | inl e ↦ rw (up, e, has_moderator_rights)
      | inr (u, e) ↦ rw (up, e, has_moderator_rights) (rw (rw e at h))
    ]
  ]

  -- Refused at the handler's role, or by the table.
  abbrev pub Refused : World → Type 0
  Refused w' =
      (w' ≡ respond env max_frame_size takes i moderator_required w)
      ⊎ (w' ≡ respond env max_frame_size takes i moderator_required (record w { db = begin w.db }))

  refuse : World → Bool × World
  refuse w' = (false, respond env max_frame_size takes i moderator_required w')

  require_moderator-refused :
      (w.handlers i).authed ≡ true
      → rights (find_id (w.handlers i).user_id w.db.users) ≡ false
      → (require_moderator env max_frame_size takes i w ≡ refuse w)
        ⊎ (require_moderator env max_frame_size takes i w ≡ refuse (record w { db = begin w.db }))
  unfolding require_moderator refuse
  require_moderator-refused h r = elim (Bool-cases (moderator_role (w.handlers i).role)) [
    | inr plain ↦ inl (rw (require_auth-yes h, plain))
    | inl claims ↦
        inr
          (rw (require_auth-yes h, claims, has_moderator_rights-not w.db (w.handlers i).user_id r))
  ]

  handle_command-refused :
      (c : Command) (w' : World)
      → needs_moderator c ≡ true
      → require_moderator env max_frame_size takes i w ≡ refuse w'
      → Commands.handle_command env max_frame_size takes i c w
        ≡ respond env max_frame_size takes i moderator_required w'
  unfolding needs_moderator refuse handle_all_messages handle_ban handle_unban handle_kick
  handle_command-refused (register_as login pass) w' n e = cc
  handle_command-refused (log_in_as login pass) w' n e = cc
  handle_command-refused log_out w' n e = cc
  handle_command-refused list_users w' n e = cc
  handle_command-refused read_inbox w' n e = cc
  handle_command-refused (message_to to text) w' n e = cc
  handle_command-refused (history_with target limit offset) w' n e = cc
  handle_command-refused (all_messages limit) w' n e = rw e
  handle_command-refused (ban login) w' n e = rw e
  handle_command-refused (unban login) w' n e = rw e
  handle_command-refused (kick login) w' n e = rw e
  handle_command-refused unknown w' n e = cc

  -- On a handler whose user is no moderator or admin in the table, whatever role the handler itself
  -- remembers, a frame with a command of a moderator gets the answer ERROR_FORBIDDEN and does
  -- nothing else, except that the check may have begun one transaction, which writes nothing.
  pub handle_frame-forbidden :
      (frame : Bytes)
      → (w.handlers i).authed ≡ true
      → rights (find_id (w.handlers i).user_id w.db.users) ≡ false
      → needs_moderator (parse_command frame) ≡ true
      → Refused (handle_frame env max_frame_size takes i frame w)
  unfolding handle_frame
  handle_frame-forbidden frame h r n = elim (require_moderator-refused h r) [
    | inl e ↦ inl (handle_command-refused (parse_command frame) w n e)
    | inr e ↦ inr (handle_command-refused (parse_command frame) (record w { db = begin w.db }) n e)
  ]
