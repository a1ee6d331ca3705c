-- ===== src/Server/Handler/Guards.antt =====
-- The answers of ClientHandler.cpp and its guards requireAuth and requireModerator as steps.
use messenger_cpp_r.Base.{refl, ℕ, inl, inr, Bool, not, List, Bytes, lit, if◌then◌else◌, Bool-cases}
use messenger_cpp_r.Server.Database.{Env}
use messenger_cpp_r.Server.Database.Accounts.{has_moderator_rights}
use messenger_cpp_r.Server.Database.Requests.{lifts, serve, asks_rights}
use messenger_cpp_r.Server.Handler.{
  World, require_auth, require_moderator, moderator_role, moderator_required,
}
use messenger_cpp_r.Server.Handler.Commands.{answer_list, say}
use messenger_cpp_r.Server.Handler.Effects.{
  Talks-refl, respond-Talks, respond_all-Talks, Effect, talks, serves, after,
}

module _ (env : Env) (max_frame_size : ℕ) (takes : ℕ → Bool) (k : Bytes → Bool) (i : ℕ) where
  -- Shorthands for the steps of this handler.
  abbrev pub Goes : World → World → Type 0
  Goes w w' = Effect env max_frame_size takes k i w w'

  pub says : (payload : Bytes) (w : World) → Goes w (say env max_frame_size takes i payload w)
  says payload w = talks (respond-Talks env max_frame_size takes i payload w)

  pub answer_list-Effect :
      (first : Bytes) (lines : List Bytes) (last : Bytes) (w : World)
      → Goes w (answer_list env max_frame_size takes i first lines last w)
  answer_list-Effect first lines last w =
      after (says first w)
        (after (talks (respond_all-Talks env max_frame_size takes i lines _)) (says last _))

  pub require_auth-Effect : (w : World) → Goes w (require_auth env max_frame_size takes i w).1
  unfolding require_auth
  require_auth-Effect w = elim (Bool-cases (w.handlers i).authed) [
    | inl h ↦ rw h (talks (Talks-refl w))
    | inr h ↦ rw h (says (lit "ERROR_NOT_AUTH") w)
  ]

  pub require_moderator-Effect :
      (w : World) → Goes w (require_moderator env max_frame_size takes i w).1
  unfolding require_moderator serve lifts
  require_moderator-Effect w =
      let w1 = (require_auth env max_frame_size takes i w).1 in
      let first = require_auth-Effect w in
      let asked = serves w1 (asks_rights (w1.handlers i).user_id) (λ l h. refl) in
      elim (Bool-cases (require_auth env max_frame_size takes i w).0) [
        | inr out ↦ rw out first
        | inl known ↦ elim (Bool-cases (moderator_role (w1.handlers i).role)) [
          | inr plain ↦ rw (known, plain) (after first (says moderator_required w1))
          | inl claims ↦
              elim (Bool-cases (has_moderator_rights env w1.db (w1.handlers i).user_id).0) [
                | inr lost ↦
                    rw (known, claims, lost) (after first (after asked (says moderator_required _)))
                | inl has ↦ rw (known, claims, has) (after first asked)
              ]
        ]
      ]

  -- A command behind requireAuth, or behind requireModerator.
  pub guarded_auth :
      (w w2 : World)
      → Goes (require_auth env max_frame_size takes i w).1 w2
      → Goes w (
          if not (require_auth env max_frame_size takes i w).0
          then (require_auth env max_frame_size takes i w).1
          else w2)
  guarded_auth w w2 rest = elim (Bool-cases (require_auth env max_frame_size takes i w).0) [
    | inr out ↦ rw out (require_auth-Effect w)
    | inl known ↦ rw known (after (require_auth-Effect w) rest)
  ]

  pub guarded_moderator :
      (w w2 : World)
      → Goes (require_moderator env max_frame_size takes i w).1 w2
      → Goes w (
          if not (require_moderator env max_frame_size takes i w).0
          then (require_moderator env max_frame_size takes i w).1
          else w2)
  guarded_moderator w w2 rest =
      elim (Bool-cases (require_moderator env max_frame_size takes i w).0) [
        | inr out ↦ rw out (require_moderator-Effect w)
        | inl known ↦ rw known (after (require_moderator-Effect w) rest)
      ]
