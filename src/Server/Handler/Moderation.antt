-- ===== src/Server/Handler/Moderation.antt =====
-- What handleBan answers on its own connection, and what it has done then.
use messenger_cpp_r.Base.{
  ℕ, ◌≡◌, refl, sym, ◌⊎◌, inl, inr, Bool, true, false, ◌&&◌, List, [], ◌∷◌, ◌++◌, Bytes, lit,
  length, leb, Bool-cases, arith,
}
use messenger_cpp_r.Server.Database.{Env}
use messenger_cpp_r.Server.Database.Accounts.{ban_user, has_moderator_rights}
use messenger_cpp_r.Server.Database.Bans.{HasBan}
use messenger_cpp_r.Server.Handler.{
  ClientHandler, World, respond, send_response, set_handler, require_auth, require_moderator,
  moderator_role, status_to_text,
}
use messenger_cpp_r.Server.Handler.Commands.{is_ok, handle_ban}
use messenger_cpp_r.Server.Handler.Turns.Sessions.{is_ok-ok}
use messenger_cpp_r.Server.Handler.Banning.{handle_ban-HasBan}

-- Nothing goes out on a connection, or one frame that begins with an E.
abbrev pub Complains : List Bytes → List Bytes → Type 0
Complains old new = (new ≡ old) ⊎ ((m : Bytes) × (new ≡ old ++ (b'E' ∷ m) ∷ []))

module _ (env : Env) (max_frame_size : ℕ) (takes : ℕ → Bool) (i : ℕ) where
  abbrev sent : World → List Bytes
  sent w = (w.handlers i).sent

  set_handler-sent : (h : ClientHandler) (w : World) → sent (set_handler i h w) ≡ h.sent
  set_handler-sent h w = ground arith

  respond-Complains :
      (m : Bytes) (w : World)
      → Complains (sent w) (sent (respond env max_frame_size takes i (b'E' ∷ m) w))
  unfolding send_response
  respond-Complains m w =
      elim (Bool-cases (
        leb (length (b'E' ∷ m)) max_frame_size && ((w.handlers i).connected && takes w.attempts))) [
          | inl out ↦
              rw (respond, out)
                (inr (
                  m,
                  set_handler-sent
                      (record (w.handlers i) { sent = (w.handlers i).sent ++ (b'E' ∷ m) ∷ [] }) w,
                ))
          | inr lost ↦ rw (respond, lost) (inl refl)
        ]

  -- requireModerator passes in silence.
  abbrev Guarded : Bool × World → World → Type 0
  Guarded (allowed, w1) w =
      ((allowed ≡ true) × (sent w1 ≡ sent w)) ⊎ ((allowed ≡ false) × Complains (sent w) (sent w1))

  require_moderator-Guarded :
      (w : World) → Guarded (require_moderator env max_frame_size takes i w) w
  unfolding require_moderator require_auth
  require_moderator-Guarded w = elim (Bool-cases (w.handlers i).authed) [
    | inr out ↦ rw out (inr (refl, respond-Complains (lit "RROR_NOT_AUTH") w))
    | inl known ↦ rw known (elim (Bool-cases (moderator_role (w.handlers i).role)) [
      | inr plain ↦
          rw plain (inr (refl, respond-Complains (lit "RROR_FORBIDDEN moderator role required") w))
      | inl claims ↦ rw claims (
          let (rights, db) = has_moderator_rights env w.db (w.handlers i).user_id in
          elim (Bool-cases (has_moderator_rights env w.db (w.handlers i).user_id).0) [
            | inr lost ↦ rw lost (
                inr (
                  refl,
                  respond-Complains (lit "RROR_FORBIDDEN moderator role required")
                      (record w { db = db }),
                ))
            | inl has ↦ rw has (inl (refl, refl))
          ])
    ])
  ]

  -- Either the account is banned now, or the connection is told of an error, or of nothing.
  pub handle_ban-answer :
      (l : Bytes) (w : World)
      → HasBan l (handle_ban env max_frame_size takes i l w).db.users
        ⊎ Complains (sent w) (sent (handle_ban env max_frame_size takes i l w))
  unfolding handle_ban
  handle_ban-answer l w =
      let w1 = (require_moderator env max_frame_size takes i w).1 in
      let (result, db) = ban_user env w1.db (w1.handlers i).user_id l in
      elim (require_moderator-Guarded w) [
        | inr (refused, told) ↦ inr (rw refused told)
        | inl (allowed, silent) ↦ elim (Bool-cases (is_ok result.status)) [
          | inl done ↦ inl (
              handle_ban-HasBan env max_frame_size takes i l w
                (allowed, is_ok-ok env max_frame_size takes (λ x. false) i _ done))
          | inr failed ↦ inr (
              rw (allowed, failed)
                (rw (sym silent) (
                  respond-Complains
                    (lit "RROR_" ++ status_to_text result.status ++ 32 ∷ result.message)
                    (record w1 { db = db }))))
        ]
      ]
