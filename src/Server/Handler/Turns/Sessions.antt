-- ===== src/Server/Handler/Turns/Sessions.antt =====
-- Registration, login and logout of ClientHandler.cpp as steps.
use messenger_cpp_r.Base.{
  Option, arith, ℕ, ◌≡◌, refl, inl, inr, Bool, true, false, Bytes, ==_refl, Bool-cases, ℤ,
}
use messenger_cpp_r.Server.Database.{Env}
use messenger_cpp_r.Server.Database.Accounts.{login_user}
use messenger_cpp_r.Server.Database.{Role, DbStatus, ok}
use messenger_cpp_r.Server.Database.Identity.{IsAccount, serve-IsAccount, login_user-IsAccount}
use messenger_cpp_r.Server.Database.Requests.{lifts, logs_out, serve, registers, logs_in}
use messenger_cpp_r.Server.Handler.{World, cleanup_session}
use messenger_cpp_r.Server.Handler.Commands.{is_ok, handle_register, handle_login, handle_logout}
use messenger_cpp_r.Server.Handler.Effects.{serves, ends, starts, after}
use messenger_cpp_r.Server.Handler.Guards.{Goes, says}

module _ (env : Env) (max_frame_size : ℕ) (takes : ℕ → Bool) (k : Bytes → Bool) (i : ℕ) where
  pub handle_register-Effect :
      (l p : Bytes) (w : World)
      → Goes env max_frame_size takes k i w (handle_register env max_frame_size takes i l p w)
  unfolding handle_register serve lifts
  handle_register-Effect l p w =
      after (serves w (registers l p) (λ x h. refl)) (says env max_frame_size takes k i _ _)

  cleaned : (w : World) → ((cleanup_session env max_frame_size takes i w).handlers i).authed ≡ false
  unfolding cleanup_session
  cleaned w = elim (Bool-cases (w.handlers i).authed) [ inl h ↦ rw (h, ==_refl i) | inr h ↦ rw h h ]

  cleanup_session-IsAccount :
      (w : World) (l : Bytes) (id : ℤ) (role : Option Role)
      → IsAccount w.db.users l id role
      → IsAccount (cleanup_session env max_frame_size takes i w).db.users l id role
  unfolding cleanup_session serve lifts
  cleanup_session-IsAccount w l id role h = elim (Bool-cases (w.handlers i).authed) [
    | inr out ↦ rw out h
    | inl known ↦ rw known (serve-IsAccount env w.db (logs_out (w.handlers i).user_id) l id role h)
  ]

  pub is_ok-ok : (s : DbStatus) → is_ok s ≡ true → s ≡ ok
  is_ok-ok s h = ground arith

  pub handle_login-Effect :
      (l p : Bytes) (w : World)
      → Goes env max_frame_size takes k i w (handle_login env max_frame_size takes i l p w)
  unfolding handle_login serve lifts
  handle_login-Effect l p w = elim (Bool-cases (is_ok (login_user env w.db l p).0.status)) [
    | inr out ↦
        rw out
          (after (serves w (logs_in l p) (λ x h. refl)) (says env max_frame_size takes k i _ _))
    | inl done ↦ rw done (
        after (serves w (logs_in l p) (λ x h. refl)) (
          after (ends _) (
            after
              (starts _ (login_user env w.db l p).0 (cleaned _) (
                cleanup_session-IsAccount (record w { db = (login_user env w.db l p).1 }) _ _ _
                  (login_user-IsAccount env w.db l p (is_ok-ok _ done))))
              (says env max_frame_size takes k i _ _))))
  ]

  pub handle_logout-Effect :
      (w : World) → Goes env max_frame_size takes k i w (handle_logout env max_frame_size takes i w)
  unfolding handle_logout
  handle_logout-Effect w = elim (Bool-cases (w.handlers i).authed) [
    | inr out ↦ rw out (says env max_frame_size takes k i _ _)
    | inl done ↦ rw done (after (ends w) (says env max_frame_size takes k i _ _))
  ]
