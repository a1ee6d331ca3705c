-- ===== src/Server/Handler/Identity.antt =====
-- Who a handler takes its user for.
use messenger_cpp_r.Base.{
  ℕ, minus_one, ◌≡◌, sym, ◌∙◌, inl, inr, Bool, true, false, none, List, [], ◌∷◌, Bytes, Bool-cases,
  ◌==◌,
}
use messenger_cpp_r.Tcp.Protocol.{ReceiveFrameStatus}
use messenger_cpp_r.Server.Database.{User, Env}
use messenger_cpp_r.Server.Database.Identity.{IsAccount, serve-IsAccount}
use messenger_cpp_r.Server.Database.Requests.{Request, logs_out, serve}
use messenger_cpp_r.Server.Handler.{ClientHandler, World, set_handler, cleanup_session}
use messenger_cpp_r.Server.Handler.Commands.{open_session}
use messenger_cpp_r.Server.Handler.Effects.{Talks, Effect, talks, serves, ends, starts, after}
use messenger_cpp_r.Server.Handler.Turns.{turn-Effect}
use messenger_cpp_r.Server.Handler.Consistency.{run_turns}

-- A handler that is logged in remembers the id and the role of the account with its username.
abbrev pub KnowsUser : List User → ClientHandler → Type 0
KnowsUser us h = h.authed ≡ true → IsAccount us h.username h.user_id h.role

abbrev pub KnowsUsers : World → Type 0
KnowsUsers w = (j : ℕ) → KnowsUser w.db.users (w.handlers j)

module _ (env : Env) (max_frame_size : ℕ) (takes : ℕ → Bool) where
  serves-KnowsUsers :
      (w : World) (r : Request) → KnowsUsers w → KnowsUsers (record w { db = serve env w.db r })
  serves-KnowsUsers w r k j h = serve-IsAccount env w.db r _ _ _ (k j h)

  Talks-KnowsUsers : {w w' : World} → Talks w w' → KnowsUsers w → KnowsUsers w'
  Talks-KnowsUsers t k j h = let (a, u, r, n) = t.handlers j in rw (t.db, u, r, n) (k j (sym a ∙ h))

  set_handler-KnowsUsers :
      (i : ℕ) (h : ClientHandler) (w : World)
      → KnowsUser w.db.users h
      → KnowsUsers w
      → KnowsUsers (set_handler i h w)
  set_handler-KnowsUsers i h w new k j = elim (Bool-cases (j == i)) [
    | inl here ↦ rw here new
    | inr there ↦ rw there (k j)
  ]

  cleanup_session-KnowsUsers :
      (i : ℕ) (w : World) → KnowsUsers w → KnowsUsers (cleanup_session env max_frame_size takes i w)
  unfolding cleanup_session serve
  cleanup_session-KnowsUsers i w k = elim (Bool-cases (w.handlers i).authed) [
    | inr out ↦ rw out k
    | inl known ↦ rw known (
        set_handler-KnowsUsers i
          (record (w.handlers i) {
            authed = false;
            user_id = minus_one;
            username = [];
            role = none;
          })
          (record w { db = serve env w.db (logs_out (w.handlers i).user_id) }) (λ e. cc e)
          (serves-KnowsUsers w (logs_out (w.handlers i).user_id) k))
  ]

  Effect-KnowsUsers :
      {k : Bytes → Bool} (i : ℕ) {w w' : World}
      → Effect env max_frame_size takes k i w w'
      → KnowsUsers w
      → KnowsUsers w'
  unfolding open_session
  Effect-KnowsUsers i (talks t) k = Talks-KnowsUsers t k
  Effect-KnowsUsers i (serves w r held) k = serves-KnowsUsers w r k
  Effect-KnowsUsers i (ends w) k = cleanup_session-KnowsUsers i w k
  Effect-KnowsUsers i (starts w result out account) k =
      set_handler-KnowsUsers i
        (record (w.handlers i) {
          authed = true;
          user_id = result.user_id;
          username = result.login;
          role = result.role;
        })
        w (λ e. account) k
  Effect-KnowsUsers i (after first second) k =
      Effect-KnowsUsers i second (Effect-KnowsUsers i first k)

  -- After any sequence of turns of any handlers, every handler that is logged in remembers the id and
  -- the role that the table has for its username, if this held before.
  pub run_turns-KnowsUsers :
      (ts : List (ℕ × ReceiveFrameStatus × Bytes)) (w : World)
      → KnowsUsers w
      → KnowsUsers (run_turns env max_frame_size takes ts w)
  unfolding run_turns
  run_turns-KnowsUsers [] w k = k
  run_turns-KnowsUsers ((i, status, frame) ∷ ts) w k =
      run_turns-KnowsUsers ts _
        (Effect-KnowsUsers i (turn-Effect env max_frame_size takes i status frame w) k)
