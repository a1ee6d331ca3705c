-- ===== src/Server/Handler/Banning.antt =====
-- ClientHandler.cpp: what a ban means for the frames that follow it.
use messenger_cpp_r.Base.{
  ℕ, ◌≡◌, ◌≢◌, refl, inl, inr, Bool, true, false, List, [], ◌∷◌, Bytes, lit, Bool-cases, All, ℤ,
  pos, negsuc, arith,
}
use messenger_cpp_r.Tcp.Protocol.{ReceiveFrameStatus}
use messenger_cpp_r.Server.Database.{Env, DbStatus, ok}
use messenger_cpp_r.Server.Database.Accounts.{ban_user, login_user}
use messenger_cpp_r.Server.Database.Bans.{
  HasBan, serve_all-HasBan, login_user-HasBan, ban_user-HasBan,
}
use messenger_cpp_r.Server.Database.Invariant.{IsValid}
use messenger_cpp_r.Server.Command.{ban, parse_command}
use messenger_cpp_r.Server.Handler.{World, require_moderator}
use messenger_cpp_r.Server.Handler.Commands.{
  is_ok, disconnect_if, turn, handle_frame, handle_ban, handle_login,
}
use messenger_cpp_r.Server.Handler.Effects.{SameUser, Talks, respond-Talks, disconnect_user-Talks}
use messenger_cpp_r.Server.Handler.Turns.{turn_lifts, turn-Effect}
use messenger_cpp_r.Server.Handler.Requested.{Effect-Requested}
use messenger_cpp_r.Server.Handler.Consistency.{run_turns, run_turns-IsValid}

-- No handler changes its user, and none enters or leaves the registry.
abbrev pub KeepsSessions : World → World → Type 0
KeepsSessions w w' =
    (w'.sessions ≡ w.sessions) × ((j : ℕ) → SameUser (w.handlers j) (w'.handlers j))

module _ (env : Env) (max_frame_size : ℕ) (takes : ℕ → Bool) where
  -- requireModerator lets the handler pass, and banUser answers Ok.
  abbrev pub BanSucceeds : ℕ → Bytes → World → Type 0
  BanSucceeds i l w =
      let w1 = (require_moderator env max_frame_size takes i w).1 in
      ((require_moderator env max_frame_size takes i w).0 ≡ true)
      × ((ban_user env w1.db (w1.handlers i).user_id l).0.status ≡ ok)

  not_ok : (s : DbStatus) → s ≢ ok → is_ok s ≡ false
  not_ok s h = elim (Bool-cases (is_ok s)) [ inl e ↦ absurd (h (ground arith)) | inr e ↦ e ]

  handle_login-HasBan :
      (i : ℕ) (l password : Bytes) (w : World)
      → HasBan l w.db.users
      → KeepsSessions w (handle_login env max_frame_size takes i l password w)
  unfolding handle_login
  handle_login-HasBan i l password w h = rw (not_ok _ (login_user-HasBan env w.db l password h)) (
      let w1 = record w { db = (login_user env w.db l password).1 } in
      let t = respond-Talks env max_frame_size takes i _ w1 in (t.sessions, t.handlers))

  disconnect_if-db :
      (i : ℕ) (id : ℤ) (w : World) → (disconnect_if env max_frame_size takes i id w).db ≡ w.db
  disconnect_if-db i (pos id) w =
      Talks.db (disconnect_user-Talks env max_frame_size takes (pos id) w)
  disconnect_if-db i (negsuc n) w = refl

  pub handle_ban-HasBan :
      (i : ℕ) (l : Bytes) (w : World)
      → BanSucceeds i l w
      → HasBan l (handle_ban env max_frame_size takes i l w).db.users
  unfolding handle_ban
  handle_ban-HasBan i l w (allowed, done) =
      let w1 = (require_moderator env max_frame_size takes i w).1 in
      let (result, db) = ban_user env w1.db (w1.handlers i).user_id l in
      let w2 = record w1 { db = db } in
      let w3 = disconnect_if env max_frame_size takes i result.id w2 in
      rw (allowed, done)
        (rw
          (
            Talks.db (respond-Talks env max_frame_size takes i (lit "OK") w3),
            disconnect_if-db i result.id w2,
          )
          (ban_user-HasBan env w1.db (w1.handlers i).user_id l done))

  run_turns-HasBan :
      (ts : List (ℕ × ReceiveFrameStatus × Bytes)) (w : World) (l : Bytes)
      → IsValid w.db
      → All (λ t. turn_lifts t.1 t.2 l ≡ false) ts
      → HasBan l w.db.users
      → HasBan l (run_turns env max_frame_size takes ts w).db.users
  unfolding run_turns
  run_turns-HasBan [] w l v held h = h
  run_turns-HasBan ((i, status, frame) ∷ ts) w l v (first, held) h =
      let (rs, e, quiet) =
        Effect-Requested env max_frame_size takes i
          (turn-Effect env max_frame_size takes i status frame w) in
      run_turns-HasBan ts (turn env max_frame_size takes i status frame w) l
        (run_turns-IsValid env max_frame_size takes ((i, status, frame) ∷ []) w v) held
        (rw e (serve_all-HasBan env w.db rs l v (quiet l first) h))

  -- In valid tables, after a frame BAN of a moderator that succeeded, and any turns of any handlers of
  -- which none is an UNBAN of that login: a frame LOGIN of it, with any password and from any
  -- connection, logs nobody in or out and leaves the registry as it is.
  pub banned_frames_refused :
      (ts : List (ℕ × ReceiveFrameStatus × Bytes)) (w : World) (i j : ℕ) (frame l password : Bytes)
      → IsValid w.db
      → parse_command frame ≡ ban l
      → BanSucceeds i l w
      → All (λ t. turn_lifts t.1 t.2 l ≡ false) ts
      → (let w' =
            run_turns env max_frame_size takes ts
              (turn env max_frame_size takes i ReceiveFrameStatus.ok frame w) in
          KeepsSessions w' (handle_login env max_frame_size takes j l password w'))
  unfolding turn handle_frame run_turns
  banned_frames_refused ts w i j frame l password v e done held =
      let w1 = turn env max_frame_size takes i ReceiveFrameStatus.ok frame w in
      let banned_now : HasBan l w1.db.users = rw e (handle_ban-HasBan i l w done) in
      handle_login-HasBan j l password (run_turns env max_frame_size takes ts w1) (
        run_turns-HasBan ts w1 l
          (run_turns-IsValid env max_frame_size takes ((i, ReceiveFrameStatus.ok, frame) ∷ []) w v)
          held banned_now)
