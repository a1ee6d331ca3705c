-- ===== src/Server/Handler/Consistency.antt =====
-- ClientHandler.cpp and SessionRegistry.cpp: the registry, the handlers and the tables under any
-- sequence of turns.
use messenger_cpp_r.Base.{
  ℕ, ◌+◌, ◌≡◌, refl, sym, ap, ◌∙◌, inl, inr, Bool, true, false, ◌&&◌, List, [], ◌∷◌, ◌++◌, arith,
  Bytes, ◌==◌, ==_iff, if◌then◌else◌, Bool-cases, ℤ, eqb_ℤ,
}
use messenger_cpp_r.Tcp.Protocol.{ReceiveFrameStatus}
use messenger_cpp_r.Server.Database.{Env, LoginResult}
use messenger_cpp_r.Server.Database.Requests.{Request, serve_all}
use messenger_cpp_r.Server.Database.Invariant.{IsValid}
use messenger_cpp_r.Server.Database.Invariant.Preserved.{serve_all-IsValid}
use messenger_cpp_r.Server.Sessions.{handlers_of}
use messenger_cpp_r.Server.Sessions.Counts.{
  count, IsMap, count-add_session, count-remove_session, add_session-IsMap, remove_session-IsMap,
}
use messenger_cpp_r.Server.Handler.{ClientHandler, World, cleanup_session}
use messenger_cpp_r.Server.Handler.Commands.{open_session, turn}
use messenger_cpp_r.Server.Handler.Effects.{Talks, Effect, talks, serves, ends, starts, after}
use messenger_cpp_r.Server.Handler.Turns.{turn-Effect}
use messenger_cpp_r.Server.Handler.Requested.{serve_all-append, Effect-Requested}

-- How often the handler should stand under the user.
abbrev pub expected : ClientHandler → ℤ → ℕ
expected h v = if h.authed && eqb_ℤ h.user_id v then 1 else 0

-- Every handler stands in the registry once under the user it is logged in as, and nowhere else.
pub record IsConsistent (w : World) : Type 0 where
  pub map : IsMap w.sessions
  pub entries : (j : ℕ) (v : ℤ) → count j (handlers_of v w.sessions) ≡ expected (w.handlers j) v

Talks-IsConsistent : (w w' : World) → Talks w w' → IsConsistent w → IsConsistent w'
Talks-IsConsistent w w' t c = record {
  map = rw t.sessions c.map;
  entries = λ j v. let (a, u, r, n) = t.handlers j in rw (t.sessions, a, u) (c.entries j v);
}

-- The entry of a session that ends, and those of the others; a session that starts.
all_gone : (b : Bool) (n : ℕ) → n ≡ (if b then 1 else 0) → (if b && true then 0 else n) ≡ 0
all_gone true n e = refl
all_gone false n e = e

none_gone : (b : Bool) (n : ℕ) → (if b && false then 0 else n) ≡ n
none_gone true n = refl
none_gone false n = refl

all_added : (b : Bool) (n : ℕ) → n ≡ 0 → n + (if b then 1 else 0) ≡ (if b then 1 else 0)
all_added b n e = rw e (ground arith)

none_added : (b : Bool) (n : ℕ) → n + (if b then 0 else 0) ≡ n
none_added true n = ground arith
none_added false n = ground arith

module _ (env : Env) (max_frame_size : ℕ) (takes : ℕ → Bool) where
  cleanup_session-IsConsistent :
      (i : ℕ) (w : World)
      → IsConsistent w
      → IsConsistent (cleanup_session env max_frame_size takes i w)
  unfolding cleanup_session
  cleanup_session-IsConsistent i w c = elim (Bool-cases (w.handlers i).authed) [
    | inr out ↦ rw out c
    | inl known ↦ rw known (record {
      map = remove_session-IsMap (w.handlers i).user_id i w.sessions c.map;
      entries = λ j v.
          count-remove_session (w.handlers i).user_id v i j w.sessions c.map
          ∙ elim (Bool-cases (j == i)) [
            | inl here ↦ rw here (
                rw ((==_iff j i).0 here)
                  (all_gone (eqb_ℤ (w.handlers i).user_id v) _ (rw known at (c.entries i v))))
            | inr there ↦ rw there (none_gone (eqb_ℤ (w.handlers i).user_id v) _ ∙ c.entries j v)
          ];
    })
  ]

  open_session-IsConsistent :
      (i : ℕ) (w : World) (result : LoginResult)
      → (w.handlers i).authed ≡ false
      → IsConsistent w
      → IsConsistent (open_session env max_frame_size takes i result w)
  unfolding open_session
  open_session-IsConsistent i w result out c = record {
    map = add_session-IsMap result.user_id i w.sessions c.map;
    entries = λ j v.
        count-add_session result.user_id v i j w.sessions ∙ elim (Bool-cases (j == i)) [
          | inl here ↦ rw here (
              rw ((==_iff j i).0 here)
                (all_added (eqb_ℤ result.user_id v) _ (rw out at (c.entries i v))))
          | inr there ↦ rw there (none_added (eqb_ℤ result.user_id v) _ ∙ c.entries j v)
        ];
  }

  Effect-IsConsistent :
      {k : Bytes → Bool} (i : ℕ) {w w' : World}
      → Effect env max_frame_size takes k i w w'
      → IsConsistent w
      → IsConsistent w'
  Effect-IsConsistent i {w} {w'} (talks t) c = Talks-IsConsistent w w' t c
  Effect-IsConsistent i (serves w r held) c = record { map = c.map; entries = c.entries }
  Effect-IsConsistent i (ends w) c = cleanup_session-IsConsistent i w c
  Effect-IsConsistent i (starts w result out account) c = open_session-IsConsistent i w result out c
  Effect-IsConsistent i (after first second) c =
      Effect-IsConsistent i second (Effect-IsConsistent i first c)

  -- The turns of the handlers, each with what receiveFrame gave, in the order they happen.
  unfoldable pub run_turns : List (ℕ × ReceiveFrameStatus × Bytes) → World → World
  run_turns [] w = w
  run_turns ((i, status, frame) ∷ ts) w =
      run_turns ts (turn env max_frame_size takes i status frame w)

  -- After any sequence of turns of any handlers, errors and the ends of connections included, every
  -- handler stands in the registry exactly once under the user it is logged in as and nowhere else,
  -- and no user has an empty entry or two entries, if this held before.
  pub run_turns-IsConsistent :
      (ts : List (ℕ × ReceiveFrameStatus × Bytes)) (w : World)
      → IsConsistent w
      → IsConsistent (run_turns ts w)
  unfolding run_turns
  run_turns-IsConsistent [] w c = c
  run_turns-IsConsistent ((i, status, frame) ∷ ts) w c =
      run_turns-IsConsistent ts _
        (Effect-IsConsistent i (turn-Effect env max_frame_size takes i status frame w) c)

  run_turns-Requested :
      (ts : List (ℕ × ReceiveFrameStatus × Bytes)) (w : World)
      → (rs : List Request) × ((run_turns ts w).db ≡ serve_all env w.db rs)
  unfolding run_turns serve_all
  run_turns-Requested [] w = ([], refl)
  run_turns-Requested ((i, status, frame) ∷ ts) w =
      let w' = turn env max_frame_size takes i status frame w in
      let (rs, e, _) =
        Effect-Requested env max_frame_size takes i
          (turn-Effect env max_frame_size takes i status frame w) in
      let (qs, f) = run_turns-Requested ts w' in
      (
        rs ++ qs,
        f
            ∙ ap (λ d. serve_all env d qs) e
            ∙ sym (serve_all-append env max_frame_size takes w.db rs qs),
      )

  -- Whatever frames the clients send, in whatever order, the tables stay valid: logins well formed,
  -- logins and ids without doubles, ids below the sequences, messages between existing users and of 1
  -- to 4096 bytes.
  pub run_turns-IsValid :
      (ts : List (ℕ × ReceiveFrameStatus × Bytes)) (w : World)
      → IsValid w.db
      → IsValid (run_turns ts w).db
  run_turns-IsValid ts w v =
      let (rs, e) = run_turns-Requested ts w in rw e (serve_all-IsValid env w.db rs v)
