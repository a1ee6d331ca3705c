-- ===== src/Server/Handler/Effects.antt =====
-- What a command can do to the registry, the tables and the handlers, as steps of four kinds.
use messenger_cpp_r.Base.{
  ℕ, ◌≡◌, refl, ◌∙◌, inl, inr, Bool, false, ◌&&◌, List, [], ◌∷◌, ◌++◌, Bytes, lit, length, leb,
  ◌==◌, Bool-cases, ==_iff, ℤ,
}
use messenger_cpp_r.Server.Database.{Env, LoginResult}
use messenger_cpp_r.Server.Database.Identity.{IsAccount}
use messenger_cpp_r.Server.Database.Requests.{Request, lifts, serve}
use messenger_cpp_r.Server.Handler.{
  ClientHandler, World, set_handler, send_response, respond, respond_all, deliver, deliver_to_user,
  disconnect_from_admin, disconnect_all, disconnect_user, cleanup_session,
}
use messenger_cpp_r.Server.Handler.Commands.{open_session}

-- The fields that a login sets.
abbrev pub SameUser : ClientHandler → ClientHandler → Type 0
SameUser h h' =
    (h'.authed ≡ h.authed)
    × (h'.user_id ≡ h.user_id)
    × (h'.role ≡ h.role)
    × (h'.username ≡ h.username)

-- Frames go out and sockets are closed, and nothing else happens.
pub record Talks (w w' : World) : Type 0 where
  pub db : w'.db ≡ w.db
  pub sessions : w'.sessions ≡ w.sessions
  pub handlers : (j : ℕ) → SameUser (w.handlers j) (w'.handlers j)

pub Talks-refl : (w : World) → Talks w w
Talks-refl w = record { db = refl; sessions = refl; handlers = λ j. (refl, refl, refl, refl) }

pub Talks-trans : (a b c : World) → Talks a b → Talks b c → Talks a c
Talks-trans a b c s t = record {
  db = t.db ∙ s.db;
  sessions = t.sessions ∙ s.sessions;
  handlers = λ j. (
    (t.handlers j).0 ∙ (s.handlers j).0,
    (t.handlers j).1 ∙ (s.handlers j).1,
    (t.handlers j).2 ∙ (s.handlers j).2,
    (t.handlers j).3 ∙ (s.handlers j).3,
  );
}

pub set_handler-SameUser :
    (i : ℕ) (h : ClientHandler) (w : World)
    → SameUser (w.handlers i) h
    → (j : ℕ) → SameUser (w.handlers j) ((set_handler i h w).handlers j)
set_handler-SameUser i h w s j = elim (Bool-cases (j == i)) [
  | inl here ↦ rw (here, (==_iff j i).0 here) s
  | inr there ↦ rw there (refl, refl, refl, refl)
]

module _ (env : Env) (max_frame_size : ℕ) (takes : ℕ → Bool) where
  pub respond-Talks :
      (i : ℕ) (payload : Bytes) (w : World) → Talks w (respond env max_frame_size takes i payload w)
  unfolding send_response
  respond-Talks i payload w =
      elim (Bool-cases
        (leb (length payload) max_frame_size && ((w.handlers i).connected && takes w.attempts))) [
          | inl out ↦
              rw (respond, out)
                (record {
                  db = refl;
                  sessions = refl;
                  handlers =
                      set_handler-SameUser i
                        (record (w.handlers i) { sent = (w.handlers i).sent ++ payload ∷ [] }) w
                        (refl, refl, refl, refl);
                })
          | inr lost ↦
              rw (respond, lost)
                (record { db = refl; sessions = refl; handlers = λ j. (refl, refl, refl, refl) })
        ]

  pub respond_all-Talks :
      (i : ℕ) (ps : List Bytes) (w : World) → Talks w (respond_all env max_frame_size takes i ps w)
  unfolding respond_all
  respond_all-Talks i [] w = Talks-refl w
  respond_all-Talks i (p ∷ ps) w =
      Talks-trans w _ _ (respond-Talks i p w)
        (respond_all-Talks i ps (respond env max_frame_size takes i p w))

  pub deliver-Talks :
      (hs : List ℕ) (payload : Bytes) (w : World)
      → Talks w (deliver env max_frame_size takes hs payload w).1
  unfolding deliver
  deliver-Talks [] payload w = Talks-refl w
  deliver-Talks (h ∷ hs) payload w =
      Talks-trans w _ _ (respond-Talks h payload w)
        (deliver-Talks hs payload (respond env max_frame_size takes h payload w))

  disconnect_from_admin-Talks :
      (i : ℕ) (w : World) → Talks w (disconnect_from_admin env max_frame_size takes i w)
  unfolding disconnect_from_admin
  disconnect_from_admin-Talks i w =
      let w' = respond env max_frame_size takes i (lit "KICKED") w in
      Talks-trans w w' _ (respond-Talks i (lit "KICKED") w) (record {
        db = refl;
        sessions = refl;
        handlers =
            set_handler-SameUser i (record (w'.handlers i) { connected = false }) w'
              (refl, refl, refl, refl);
      })

  disconnect_all-Talks :
      (hs : List ℕ) (w : World) → Talks w (disconnect_all env max_frame_size takes hs w)
  unfolding disconnect_all
  disconnect_all-Talks [] w = Talks-refl w
  disconnect_all-Talks (h ∷ hs) w =
      Talks-trans w _ _ (disconnect_from_admin-Talks h w)
        (disconnect_all-Talks hs (disconnect_from_admin env max_frame_size takes h w))

  pub disconnect_user-Talks :
      (user : ℤ) (w : World) → Talks w (disconnect_user env max_frame_size takes user w).1
  unfolding disconnect_user
  disconnect_user-Talks user w = disconnect_all-Talks _ w

  pub deliver_to_user-Talks :
      (user : ℤ) (payload : Bytes) (w : World)
      → Talks w (deliver_to_user env max_frame_size takes user payload w).1
  unfolding deliver_to_user
  deliver_to_user-Talks user payload w = deliver-Talks _ payload w

  -- From one world to another, by the handler `i`, where no request lifts the ban of a login but those of
  -- which `k` holds.
  pub data Effect (k : Bytes → Bool) (i : ℕ) : World → World → Type 0 where
    talks : {w w' : World} → Talks w w' → Effect k i w w'
    serves :
        (w : World) (r : Request)
        → ((l : Bytes) → k l ≡ false → lifts r l ≡ false)
        → Effect k i w (record w { db = serve env w.db r })
    ends : (w : World) → Effect k i w (cleanup_session env max_frame_size takes i w)
    starts :
        (w : World) (result : LoginResult)
        → (w.handlers i).authed ≡ false
        → IsAccount w.db.users result.login result.user_id result.role
        → Effect k i w (open_session env max_frame_size takes i result w)
    after : {a b c : World} → Effect k i a b → Effect k i b c → Effect k i a c
