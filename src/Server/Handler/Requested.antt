-- ===== src/Server/Handler/Requested.antt =====
-- Which requests to the database the steps of a handler make.
use messenger_cpp_r.Base.{
  ℕ, ◌≡◌, refl, sym, ap, ◌∙◌, inl, inr, Bool, false, List, [], ◌∷◌, ◌++◌, Bytes, Bool-cases, All,
}
use messenger_cpp_r.Server.Database.{Db, Env}
use messenger_cpp_r.Server.Database.Requests.{Request, lifts, logs_out, serve, serve_all}
use messenger_cpp_r.Server.Database.Invariant.Updates.{All-append}
use messenger_cpp_r.Server.Handler.{World, cleanup_session}
use messenger_cpp_r.Server.Handler.Commands.{open_session}
use messenger_cpp_r.Server.Handler.Effects.{Effect, talks, serves, ends, starts, after}

module _ (env : Env) (max_frame_size : ℕ) (takes : ℕ → Bool) where
  pub serve_all-append :
      (db : Db) (rs qs : List Request)
      → serve_all env db (rs ++ qs) ≡ serve_all env (serve_all env db rs) qs
  unfolding serve_all
  serve_all-append db [] qs = refl
  serve_all-append db (r ∷ rs) qs = serve_all-append (serve env db r) rs qs

  -- The tables after it are those after some requests, of which none lifts the ban of a login but those of
  -- which `k` holds.
  abbrev pub Requested : (Bytes → Bool) → Db → Db → Type 0
  Requested k a b =
      (rs : List Request) × (b ≡ serve_all env a rs)
      × ((l : Bytes) → k l ≡ false → All (λ r. lifts r l ≡ false) rs)

  Requested-refl : (k : Bytes → Bool) (a b : Db) → b ≡ a → Requested k a b
  unfolding serve_all
  Requested-refl k a b e = ([], e, λ l h. tt)

  Requested-trans :
      (k : Bytes → Bool) (a b c : Db) → Requested k a b → Requested k b c → Requested k a c
  Requested-trans k a b c (rs, e, f) (qs, e', f') = (
    rs ++ qs,
    e' ∙ ap (λ d. serve_all env d qs) e ∙ sym (serve_all-append a rs qs),
    λ l h. All-append _ rs qs (f l h) (f' l h),
  )

  cleanup_session-Requested :
      (k : Bytes → Bool) (i : ℕ) (w : World)
      → Requested k w.db (cleanup_session env max_frame_size takes i w).db
  unfolding cleanup_session serve_all serve lifts
  cleanup_session-Requested k i w = elim (Bool-cases (w.handlers i).authed) [
    | inr out ↦ rw out (Requested-refl k w.db w.db refl)
    | inl known ↦ rw known (logs_out (w.handlers i).user_id ∷ [], refl, λ l h. (refl, tt))
  ]

  pub Effect-Requested :
      {k : Bytes → Bool} (i : ℕ) {w w' : World}
      → Effect env max_frame_size takes k i w w'
      → Requested k w.db w'.db
  unfolding serve_all open_session
  Effect-Requested {k} i {w} {w'} (talks t) = Requested-refl k w.db w'.db t.db
  Effect-Requested i (serves w r held) = (r ∷ [], refl, λ l h. (held l h, tt))
  Effect-Requested {k} i (ends w) = cleanup_session-Requested k i w
  Effect-Requested {k} i (starts w result out account) = Requested-refl k w.db w.db refl
  Effect-Requested {k} i (after {a} {b} {c} first second) =
      Requested-trans k a.db b.db c.db (Effect-Requested i first) (Effect-Requested i second)
