-- ===== src/Threading/ThreadPool/Steps.antt =====
-- What the step of one worker keeps, and how far it brings a stopped pool.
use messenger_cpp_r.Base.{
  false≢true, ℕ, zero, suc, ◌+◌, ◌*◌, ◌≡◌, refl, sym, ap, ◌∙◌, ◌⊎◌, inl, inr, not, Bool, true,
  false, ◌&&◌, ◌||◌, List, [], ◌∷◌, ◌++◌, append_assoc, arith, length, ◌==◌, if◌then◌else◌,
}
use messenger_cpp_r.Server.Sessions.Counts.{count, count-append}
use messenger_cpp_r.Threading.ThreadPool.{
  Worker, waiting, asleep, running, gone, Queue, take_task, worker_step, step_at,
}

abbrev pub at_worker : ℕ → Worker → ℕ
at_worker t waiting = 0
at_worker t (running x) = if x == t then 1 else 0
at_worker t asleep = 0
at_worker t gone = 0

abbrev pub in_work : ℕ → List Worker → ℕ
in_work t [] = 0
in_work t (w ∷ ws) = at_worker t w + in_work t ws

abbrev pub weight : Worker → ℕ
weight waiting = 1
weight (running x) = 2
weight asleep = 1
weight gone = 0

abbrev pub steps_left : List Worker → ℕ
steps_left [] = 0
steps_left (w ∷ ws) = weight w + steps_left ws

-- How many steps a stopped pool has left.
abbrev pub measure : List Worker × Queue → ℕ
measure (ws, q) = 2 * length q.tasks + steps_left ws

abbrev pub is_gone : Worker → Bool
is_gone waiting = false
is_gone asleep = false
is_gone (running x) = false
is_gone gone = true

abbrev pub some_gone : List Worker → Bool
some_gone [] = false
some_gone (w ∷ ws) = is_gone w || some_gone ws

abbrev pub all_gone : List Worker → Bool
all_gone [] = true
all_gone (w ∷ ws) = is_gone w && all_gone ws

abbrev pub is_asleep : Worker → Bool
is_asleep waiting = false
is_asleep asleep = true
is_asleep (running x) = false
is_asleep gone = false

abbrev pub some_asleep : List Worker → Bool
some_asleep [] = false
some_asleep (w ∷ ws) = is_asleep w || some_asleep ws

-- What the step of one worker does to the queue and to the worker.
record Keeps (w : Worker) (q : Queue) (w' : Worker) (q' : Queue) : Type 0 where
  stop : q'.stop ≡ q.stop
  accepted : q'.accepted ≡ q.accepted
  fifo : q'.started ++ q'.tasks ≡ q.started ++ q.tasks
  counted :
      (t : ℕ)
      → count t q'.started + count t q.finished + at_worker t w
        ≡ count t q.started + count t q'.finished + at_worker t w'
  empty : q.tasks ≡ [] → q'.tasks ≡ []
  leaves : is_gone w' ≡ true → (is_gone w ≡ true) ⊎ ((q.tasks ≡ []) × (q.stop ≡ true))
  awake : q.stop ≡ true → is_asleep w' ≡ true → is_asleep w ≡ true
  shorter :
      q.stop ≡ true
      → is_gone w || is_asleep w ≡ false
      → 2 * length q'.tasks + weight w' + 1 ≡ 2 * length q.tasks + weight w

take_task-Keeps :
    (ts : List ℕ) (q : Queue) → q.tasks ≡ ts → Keeps waiting q (take_task ts q).0 (take_task ts q).1
unfolding count
take_task-Keeps [] q e = record {
  stop = refl;
  accepted = refl;
  fifo = refl;
  counted = λ t. ground arith;
  empty = λ f. f;
  leaves = λ f. inr (e, ground arith);
  awake = λ f g. ground arith;
  shorter = λ f g. ground arith;
}
take_task-Keeps (t ∷ ts) q e = record {
  stop = refl;
  accepted = refl;
  fifo = append_assoc q.started (t ∷ []) ts ∙ ap (λ x. q.started ++ x) (sym e);
  counted = λ x. ground (arith, count-append x q.started (t ∷ []));
  empty = λ f. absurd (ground arith);
  leaves = λ f. absurd (false≢true f);
  awake = λ f g. absurd (false≢true g);
  shorter = λ f g. ground (arith, e);
}

worker_step-Keeps : (w : Worker) (q : Queue) → Keeps w q (worker_step w q).0 (worker_step w q).1
unfolding worker_step count
worker_step-Keeps waiting q = take_task-Keeps q.tasks q refl
worker_step-Keeps (running t) q = record {
  stop = refl;
  accepted = refl;
  fifo = refl;
  counted = λ x. ground (arith, count-append x q.finished (t ∷ []));
  empty = λ f. f;
  leaves = λ f. absurd (false≢true f);
  awake = λ f g. absurd (false≢true g);
  shorter = λ f g. omega arith;
}
worker_step-Keeps asleep q = record {
  stop = refl;
  accepted = refl;
  fifo = refl;
  counted = λ x. refl;
  empty = λ f. f;
  leaves = λ f. absurd (false≢true f);
  awake = λ f g. refl;
  shorter = λ f g. absurd (false≢true (sym g));
}
worker_step-Keeps gone q = record {
  stop = refl;
  accepted = refl;
  fifo = refl;
  counted = λ x. refl;
  empty = λ f. f;
  leaves = λ f. inl refl;
  awake = λ f g. absurd (false≢true g);
  shorter = λ f g. absurd (false≢true (sym g));
}

spread :
    {X : Type 0} (a a' b b' : Bool)
    → (a' ≡ true → (a ≡ true) ⊎ X)
    → (b' ≡ true → (b ≡ true) ⊎ X)
    → (a' || b') ≡ true
    → ((a || b) ≡ true) ⊎ X
spread a true b b' f g h = elim (f refl) [ inl e ↦ inl (rw e refl) | inr x ↦ inr x ]
spread a false b b' f g h = elim (g h) [ inl e ↦ inl (ground (arith, e)) | inr x ↦ inr x ]

either :
    (a a' b b' : Bool)
    → (a' ≡ true → a ≡ true)
    → (b' ≡ true → b ≡ true)
    → (a' || b') ≡ true
    → (a || b) ≡ true
either a true b b' f g h = ground (arith, f refl)
either a false b b' f g h = ground (arith, g h)

-- Worker `i` can step: it has not returned, and does not sleep.
abbrev pub is_alive : List Worker → ℕ → Bool
is_alive [] i = false
is_alive (w ∷ ws) zero = not (is_gone w || is_asleep w)
is_alive (w ∷ ws) (suc i) = is_alive ws i

-- What the step of one does among all workers.
pub record KeepsAll (ws : List Worker) (i : ℕ) (q : Queue) (ws' : List Worker) (q' : Queue)
    : Type 0 where
  pub stop : q'.stop ≡ q.stop
  pub accepted : q'.accepted ≡ q.accepted
  pub fifo : q'.started ++ q'.tasks ≡ q.started ++ q.tasks
  pub counted :
      (t : ℕ)
      → count t q'.started + count t q.finished + in_work t ws
        ≡ count t q.started + count t q'.finished + in_work t ws'
  pub empty : q.tasks ≡ [] → q'.tasks ≡ []
  pub leaves : some_gone ws' ≡ true → (some_gone ws ≡ true) ⊎ ((q.tasks ≡ []) × (q.stop ≡ true))
  pub awake : q.stop ≡ true → some_asleep ws' ≡ true → some_asleep ws ≡ true
  pub shorter :
      q.stop ≡ true
      → is_alive ws i ≡ true
      → 2 * length q'.tasks + steps_left ws' + 1 ≡ 2 * length q.tasks + steps_left ws
  pub as_many : length ws' ≡ length ws

pub step_at-KeepsAll :
    (ws : List Worker) (i : ℕ) (q : Queue) → KeepsAll ws i q (step_at ws i q).0 (step_at ws i q).1
unfolding step_at
step_at-KeepsAll [] i q = record {
  stop = refl;
  accepted = refl;
  fifo = refl;
  counted = λ t. refl;
  empty = λ f. f;
  leaves = λ f. inl f;
  awake = λ f g. g;
  shorter = λ f g. absurd (false≢true g);
  as_many = refl;
}
step_at-KeepsAll (w ∷ ws) zero q =
    let k = worker_step-Keeps w q in
    record {
      stop = k.stop;
      accepted = k.accepted;
      fifo = k.fifo;
      counted = λ t. omega (arith, k.counted t);
      empty = k.empty;
      leaves =
          spread (is_gone w) (is_gone (worker_step w q).0) (some_gone ws) (some_gone ws) k.leaves
            (λ f. inl f);
      awake = λ f. either _ _ _ _ (k.awake f) (λ g. g);
      shorter = λ f g. omega (arith, k.shorter f (ground arith));
      as_many = refl;
    }
step_at-KeepsAll (w ∷ ws) (suc i) q =
    let k = step_at-KeepsAll ws i q in
    record {
      stop = k.stop;
      accepted = k.accepted;
      fifo = k.fifo;
      counted = λ t. omega (arith, k.counted t);
      empty = k.empty;
      leaves =
          spread (is_gone w) (is_gone w) (some_gone ws) (some_gone (step_at ws i q).0) (λ f. inl f)
            k.leaves;
      awake = λ f. either _ _ _ _ (λ g. g) (k.awake f);
      shorter = λ f g. omega (arith, k.shorter f g);
      as_many = omega (arith, k.as_many);
    }
