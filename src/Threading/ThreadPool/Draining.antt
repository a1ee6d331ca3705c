-- ===== src/Threading/ThreadPool/Draining.antt =====
-- A pool that was stopped runs what it accepted and ends.
use messenger_cpp_r.Base.{
  Bool-cases, ◌⊎◌, ◌||◌, false≢true, ℕ, zero, suc, ◌+◌, ◌≤◌, ◌<◌, ◌≡◌, refl, sym, ap, ◌∙◌, inl, inr,
  Bool, true, false, List, [], ◌∷◌, ◌++◌, map, append-nil, arith, length,
}
use messenger_cpp_r.Server.Sessions.Counts.{count}
use messenger_cpp_r.Threading.ThreadPool.Steps.{
  in_work, measure, some_gone, all_gone, is_alive, KeepsAll, step_at-KeepsAll, is_gone, is_asleep,
  some_asleep,
}
use messenger_cpp_r.Threading.ThreadPool.Waking.{notify_all-some_asleep}
use messenger_cpp_r.Threading.ThreadPool.{
  Worker, waiting, asleep, running, gone, notifies_all, Queue, new_queue, new_workers, step_at,
  PoolEvent, stops, works, pool_step, run,
}
use messenger_cpp_r.Threading.ThreadPool.Invariant.{
  IsPool, run-IsPool, new_workers-IsPool, pool_step-IsPool, pool_step-as_many, run-as_many,
  length-new_workers, set_stop-stop, run-stop,
}

-- Nothing is left to do, and what was accepted is done.
pub record IsDrained (q : Queue) : Type 0 where
  pub empty : q.tasks ≡ []
  pub in_order : q.started ≡ q.accepted
  pub finished : (t : ℕ) → count t q.finished ≡ count t q.accepted

-- Every step is one of a worker that can step.
abbrev pub AreAlive : List ℕ → List Worker × Queue → Type 0
AreAlive [] p = Unit {0}
AreAlive (i ∷ is) p = (is_alive p.0 i ≡ true) × AreAlive is (pool_step (works i) p)

run-measure :
    (is : List ℕ) (p : List Worker × Queue)
    → p.1.stop ≡ true
    → AreAlive is p
    → length is + measure (run (map works is) p) ≡ measure p
unfolding run pool_step
run-measure [] p stopped h = omega arith
run-measure (i ∷ is) (ws, q) stopped (alive, h) =
    let k = step_at-KeepsAll ws i q in
    omega (arith, k.shorter stopped alive, run-measure is (step_at ws i q) (k.stop ∙ stopped) h)

-- In a pool that was stopped nobody falls asleep.
step_at-awake :
    (ws : List Worker) (i : ℕ) (q : Queue)
    → q.stop ≡ true
    → some_asleep ws ≡ false
    → some_asleep (step_at ws i q).0 ≡ false
step_at-awake ws i q h awake = elim (Bool-cases (some_asleep (step_at ws i q).0)) [
  | inr none ↦ none
  | inl some ↦ absurd (false≢true (sym awake ∙ KeepsAll.awake (step_at-KeepsAll ws i q) h some))
]

works-awake :
    (is : List ℕ) (p : List Worker × Queue)
    → p.1.stop ≡ true
    → some_asleep p.0 ≡ false
    → some_asleep (run (map works is) p).0 ≡ false
unfolding run pool_step
works-awake [] p h awake = awake
works-awake (i ∷ is) (ws, q) h awake =
    works-awake is (step_at ws i q) (KeepsAll.stop (step_at-KeepsAll ws i q) ∙ h)
      (step_at-awake ws i q h awake)

none_alive-all_gone :
    (ws : List Worker)
    → some_asleep ws ≡ false
    → ((i : ℕ) → is_alive ws i ≡ false)
    → all_gone ws ≡ true
none_alive-all_gone [] awake h = refl
none_alive-all_gone (w ∷ ws) awake h =
    let (here, rest) = neither (is_asleep w) (some_asleep ws) awake in
    let gone_here : is_gone w ≡ true = ground (arith, h 0, here) in
    rw gone_here (none_alive-all_gone ws rest (λ i. h (suc i)))
  where
    neither : (a b : Bool) → (a || b) ≡ false → (a ≡ false) × (b ≡ false)
    neither true b e = absurd (false≢true (sym e))
    neither false b e = (refl, e)

-- Somebody can step, or everybody has returned.
find_alive :
    (ws : List Worker)
    → some_asleep ws ≡ false
    → ((i : ℕ) × (is_alive ws i ≡ true)) ⊎ (all_gone ws ≡ true)
find_alive [] awake = inr refl
find_alive (waiting ∷ ws) awake = inl (0, refl)
find_alive (running t ∷ ws) awake = inl (0, refl)
find_alive (asleep ∷ ws) awake = absurd (false≢true (sym awake))
find_alive (gone ∷ ws) awake = elim (find_alive ws awake) [
  | inl (i, alive) ↦ inl (suc i, alive)
  | inr over ↦ inr over
]

-- So steps lead to the end, as each leaves fewer.
steps_to_end :
    (n : ℕ) (p : List Worker × Queue)
    → measure p ≤ n
    → p.1.stop ≡ true
    → some_asleep p.0 ≡ false
    → (is : List ℕ) × AreAlive is p × (all_gone (run (map works is) p).0 ≡ true)
unfolding run pool_step
steps_to_end zero (ws, q) le h awake = elim (find_alive ws awake) [
  | inr over ↦ ([], tt, over)
  | inl (i, alive) ↦ absurd (omega (arith, le, KeepsAll.shorter (step_at-KeepsAll ws i q) h alive))
]
steps_to_end (suc n) (ws, q) le h awake = elim (find_alive ws awake) [
  | inr over ↦ ([], tt, over)
  | inl (i, alive) ↦
      let k = step_at-KeepsAll ws i q in
      let (is, ok, over) =
        steps_to_end n (step_at ws i q) (omega (arith, le, k.shorter h alive)) (k.stop ∙ h)
          (step_at-awake ws i q h awake) in
      (i ∷ is, (alive, ok), over)
]

all_gone-some_gone : (ws : List Worker) → all_gone ws ≡ true → 0 < length ws → some_gone ws ≡ true
all_gone-some_gone [] h lt = absurd (omega arith)
all_gone-some_gone (w ∷ ws) h lt = ground arith

all_gone-in_work : (t : ℕ) (ws : List Worker) → all_gone ws ≡ true → in_work t ws ≡ 0
all_gone-in_work t [] h = refl
all_gone-in_work t (waiting ∷ ws) h = absurd (false≢true h)
all_gone-in_work t (asleep ∷ ws) h = absurd (false≢true h)
all_gone-in_work t (running x ∷ ws) h = absurd (false≢true h)
all_gone-in_work t (gone ∷ ws) h = omega (arith, all_gone-in_work t ws h)

-- The workers make finitely many steps, some steps lead them all to their return, and wherever none can
-- step any more, all have returned and the work is done.
abbrev pub Drains : List Worker × Queue → Type 0
Drains p =
    ((is : List ℕ) → AreAlive is p → length is ≤ measure p)
    × ((is : List ℕ) × AreAlive is p × (all_gone (run (map works is) p).0 ≡ true))
    × ((is : List ℕ)
        → ((i : ℕ) → is_alive (run (map works is) p).0 i ≡ false)
        → (all_gone (run (map works is) p).0 ≡ true) × IsDrained (run (map works is) p).1)

IsPool-IsDrained :
    (p : List Worker × Queue) → IsPool p → 0 < length p.0 → all_gone p.0 ≡ true → IsDrained p.1
IsPool-IsDrained (ws, q) valid some_worker over =
    let empty = (valid.left (all_gone-some_gone ws over some_worker)).0 in
    let in_order : q.started ≡ q.accepted =
      sym (append-nil q.started) ∙ ap (λ xs. q.started ++ xs) (sym empty) ∙ sym valid.fifo in
    record {
      empty = empty;
      in_order = in_order;
      finished =
          λ t. omega (arith, valid.counted t, all_gone-in_work t ws over, ap (count t) in_order);
    }

IsPool-Drains :
    (p : List Worker × Queue)
    → IsPool p
    → 0 < length p.0
    → p.1.stop ≡ true
    → some_asleep p.0 ≡ false
    → Drains p
IsPool-Drains p valid some_worker stopped awake = (
  (λ is alive. omega (arith, run-measure is p stopped alive)),
  steps_to_end (measure p) p (omega arith) stopped awake,
  (λ is over.
      let end = run (map works is) p in
      let gone_all = none_alive-all_gone end.0 (works-awake is p stopped awake) over in
      (
        gone_all,
        IsPool-IsDrained end (run-IsPool (map works is) p valid)
            (omega (arith, run-as_many (map works is) p, some_worker)) gone_all,
      )),
)

-- Liveness of the destructor: after any use of a pool with a worker at least, once the flag is set and,
-- whatever happens in between, notify_all was called, the workers that have not returned can make no
-- more steps than `measure` counts, in any order; there are steps after which all have returned; and
-- wherever no worker can step any more, none sleeps, all have returned, so that the joins return, the
-- queue is empty, the tasks were started in the order they were accepted, and each was run to its end
-- as often as it was accepted.
pub stopped_pool-Drains :
    (num_threads : ℕ) (es between : List PoolEvent)
    → 0 < num_threads
    → Drains (
        pool_step notifies_all
          (run between (pool_step stops (run es (new_workers num_threads, new_queue)))))
unfolding pool_step
stopped_pool-Drains num_threads es between some_worker =
    let p = run es (new_workers num_threads, new_queue) in
    let q = run between (pool_step stops p) in
    let as_many : length (pool_step notifies_all q).0 ≡ num_threads =
      pool_step-as_many notifies_all q
      ∙ run-as_many between (pool_step stops p)
      ∙ pool_step-as_many stops p
      ∙ run-as_many es (new_workers num_threads, new_queue)
      ∙ length-new_workers num_threads in
    IsPool-Drains (pool_step notifies_all q)
      (pool_step-IsPool notifies_all q (
        run-IsPool between (pool_step stops p)
          (pool_step-IsPool stops p (run-IsPool es _ (new_workers-IsPool num_threads)))))
      (omega (arith, as_many, some_worker)) (run-stop between (pool_step stops p) (set_stop-stop p))
      (notify_all-some_asleep q.0)
