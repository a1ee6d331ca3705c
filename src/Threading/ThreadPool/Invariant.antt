-- ===== src/Threading/ThreadPool/Invariant.antt =====
-- What holds of a pool at any time: first in, first out, and every task that was taken is in work or done.
use messenger_cpp_r.Base.{
  false≢true, ℕ, zero, suc, ◌+◌, ◌≡◌, refl, sym, ap, ◌∙◌, inl, inr, Bool, true, false, List, [],
  ◌∷◌, ◌++◌, append_assoc, arith, length,
}
use messenger_cpp_r.Server.Sessions.Counts.{count}
use messenger_cpp_r.Threading.ThreadPool.Steps.{in_work, some_gone, KeepsAll, step_at-KeepsAll}
use messenger_cpp_r.Threading.ThreadPool.Waking.{Wakes, wake_at-Wakes, notify_all-Wakes}
use messenger_cpp_r.Threading.ThreadPool.{
  Worker, wake_at, notify_all, notifies_all, wakes, Queue, new_queue, new_workers, enqueue,
  enqueue_on, set_stop, step_at, PoolEvent, enqueues, stops, works, pool_step, run,
}

pub record IsPool (p : List Worker × Queue) : Type 0 where
  pub fifo : p.1.accepted ≡ p.1.started ++ p.1.tasks
  pub counted : (t : ℕ) → count t p.1.started ≡ count t p.1.finished + in_work t p.0
  pub left : some_gone p.0 ≡ true → (p.1.tasks ≡ []) × (p.1.stop ≡ true)

step_at-IsPool : (ws : List Worker) (i : ℕ) (q : Queue) → IsPool (ws, q) → IsPool (step_at ws i q)
step_at-IsPool ws i q v =
    let k = step_at-KeepsAll ws i q in
    record {
      fifo = k.accepted ∙ v.fifo ∙ sym k.fifo;
      counted = λ t. omega (arith, v.counted t, k.counted t);
      left = λ f. elim (k.leaves f) [
        | inl g ↦ (k.empty (v.left g).0, k.stop ∙ (v.left g).1)
        | inr (e, s) ↦ (k.empty e, k.stop ∙ s)
      ];
    }

enqueue_on-IsPool :
    (t : ℕ) (b : Bool) (ws : List Worker) (q : Queue)
    → IsPool (ws, q)
    → q.stop ≡ b
    → IsPool (ws, (enqueue_on t b q).1)
enqueue_on-IsPool t true ws q v stopped = v
enqueue_on-IsPool t false ws q v open_pool = record {
  fifo = ap (λ xs. xs ++ t ∷ []) v.fifo ∙ append_assoc q.started q.tasks (t ∷ []);
  counted = v.counted;
  left = λ f. absurd (false≢true (sym open_pool ∙ (v.left f).1));
}

Wakes-IsPool : (ws ws' : List Worker) (q : Queue) → Wakes ws ws' → IsPool (ws, q) → IsPool (ws', q)
Wakes-IsPool ws ws' q k v = record {
  fifo = v.fifo;
  counted = λ t. v.counted t ∙ ap (λ n. count t q.finished + n) (sym (k.in_work_same t));
  left = λ f. v.left (sym k.gone_same ∙ f);
}

pub pool_step-IsPool : (e : PoolEvent) (p : List Worker × Queue) → IsPool p → IsPool (pool_step e p)
unfolding pool_step enqueue set_stop
pool_step-IsPool (works i) (ws, q) v = step_at-IsPool ws i q v
pool_step-IsPool (wakes i) (ws, q) v = Wakes-IsPool ws (wake_at ws i) q (wake_at-Wakes ws i) v
pool_step-IsPool notifies_all (ws, q) v = Wakes-IsPool ws (notify_all ws) q (notify_all-Wakes ws) v
pool_step-IsPool stops (ws, q) v = record {
  fifo = v.fifo;
  counted = v.counted;
  left = λ f. ((v.left f).0, refl);
}
pool_step-IsPool (enqueues t) (ws, q) v = enqueue_on-IsPool t q.stop ws q v refl

pub run-IsPool : (es : List PoolEvent) (p : List Worker × Queue) → IsPool p → IsPool (run es p)
unfolding run
run-IsPool [] p v = v
run-IsPool (e ∷ es) p v = run-IsPool es (pool_step e p) (pool_step-IsPool e p v)

new_workers-some_gone : (n : ℕ) → some_gone (new_workers n) ≡ false
new_workers-some_gone zero = refl
new_workers-some_gone (suc n) = new_workers-some_gone n

new_workers-in_work : (t n : ℕ) → in_work t (new_workers n) ≡ 0
new_workers-in_work t zero = refl
new_workers-in_work t (suc n) = omega (arith, new_workers-in_work t n)

pub new_workers-IsPool : (n : ℕ) → IsPool (new_workers n, new_queue)
unfolding count
new_workers-IsPool n = record {
  fifo = refl;
  counted = λ t. omega (arith, new_workers-in_work t n);
  left = λ f. absurd (false≢true (sym (new_workers-some_gone n) ∙ f));
}

pub pool_step-as_many :
    (e : PoolEvent) (p : List Worker × Queue) → length (pool_step e p).0 ≡ length p.0
unfolding pool_step
pool_step-as_many (enqueues t) (ws, q) = refl
pool_step-as_many stops (ws, q) = refl
pool_step-as_many notifies_all (ws, q) = Wakes.as_many (notify_all-Wakes ws)
pool_step-as_many (wakes i) (ws, q) = Wakes.as_many (wake_at-Wakes ws i)
pool_step-as_many (works i) (ws, q) = KeepsAll.as_many (step_at-KeepsAll ws i q)

pub run-as_many : (es : List PoolEvent) (p : List Worker × Queue) → length (run es p).0 ≡ length p.0
unfolding run
run-as_many [] p = refl
run-as_many (e ∷ es) p = run-as_many es (pool_step e p) ∙ pool_step-as_many e p

pub length-new_workers : (n : ℕ) → length (new_workers n) ≡ n
length-new_workers zero = refl
length-new_workers (suc n) = ap suc (length-new_workers n)

pub set_stop-stop : (p : List Worker × Queue) → (pool_step stops p).1.stop ≡ true
unfolding pool_step set_stop
set_stop-stop (ws, q) = refl

pool_step-stop :
    (e : PoolEvent) (p : List Worker × Queue) → p.1.stop ≡ true → (pool_step e p).1.stop ≡ true
unfolding pool_step enqueue set_stop
pool_step-stop (enqueues t) (ws, q) h = rw h refl
pool_step-stop stops (ws, q) h = refl
pool_step-stop notifies_all (ws, q) h = h
pool_step-stop (works i) (ws, q) h = KeepsAll.stop (step_at-KeepsAll ws i q) ∙ h
pool_step-stop (wakes i) (ws, q) h = h

pub run-stop :
    (es : List PoolEvent) (p : List Worker × Queue) → p.1.stop ≡ true → (run es p).1.stop ≡ true
unfolding run
run-stop [] p h = h
run-stop (e ∷ es) p h = run-stop es (pool_step e p) (pool_step-stop e p h)
