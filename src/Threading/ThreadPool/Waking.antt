-- ===== src/Threading/ThreadPool/Waking.antt =====
-- What waking up changes.
use messenger_cpp_r.Base.{ℕ, zero, suc, ◌≡◌, refl, false, List, [], ◌∷◌, arith, length}
use messenger_cpp_r.Threading.ThreadPool.{
  Worker, waiting, asleep, running, gone, wake, wake_at, notify_all,
}
use messenger_cpp_r.Threading.ThreadPool.Steps.{
  at_worker, in_work, some_gone, is_gone, is_asleep, some_asleep,
}

-- Waking workers up changes neither their tasks nor which have returned.
pub record Wakes (ws ws' : List Worker) : Type 0 where
  pub in_work_same : (t : ℕ) → in_work t ws' ≡ in_work t ws
  pub gone_same : some_gone ws' ≡ some_gone ws
  pub as_many : length ws' ≡ length ws

at_worker-wake : (t : ℕ) (w : Worker) → at_worker t (wake w) ≡ at_worker t w
unfolding wake
at_worker-wake t waiting = refl
at_worker-wake t asleep = refl
at_worker-wake t (running x) = refl
at_worker-wake t gone = refl

is_gone-wake : (w : Worker) → is_gone (wake w) ≡ is_gone w
unfolding wake
is_gone-wake waiting = refl
is_gone-wake asleep = refl
is_gone-wake (running x) = refl
is_gone-wake gone = refl

is_asleep-wake : (w : Worker) → is_asleep (wake w) ≡ false
unfolding wake
is_asleep-wake waiting = refl
is_asleep-wake asleep = refl
is_asleep-wake (running x) = refl
is_asleep-wake gone = refl

Wakes-refl : (ws : List Worker) → Wakes ws ws
Wakes-refl ws = record { in_work_same = λ t. refl; gone_same = refl; as_many = refl }

Wakes-cons :
    (w w' : Worker) (ws ws' : List Worker)
    → ((t : ℕ) → at_worker t w' ≡ at_worker t w)
    → is_gone w' ≡ is_gone w
    → Wakes ws ws'
    → Wakes (w ∷ ws) (w' ∷ ws')
Wakes-cons w w' ws ws' same left k = record {
  in_work_same = λ t. omega (arith, same t, k.in_work_same t);
  gone_same = rw (left, k.gone_same) refl;
  as_many = omega (arith, k.as_many);
}

pub wake_at-Wakes : (ws : List Worker) (i : ℕ) → Wakes ws (wake_at ws i)
unfolding wake_at
wake_at-Wakes [] i = Wakes-refl []
wake_at-Wakes (w ∷ ws) zero =
    Wakes-cons w (wake w) ws ws (λ t. at_worker-wake t w) (is_gone-wake w) (Wakes-refl ws)
wake_at-Wakes (w ∷ ws) (suc i) =
    Wakes-cons w w ws (wake_at ws i) (λ t. refl) refl (wake_at-Wakes ws i)

pub notify_all-Wakes : (ws : List Worker) → Wakes ws (notify_all ws)
unfolding notify_all
notify_all-Wakes [] = Wakes-refl []
notify_all-Wakes (w ∷ ws) =
    Wakes-cons w (wake w) ws (notify_all ws) (λ t. at_worker-wake t w) (is_gone-wake w)
      (notify_all-Wakes ws)

pub notify_all-some_asleep : (ws : List Worker) → some_asleep (notify_all ws) ≡ false
unfolding notify_all
notify_all-some_asleep [] = refl
notify_all-some_asleep (w ∷ ws) = rw (is_asleep-wake w) (notify_all-some_asleep ws)
