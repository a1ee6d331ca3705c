-- ===== src/Threading/ThreadPool.antt =====
-- ThreadPool.cpp: the queue of tasks, the flag, and the loops of the workers, as steps in any order. A
-- task is a number; running it is outside the lock.
pub mod Steps
pub mod Waking
pub mod Invariant
pub mod Draining
use messenger_cpp_r.Base.{
  map, ℕ, zero, suc, ◌+◌, ◌*◌, Bool, true, false, List, [], ◌∷◌, ◌++◌, replicate, if◌then◌else◌,
  length,
}

-- A worker stands before the locked section or holds the lock there, sleeps on the condition variable,
-- runs a task, or has returned.
pub data Worker : Type 0 where
  waiting : Worker
  asleep : Worker
  running : ℕ → Worker
  gone : Worker

-- `tasks` is the queue, its front first. `accepted`, `started` and `finished` record what was
-- enqueued, taken and run to its end, in order.
pub record Queue : Type 0 where
  pub tasks : List ℕ
  pub stop : Bool
  pub accepted : List ℕ
  pub started : List ℕ
  pub finished : List ℕ

abbrev pub new_queue : Queue
new_queue = record { tasks = []; stop = false; accepted = []; started = []; finished = [] }

abbrev pub new_workers : ℕ → List Worker
new_workers num_threads = replicate num_threads waiting

-- enqueue on a pool whose flag is known; false is the std::runtime_error.
abbrev pub enqueue_on : ℕ → Bool → Queue → Bool × Queue
enqueue_on task true q = (false, q)
enqueue_on task false q =
    (true, record q { tasks = q.tasks ++ task ∷ []; accepted = q.accepted ++ task ∷ [] })

unfoldable pub enqueue : ℕ → Queue → Bool × Queue
enqueue task q = enqueue_on task q.stop q

-- The destructor's first part.
unfoldable pub set_stop : Queue → Queue
set_stop q = record q { stop = true }

-- The locked section, with the tasks there are: a worker without a task goes to sleep, or returns if
-- the pool was stopped.
abbrev pub take_task : List ℕ → Queue → Worker × Queue
take_task [] q = (if q.stop then gone else asleep, q)
take_task (task ∷ rest) q =
    (running task, record q { tasks = rest; started = q.started ++ task ∷ [] })

unfoldable pub worker_step : Worker → Queue → Worker × Queue
worker_step waiting q = take_task q.tasks q
worker_step (running task) q = (waiting, record q { finished = q.finished ++ task ∷ [] })
worker_step asleep q = (asleep, q)
worker_step gone q = (gone, q)

-- Worker `i` makes its step.
unfoldable pub step_at : List Worker → ℕ → Queue → List Worker × Queue
step_at [] i q = ([], q)
step_at (w ∷ ws) zero q = let (w', q') = worker_step w q in (w' ∷ ws, q')
step_at (w ∷ ws) (suc i) q = let (ws', q') = step_at ws i q in (w ∷ ws', q')

-- Waking up, by a notification or without one: the worker looks at the condition again.
unfoldable pub wake : Worker → Worker
wake asleep = waiting
wake waiting = waiting
wake (running task) = running task
wake gone = gone

unfoldable pub wake_at : List Worker → ℕ → List Worker
wake_at [] i = []
wake_at (w ∷ ws) zero = wake w ∷ ws
wake_at (w ∷ ws) (suc i) = w ∷ wake_at ws i

-- condition_.notify_all()
unfoldable pub notify_all : List Worker → List Worker
notify_all ws = map wake ws

-- `wakes i` is worker `i` waking up, by the notify_one of enqueue, which chooses any worker that sleeps,
-- or for no reason. enqueue and the destructor notify when they have left the lock.
pub data PoolEvent : Type 0 where
  enqueues : ℕ → PoolEvent
  stops notifies_all : PoolEvent
  works wakes : ℕ → PoolEvent

unfoldable pub pool_step : PoolEvent → List Worker × Queue → List Worker × Queue
unfolding enqueue set_stop step_at wake_at notify_all
pool_step (enqueues task) (ws, q) = (ws, (enqueue task q).1)
pool_step stops (ws, q) = (ws, set_stop q)
pool_step notifies_all (ws, q) = (notify_all ws, q)
pool_step (works i) (ws, q) = step_at ws i q
pool_step (wakes i) (ws, q) = (wake_at ws i, q)

unfoldable pub run : List PoolEvent → List Worker × Queue → List Worker × Queue
run [] p = p
run (e ∷ es) p = run es (pool_step e p)
