-- ===== src/Tests/Pool.antt =====
-- The thread pool at a concrete run: two workers, two tasks.
use messenger_cpp_r.Base.{List, [], ◌∷◌, arith}
use messenger_cpp_r.Threading.ThreadPool.{
  PoolEvent, enqueues, stops, notifies_all, works, wakes, new_workers, new_queue, pool_step, run,
}
use messenger_cpp_r.Threading.ThreadPool.Draining.{Drains, stopped_pool-Drains}

-- The first worker sleeps when a task comes, is woken up for it, and sleeps again; the second sleeps on
-- until the pool is stopped.
abbrev before : List PoolEvent
before = works 0 ∷ works 1 ∷ enqueues 7 ∷ wakes 0 ∷ works 0 ∷ works 0 ∷ works 0 ∷ enqueues 8 ∷ []

-- Another wakes up for no reason before it is notified.
abbrev between : List PoolEvent
between = enqueues 9 ∷ wakes 0 ∷ works 0 ∷ []

stopped_pool-Drains_example :
    Drains (
      pool_step notifies_all
        (run between (pool_step stops (run before (new_workers 2, new_queue)))))
stopped_pool-Drains_example = stopped_pool-Drains 2 before between (omega arith)
