-- ===== src/Tests/Limits.antt =====
-- The connection pool and the accept loop on short runs.
use messenger_cpp_r.Base.{◌≡◌, ◌≤◌, refl, true, List, [], ◌∷◌, length, ltb, if◌then◌else◌}
use messenger_cpp_r.Server.ConnectionPool.{
  DatabasePool, open_connections, new_pool, PoolEvent, acquires, releases, run,
}
use messenger_cpp_r.Server.ConnectionPool.Conservation.{total, run-new_pool}
use messenger_cpp_r.Server.Accept.{
  ServerEvent, accept_fails, accepts, ends, new_listener, serve_events, serve_events-new_listener,
}

abbrev pool : DatabasePool
pool = record { available = 0 ∷ 1 ∷ [] }

-- Three threads want the two connections; one gives its connection back.
abbrev pool_events : List PoolEvent
pool_events = acquires 7 ∷ acquires 8 ∷ acquires 9 ∷ releases 7 ∷ acquires 9 ∷ []

run-new_pool_example :
    total 1 (run pool_events (record { pool = pool; held = [] })) ≡ (if ltb 1 2 then 1 else 0)
unfolding new_pool open_connections
run-new_pool_example = run-new_pool (λ n. true) 2 pool pool_events 1 refl

abbrev server_events : List ServerEvent
server_events = accepts 4 ∷ accept_fails ∷ accepts 5 ∷ accepts 6 ∷ ends 4 ∷ accepts 7 ∷ []

serve_events-new_listener_example :
    ((serve_events server_events (new_listener 2)).active_clients
      ≡ length (serve_events server_events (new_listener 2)).serving)
    × (length (serve_events server_events (new_listener 2)).serving ≤ 2)
serve_events-new_listener_example = serve_events-new_listener server_events 2
