-- ===== src/Server/ConnectionPool.antt =====
-- The class DatabasePool of Database.cpp and its Connection, which gives its connection back when it is
-- destroyed. Connections are named by numbers. A thread that finds no connection waits: its step does
-- not happen yet.
pub mod Conservation
use messenger_cpp_r.Base.{
  ℕ, zero, suc, ◌+◌, Bool, true, false, Option, none, some, List, [], ◌∷◌, ◌++◌, ◌==◌,
  if◌then◌else◌,
}

pub record DatabasePool : Type 0 where
  pub available : List ℕ

-- The constructor opens `pool_size` connections, in order; `opens` says whether the one with this
-- number is open. `none` is an exception: no connections were asked for, or one did not open.
unfoldable pub open_connections : (ℕ → Bool) → ℕ → ℕ → Option (List ℕ)
open_connections opens first zero = some []
open_connections opens first (suc n) =
    let rest = open_connections opens (first + 1) n in
    if opens first then elim rest [ none ↦ none | some cs ↦ some (first ∷ cs) ] else none

unfoldable pub new_pool : (ℕ → Bool) → ℕ → Option DatabasePool
new_pool opens zero = none
new_pool opens (suc n) = elim (open_connections opens 0 (suc n)) [
  | none ↦ none
  | some cs ↦ some (record { available = cs })
]

-- `none` while no connection is available.
unfoldable pub acquire : DatabasePool → Option (ℕ × DatabasePool)
acquire pool = elim pool.available [ [] ↦ none | c ∷ cs ↦ some (c, record { available = cs }) ]

unfoldable pub release : ℕ → DatabasePool → DatabasePool
release c pool = record { available = pool.available ++ c ∷ [] }

-- The pool and the Connection objects that threads hold.
pub record PoolState : Type 0 where
  pub pool : DatabasePool
  pub held : List (ℕ × ℕ)

-- A thread takes a connection, or the Connection of a thread goes out of scope.
pub data PoolEvent : Type 0 where
  acquires releases : ℕ → PoolEvent

-- The Connection that the thread got last, and the others.
unfoldable pub take_held : ℕ → List (ℕ × ℕ) → Option (ℕ × List (ℕ × ℕ))
take_held t [] = none
take_held t ((u, c) ∷ rest) =
    let other = take_held t rest in
    if u == t
    then some (c, rest)
    else elim other [ none ↦ none | some (d, ds) ↦ some (d, (u, c) ∷ ds) ]

unfoldable pub step : PoolEvent → PoolState → PoolState
step (acquires t) s = elim (acquire s.pool) [
  | none ↦ s
  | some (c, pool) ↦ record { pool = pool; held = (t, c) ∷ s.held }
]
step (releases t) s = elim (take_held t s.held) [
  | none ↦ s
  | some (c, held) ↦ record { pool = release c s.pool; held = held }
]

unfoldable pub run : List PoolEvent → PoolState → PoolState
run [] s = s
run (e ∷ es) s = run es (step e s)
