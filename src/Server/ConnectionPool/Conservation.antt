-- ===== src/Server/ConnectionPool/Conservation.antt =====
-- The connections of DatabasePool, counted over the pool and the threads.
use messenger_cpp_r.Base.{
  ℕ, zero, suc, ◌+◌, ◌≡◌, ◌≢◌, refl, sym, ◌∙◌, ◌⊎◌, inl, inr, Bool, Option, none, some,
  Option-cases, Bool-cases, List, [], ◌∷◌, arith, ◌==◌, ltb, if◌then◌else◌,
}
use messenger_cpp_r.Server.Sessions.Counts.{count, count-append}
use messenger_cpp_r.Server.ConnectionPool.{
  DatabasePool, open_connections, new_pool, acquire, release, PoolState, PoolEvent, acquires,
  releases, take_held, step, run,
}

-- How often the connection is held.
unfoldable pub held_count : ℕ → List (ℕ × ℕ) → ℕ
held_count c [] = 0
held_count c ((t, d) ∷ rest) = let n = held_count c rest in if d == c then suc n else n

-- How often it is there, in the pool or with a thread.
unfoldable pub total : ℕ → PoolState → ℕ
total c s = count c s.pool.available + held_count c s.held

none_some : {p : ℕ × List (ℕ × ℕ)} → ◌≢◌ {A = Option (ℕ × List (ℕ × ℕ))} none (some p)
none_some e = cc

list_cases : (xs : List ℕ) → (xs ≡ []) ⊎ ((x : ℕ) × (ys : List ℕ) × (xs ≡ x ∷ ys))
list_cases [] = inl refl
list_cases (x ∷ xs) = inr (x, xs, refl)

some_pair :
    {a b : ℕ} {xs ys : List (ℕ × ℕ)}
    → ◌≡◌ {A = Option (ℕ × List (ℕ × ℕ))} (some (a, xs)) (some (b, ys))
    → (a ≡ b) × (xs ≡ ys)
some_pair e = (cc, cc)

none_list : {xs : List ℕ} → ◌≢◌ {A = Option (List ℕ)} none (some xs)
none_list e = cc

some_list : {xs ys : List ℕ} → ◌≡◌ {A = Option (List ℕ)} (some xs) (some ys) → xs ≡ ys
some_list e = cc

take_held-count :
    (t c : ℕ) (held : List (ℕ × ℕ)) (d : ℕ) (rest : List (ℕ × ℕ))
    → take_held t held ≡ some (d, rest)
    → held_count c held ≡ held_count c rest + (if d == c then 1 else 0)
unfolding take_held held_count
take_held-count t c [] d rest e = cc
take_held-count t c ((u, x) ∷ held) d rest e = elim (Bool-cases (u == t)) [
  | inl mine ↦
      let found : ◌≡◌ {A = Option (ℕ × List (ℕ × ℕ))} (some (x, held)) (some (d, rest)) =
        rw (mine, take_held) at e in
      let same : (x ≡ d) × (held ≡ rest) = some_pair found in
      rw (sym same.0, sym same.1) (ground arith)
  | inr other ↦ elim (Option-cases (take_held t held)) [
    | inl f ↦ absurd (none_some (rw (other, f, take_held) at e))
    | inr ((y, ys), f) ↦
        let found : ◌≡◌ {A = Option (ℕ × List (ℕ × ℕ))} (some (y, (u, x) ∷ ys)) (some (d, rest)) =
          rw (other, f, take_held) at e in
        let same : (y ≡ d) × ((u, x) ∷ ys ≡ rest) = some_pair found in
        rw (sym same.0, sym same.1) (ground (arith, take_held-count t c held y ys f))
  ]
]

step-total : (e : PoolEvent) (s : PoolState) (c : ℕ) → total c (step e s) ≡ total c s
unfolding total step acquire release held_count count
step-total (acquires t) s c = elim (list_cases s.pool.available) [
  | inl e ↦ rw (e, step, acquire) (rw e)
  | inr (d, ds, e) ↦ rw (e, step, acquire) (ground arith)
]
step-total (releases t) s c = elim (Option-cases (take_held t s.held)) [
  | inl e ↦ rw (e, step) refl
  | inr ((d, rest), e) ↦
      rw (e, step)
        (ground
          (arith, count-append c s.pool.available (d ∷ []), take_held-count t c s.held d rest e))
]

run-total : (es : List PoolEvent) (s : PoolState) (c : ℕ) → total c (run es s) ≡ total c s
unfolding run
run-total [] s c = refl
run-total (e ∷ es) s c = run-total es (step e s) c ∙ step-total e s c

opened_count : (first n c : ℕ) → ℕ
opened_count first n c = if ltb c first then 0 else if ltb c (first + n) then 1 else 0

opened :
    (opens : ℕ → Bool) (first n : ℕ) (cs : List ℕ) (c : ℕ)
    → open_connections opens first n ≡ some cs
    → count c cs ≡ opened_count first n c
unfolding open_connections count opened_count
opened opens first zero cs c e = rw (sym (some_list e)) (ground arith)
opened opens first (suc n) cs c e = elim (Bool-cases (opens first)) [
  | inr shut ↦ absurd (none_list (rw (shut, open_connections) at e))
  | inl yes_open ↦ elim (Option-cases (open_connections opens (first + 1) n)) [
    | inl f ↦ absurd (none_list (rw (yes_open, f, open_connections) at e))
    | inr (ds, f) ↦
        rw (sym (some_list (rw (yes_open, f, open_connections) at e)))
          (ground (arith, opened opens (first + 1) n ds c f))
  ]
]

none_pool : {p : DatabasePool} → ◌≢◌ {A = Option DatabasePool} none (some p)
none_pool e = cc

some_pool : {p q : DatabasePool} → ◌≡◌ {A = Option DatabasePool} (some p) (some q) → p ≡ q
some_pool e = cc

-- A pool that was opened with `pool_size` connections has each of the numbers below it once, and after
-- any events of any threads each of them is still there exactly once: in the pool, or with one thread.
pub run-new_pool :
    (opens : ℕ → Bool) (pool_size : ℕ) (pool : DatabasePool) (es : List PoolEvent) (c : ℕ)
    → new_pool opens pool_size ≡ some pool
    → total c (run es (record { pool = pool; held = [] })) ≡ (if ltb c pool_size then 1 else 0)
unfolding new_pool total held_count opened_count
run-new_pool opens zero pool es c e = cc
run-new_pool opens (suc n) pool es c e =
    run-total es _ c ∙ elim (Option-cases (open_connections opens 0 (suc n))) [
      | inl f ↦ absurd (none_pool (rw (f, new_pool) at e))
      | inr (cs, f) ↦
          rw (sym (some_pool (rw (f, new_pool) at e)))
            (ground (arith, opened opens 0 (suc n) cs c f))
    ]
