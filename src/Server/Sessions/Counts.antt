-- ===== src/Server/Sessions/Counts.antt =====
-- How often a handler stands under a user, after the operations of the registry.
use messenger_cpp_r.Base.{
  ℕ, suc, ◌+◌, ◌≡◌, ◌≢◌, refl, sym, ◌∙◌, ◌&&◌, pos, negsuc, inl, inr, true, false, List, [], ◌∷◌,
  ◌++◌, arith, ◌==◌, if◌then◌else◌, Bool-cases, ℤ, eqb_ℤ, eqb_ℤ_iff,
}
use messenger_cpp_r.Server.Sessions.{
  Sessions, handlers_of, add_session, remove, with_entry, remove_session,
}

unfoldable pub count : ℕ → List ℕ → ℕ
count h [] = 0
count h (x ∷ xs) = let rest = count h xs in if x == h then suc rest else rest

-- Every user stands once, with a handler: what the map and the erasing of empty entries give.
abbrev pub IsMap : Sessions → Type 0
IsMap [] = Unit {0}
IsMap ((u, hs) ∷ rest) = (handlers_of u rest ≡ []) × (hs ≢ []) × IsMap rest

pub count-append : (h : ℕ) (xs ys : List ℕ) → count h (xs ++ ys) ≡ count h xs + count h ys
unfolding count
count-append h [] ys = ground arith
count-append h (x ∷ xs) ys = ground (arith, count-append h xs ys)

count-remove : (h k : ℕ) (xs : List ℕ) → count k (remove h xs) ≡ (if k == h then 0 else count k xs)
unfolding count remove
count-remove h k [] = ground arith
count-remove h k (x ∷ xs) = ground (arith, count-remove h k xs)

count-one : (h k : ℕ) → count k (h ∷ []) ≡ (if k == h then 1 else 0)
unfolding count
count-one h k = ground arith

eqb_ℤ_comm : (a b : ℤ) → eqb_ℤ a b ≡ eqb_ℤ b a
eqb_ℤ_comm (pos a) (pos b) = ground arith
eqb_ℤ_comm (pos a) (negsuc b) = refl
eqb_ℤ_comm (negsuc a) (pos b) = refl
eqb_ℤ_comm (negsuc a) (negsuc b) = ground arith

apart : (u v w : ℤ) → eqb_ℤ u v ≡ false → eqb_ℤ u w ≡ true → eqb_ℤ v w ≡ false
apart u v w e d = eqb_ℤ_comm v w ∙ (rw (sym ((eqb_ℤ_iff u w).0 d)) e)

with_entry-IsMap :
    (u : ℤ) (hs : List ℕ) (rest : Sessions)
    → handlers_of u rest ≡ []
    → IsMap rest
    → IsMap (with_entry u hs rest)
with_entry-IsMap u [] rest absent m = m
with_entry-IsMap u (h ∷ hs) rest absent m = (absent, (λ e. cc), m)

pub count-add_session :
    (user v : ℤ) (h k : ℕ) (s : Sessions)
    → count k (handlers_of v (add_session user h s))
      ≡ count k (handlers_of v s) + (if eqb_ℤ user v then (if k == h then 1 else 0) else 0)
unfolding add_session handlers_of count
count-add_session user v h k [] = ground (arith, count-one h k)
count-add_session user v h k ((u, hs) ∷ rest) = elim (Bool-cases (eqb_ℤ u user)) [
  | inl same ↦ rw same (
      rw ((eqb_ℤ_iff u user).0 same) (elim (Bool-cases (eqb_ℤ user v)) [
        | inl d ↦ rw (d, count-append k hs (h ∷ []), count-one h k)
        | inr d ↦ rw d (ground arith)
      ]))
  | inr other ↦ rw other (elim (Bool-cases (eqb_ℤ u v)) [
    | inl d ↦ rw (d, apart u user v other d) (ground arith)
    | inr d ↦ rw d (count-add_session user v h k rest)
  ])
]

-- What the others see.
handlers_of-add_session :
    (user v : ℤ) (h : ℕ) (s : Sessions)
    → eqb_ℤ v user ≡ false
    → handlers_of v (add_session user h s) ≡ handlers_of v s
unfolding add_session handlers_of
handlers_of-add_session user v h [] e = rw (eqb_ℤ_comm user v, e)
handlers_of-add_session user v h ((u, hs) ∷ rest) e = elim (Bool-cases (eqb_ℤ u user)) [
  | inl same ↦ rw same (rw ((eqb_ℤ_iff u user).0 same, eqb_ℤ_comm user v, e) refl)
  | inr other ↦ rw other (rw (handlers_of-add_session user v h rest e) refl)
]

append_ne_nil : (h : ℕ) (hs : List ℕ) → hs ++ h ∷ [] ≢ []
append_ne_nil h [] = λ e. cc
append_ne_nil h (x ∷ xs) = λ e. cc

pub add_session-IsMap : (user : ℤ) (h : ℕ) (s : Sessions) → IsMap s → IsMap (add_session user h s)
unfolding add_session handlers_of
add_session-IsMap user h [] m = (refl, (λ e. cc), m)
add_session-IsMap user h ((u, hs) ∷ rest) (absent, some, m) = elim (Bool-cases (eqb_ℤ u user)) [
  | inl same ↦ rw same (absent, append_ne_nil h hs, m)
  | inr other ↦
      rw other (
        handlers_of-add_session user u h rest other ∙ absent,
        some,
        add_session-IsMap user h rest m,
      )
]

handlers_of-with_entry :
    (u v : ℤ) (hs : List ℕ) (rest : Sessions)
    → handlers_of u rest ≡ []
    → handlers_of v (with_entry u hs rest) ≡ (if eqb_ℤ u v then hs else handlers_of v rest)
unfolding handlers_of
handlers_of-with_entry u v [] rest absent = elim (Bool-cases (eqb_ℤ u v)) [
  | inl d ↦ rw (d, sym ((eqb_ℤ_iff u v).0 d)) absent
  | inr d ↦ rw d
]
handlers_of-with_entry u v (h ∷ hs) rest absent = refl

handlers_of-remove_session :
    (user v : ℤ) (h : ℕ) (s : Sessions)
    → IsMap s
    → handlers_of v (remove_session user h s)
      ≡ (if eqb_ℤ user v then remove h (handlers_of v s) else handlers_of v s)
unfolding handlers_of remove_session remove
handlers_of-remove_session user v h [] m = ground arith
handlers_of-remove_session user v h ((u, hs) ∷ rest) (absent, some, m) =
    elim (Bool-cases (eqb_ℤ u user)) [
      | inl same ↦
          rw (same, handlers_of-with_entry u v (remove h hs) rest absent)
            (rw ((eqb_ℤ_iff u user).0 same)
              (elim (Bool-cases (eqb_ℤ user v)) [ inl d ↦ rw d | inr d ↦ rw d ]))
      | inr other ↦ rw other (elim (Bool-cases (eqb_ℤ u v)) [
        | inl d ↦ rw (d, apart u user v other d)
        | inr d ↦ rw d (handlers_of-remove_session user v h rest m)
      ])
    ]

pub count-remove_session :
    (user v : ℤ) (h k : ℕ) (s : Sessions)
    → IsMap s
    → count k (handlers_of v (remove_session user h s))
      ≡ (if eqb_ℤ user v && (k == h) then 0 else count k (handlers_of v s))
count-remove_session user v h k s m =
    rw (handlers_of-remove_session user v h s m)
      (ground (arith, count-remove h k (handlers_of v s)))

pub remove_session-IsMap :
    (user : ℤ) (h : ℕ) (s : Sessions) → IsMap s → IsMap (remove_session user h s)
unfolding remove_session
remove_session-IsMap user h [] m = m
remove_session-IsMap user h ((u, hs) ∷ rest) (absent, some, m) = elim (Bool-cases (eqb_ℤ u user)) [
  | inl same ↦ rw same (with_entry-IsMap u (remove h hs) rest absent m)
  | inr other ↦ rw other (
    handlers_of-remove_session user u h rest m ∙ rw (eqb_ℤ_comm user u, other) absent,
    some,
    remove_session-IsMap user h rest m,
  )
]
