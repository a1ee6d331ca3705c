-- ===== src/Server/Database/Rows.antt =====
-- Looking rows up after an UPDATE and after an INSERT.
use mathlib.Core.Option
use messenger_cpp_r.Base.{
  ℕ, ◌<◌, ◌≡◌, refl, inl, inr, Bool, Option, none, some, List, [], ◌∷◌, ◌++◌, arith, Bytes, str_eq,
  str_eq→eq, if◌then◌else◌, Bool-cases, All, ℤ, pos, eqb_ℤ, eqb_ℤ_iff,
}
use messenger_cpp_r.Server.Database.{User, find_login, find_id, update_where}

-- An UPDATE that sets neither the id, the login, the role nor the password.
pub record KeepsIdentity (f : User → User) : Type 0 where
  pub id : (u : User) → (f u).id ≡ u.id
  pub login : (u : User) → (f u).login ≡ u.login
  pub role : (u : User) → (f u).role ≡ u.role
  pub password_hash : (u : User) → (f u).password_hash ≡ u.password_hash

-- What an UPDATE makes of one row.
abbrev pub modify : (User → Bool) → (User → User) → User → User
modify p f u = if p u then f u else u

module _ (p : User → Bool) (f : User → User) (keeps : KeepsIdentity f) where
  pub modify_login : (u : User) → (modify p f u).login ≡ u.login
  modify_login u = elim (Bool-cases (p u)) [ inl h ↦ rw h (keeps.login u) | inr h ↦ rw h ]

  pub modify_id : (u : User) → (modify p f u).id ≡ u.id
  modify_id u = elim (Bool-cases (p u)) [ inl h ↦ rw h (keeps.id u) | inr h ↦ rw h ]

  pub modify_role : (u : User) → (modify p f u).role ≡ u.role
  modify_role u = elim (Bool-cases (p u)) [ inl h ↦ rw h (keeps.role u) | inr h ↦ rw h ]

  pub find_login-update_where :
      (l : Bytes) (us : List User)
      → find_login l (update_where p f us) ≡ Option.map (modify p f) (find_login l us)
  unfolding find_login update_where
  find_login-update_where l [] = refl
  find_login-update_where l (u ∷ us) = rw (modify_login u) (elim (Bool-cases (str_eq u.login l)) [
    | inl h ↦ rw h
    | inr h ↦ rw h (find_login-update_where l us)
  ])

  pub find_id-update_where :
      (i : ℤ) (us : List User)
      → find_id i (update_where p f us) ≡ Option.map (modify p f) (find_id i us)
  unfolding find_id update_where
  find_id-update_where i [] = refl
  find_id-update_where i (u ∷ us) = rw (modify_id u) (elim (Bool-cases (eqb_ℤ (pos u.id) i)) [
    | inl h ↦ rw h
    | inr h ↦ rw h (find_id-update_where i us)
  ])

abbrev pub or_else {ℓ} : {A : Type ℓ} → Option A → Option A → Option A
or_else none o = o
or_else (some a) o = some a

pub find_login-append :
    (l : Bytes) (us vs : List User)
    → find_login l (us ++ vs) ≡ or_else (find_login l us) (find_login l vs)
unfolding find_login
find_login-append l [] vs = refl
find_login-append l (u ∷ us) vs = elim (Bool-cases (str_eq u.login l)) [
  | inl h ↦ rw h
  | inr h ↦ rw h (find_login-append l us vs)
]

pub find_id-append :
    (i : ℤ) (us vs : List User) → find_id i (us ++ vs) ≡ or_else (find_id i us) (find_id i vs)
unfolding find_id
find_id-append i [] vs = refl
find_id-append i (u ∷ us) vs = elim (Bool-cases (eqb_ℤ (pos u.id) i)) [
  | inl h ↦ rw h
  | inr h ↦ rw h (find_id-append i us vs)
]

-- The row that is found is the one asked for.
pub find_login-login :
    (l : Bytes) (us : List User) (u : User) → find_login l us ≡ some u → u.login ≡ l
unfolding find_login
find_login-login l [] u e = cc
find_login-login l (v ∷ us) u e = elim (Bool-cases (str_eq v.login l)) [
  | inl h ↦ ground (arith, str_eq→eq v.login l)
  | inr h ↦ find_login-login l us u (rw (h, find_login) at e)
]

pub find_id-id : (i : ℤ) (us : List User) (u : User) → find_id i us ≡ some u → pos u.id ≡ i
unfolding find_id
find_id-id i [] u e = cc
find_id-id i (v ∷ us) u e = elim (Bool-cases (eqb_ℤ (pos v.id) i)) [
  | inl h ↦ ground (arith, eqb_ℤ_iff (pos v.id) i)
  | inr h ↦ find_id-id i us u (rw (h, find_id) at e)
]

-- An id above all is not there.
pub find_id-fresh : (n : ℕ) (us : List User) → All (λ u. u.id < n) us → find_id (pos n) us ≡ none
unfolding find_id
find_id-fresh n [] h = refl
find_id-fresh n (u ∷ us) (hu, hus) = ground (arith, find_id-fresh n us hus)
