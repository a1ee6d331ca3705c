-- ===== src/Server/Numbers/RoundTrip.antt =====
-- std::stoi on the digits of std::to_string.
use messenger_cpp_r.Base.{
  ℕ, zero, suc, ◌+◌, ◌-◌, ◌*◌, ◌/◌, ◌%◌, ◌^◌, ◌<◌, ◌≡◌, refl, ◌∙◌, inl, inr, true, false, [], ◌∷◌,
  ◌++◌, arith, Bytes, all_of, all_of-append, ltb, Bool-cases, pos,
}
use messenger_cpp_r.Server.Auth.{is_digit}
use messenger_cpp_r.Server.Words.{is_space, skip_spaces}
use messenger_cpp_r.Server.Numbers.{
  digits, split_sign, starts_with_digit, show, to_string, stoi, value,
}

show-digits : (fuel n : ℕ) → all_of is_digit (show fuel n) ≡ true
unfolding show all_of is_digit
show-digits zero n = refl
show-digits (suc fuel) n = ground (
  arith,
  show-digits fuel (n / 10),
  all_of-append is_digit (show fuel (n / 10)) ((48 + n % 10) ∷ []),
)

digits-append :
    (n c : ℕ) (s : Bytes)
    → all_of is_digit s ≡ true
    → digits n (s ++ (48 + c % 10) ∷ []) ≡ digits n s * 10 + c % 10
unfolding digits all_of is_digit
digits-append n c [] h = ground arith
digits-append n c (d ∷ ds) h = ground (arith, digits-append (n * 10 + (d - 48)) c ds)

digits-show : (fuel n : ℕ) → n < fuel → digits 0 (show fuel n) ≡ n
unfolding show
digits-show zero n h = absurd (omega arith)
digits-show (suc fuel) n h = elim (Bool-cases (ltb n 10)) [
  | inl small ↦ rw small (unfold digits is_digit in ground arith)
  | inr large ↦ rw large (
      digits-append 0 n (show fuel (n / 10)) (show-digits fuel (n / 10))
      ∙ finish (digits 0 (show fuel (n / 10))) (digits-show fuel (n / 10) (ground arith)))
]
  where
    finish : (d : ℕ) → d ≡ n / 10 → d * 10 + n % 10 ≡ n
    finish d e = omega arith

starts-append : (s t : Bytes) → starts_with_digit s ≡ true → starts_with_digit (s ++ t) ≡ true
starts-append [] t h = cc
starts-append (c ∷ cs) t h = h

starts-show : (fuel n : ℕ) → n < fuel → starts_with_digit (show fuel n) ≡ true
unfolding show
starts-show zero n h = absurd (omega arith)
starts-show (suc fuel) n h = elim (Bool-cases (ltb n 10)) [
  | inl small ↦ rw small (unfold is_digit in ground arith)
  | inr large ↦ rw large (
      starts-append (show fuel (n / 10)) ((48 + n % 10) ∷ [])
        (starts-show fuel (n / 10) (ground arith)))
]

skip-digits : (s : Bytes) → starts_with_digit s ≡ true → skip_spaces s ≡ s
unfolding skip_spaces is_space is_digit
skip-digits [] h = refl
skip-digits (c ∷ cs) h = ground arith

sign-digits : (s : Bytes) → starts_with_digit s ≡ true → split_sign s ≡ (false, s)
unfolding split_sign is_digit
sign-digits [] h = refl
sign-digits (c ∷ cs) h = ground arith

pub stoi_of_digits :
    (s : Bytes) (n : ℕ)
    → starts_with_digit s ≡ true
    → digits 0 s ≡ n
    → n < 2 ^ 31
    → stoi s ≡ value (pos n)
unfolding stoi
stoi_of_digits s n h e lt =
    let small : ltb n (2 ^ 31) ≡ true = ground arith in
    rw (skip-digits s h, stoi) (rw (sign-digits s h, stoi) (rw (h, e, small, stoi)))

-- std::stoi reads back what std::to_string prints, for every number that an int holds.
pub stoi-to_string : (n : ℕ) → n < 2 ^ 31 → stoi (to_string n) ≡ value (pos n)
unfolding to_string
stoi-to_string n h =
    stoi_of_digits (show (suc n) n) n (starts-show (suc n) n (omega arith))
      (digits-show (suc n) n (omega arith)) h
