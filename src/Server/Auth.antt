-- ===== src/Server/Auth.antt =====
-- root/app/server/src/Auth.cpp: which passwords and logins a registration takes. The character
-- classes are those of the C locale.
use messenger_cpp_r.Base.{
  ℕ, ◌≤◌, ◌≡◌, ◌↔◌, refl, Bool, true, false, not, ◌&&◌, ◌||◌, [], ◌∷◌, arith, Bytes, lit, length,
  all_of, any_of, ltb, leb, ◌==◌, if◌then◌else◌,
}

abbrev pub min_password_length : ℕ
min_password_length = 10

pub record PasswordPolicyResult : Type 0 where
  pub ok : Bool
  pub message : Bytes

unfoldable pub is_digit : ℕ → Bool
is_digit c = leb b'0' c && leb c b'9'

unfoldable pub is_alpha : ℕ → Bool
is_alpha c = (leb b'A' c && leb c b'Z') || (leb b'a' c && leb c b'z')

unfoldable pub is_alnum : ℕ → Bool
unfolding is_digit is_alpha
is_alnum c = is_alpha c || is_digit c

-- The loop over the characters, with its two flags.
unfoldable pub scan_password : Bool → Bool → Bytes → Bool × Bool
unfolding is_digit is_alpha
scan_password has_letter has_digit [] = (has_letter, has_digit)
scan_password has_letter has_digit (c ∷ cs) =
    scan_password (has_letter || is_alpha c) (has_digit || is_digit c) cs

unfoldable pub validate_password : Bytes → PasswordPolicyResult
unfolding scan_password
validate_password password =
    if ltb (length password) min_password_length
    then record { ok = false; message = lit "password must be at least 10 characters" }
    else let (has_letter, has_digit) = scan_password false false password in
      if not has_letter || not has_digit
      then record { ok = false; message = lit "password must contain letters and digits" }
      else record { ok = true; message = [] }

unfoldable pub is_login_char : ℕ → Bool
unfolding is_alnum
is_login_char c = is_alnum c || c == b'_' || c == b'-' || c == b'.'

unfoldable pub is_valid_login : Bytes → Bool
is_valid_login login =
    if ltb (length login) 3 || ltb 50 (length login) then false else all_of is_login_char login

scan_password-any_of :
    (l d : Bool) (s : Bytes)
    → scan_password l d s ≡ ((l || any_of is_alpha s), (d || any_of is_digit s))
unfolding scan_password any_of
scan_password-any_of l d [] = ground arith
scan_password-any_of l d (c ∷ cs) =
    ground (arith, scan_password-any_of (l || is_alpha c) (d || is_digit c) cs)

-- A password is accepted exactly when it has ten characters or more, one of them at least a letter
-- and one at least a digit.
pub validate_password_iff :
    (s : Bytes)
    → ((validate_password s).ok ≡ true)
      ↔ ((10 ≤ length s) × (any_of is_alpha s ≡ true) × (any_of is_digit s ≡ true))
unfolding validate_password
validate_password_iff s = (
  λ h. ground (arith, scan_password-any_of false false s),
  λ (h : (10 ≤ length s) × (any_of is_alpha s ≡ true) × (any_of is_digit s ≡ true)).
      ground (arith, scan_password-any_of false false s),
)

-- A rejected password is told why: it is too short, or else it lacks a letter or a digit.
pub validate_password-message :
    (s : Bytes)
    → (validate_password s).ok ≡ false
    → (validate_password s).message ≡ (
        if ltb (length s) 10
        then lit "password must be at least 10 characters"
        else lit "password must contain letters and digits")
unfolding validate_password
validate_password-message s h = ground arith

-- A login is valid exactly when it has 3 to 50 characters, each a letter, a digit, '.', '_' or '-'.
pub is_valid_login_iff :
    (s : Bytes)
    → (is_valid_login s ≡ true)
      ↔ ((3 ≤ length s) × (length s ≤ 50) × (all_of is_login_char s ≡ true))
unfolding is_valid_login
is_valid_login_iff s = (
  λ h. ground arith,
  λ (h : (3 ≤ length s) × (length s ≤ 50) × (all_of is_login_char s ≡ true)). ground arith,
)

short_password : (validate_password (lit "short1")).ok ≡ false
unfolding validate_password is_alpha is_digit
short_password = refl

good_password : (validate_password (lit "Correct123")).ok ≡ true
unfolding validate_password is_alpha is_digit
good_password = refl

good_login : is_valid_login (lit "alice_1") ≡ true
unfolding is_valid_login all_of is_login_char is_alnum is_alpha is_digit
good_login = refl
