-- ===== src/Server/Numbers.antt =====
-- The conversions of the standard library that the code calls on text: std::stoi, std::stoul and
-- std::to_string, in base ten and with their errors.
pub mod RoundTrip
use messenger_cpp_r.Base.{
  ℕ, zero, suc, ◌+◌, ◌-◌, ◌*◌, ◌/◌, ◌%◌, ◌^◌, Bool, true, false, Option, none, some, List, [], ◌∷◌,
  ◌++◌, Bytes, ltb, leb, ◌==◌, if◌then◌else◌, ℤ, pos, negsuc, is_empty, lit,
}
use messenger_cpp_r.Server.Auth.{is_digit}
use messenger_cpp_r.Server.Words.{skip_spaces}

-- std::invalid_argument or std::out_of_range
pub data NumberError : Type 0 where
  invalid_argument out_of_range : NumberError

pub data Parsed {ℓ} (A : Type ℓ) : Type ℓ where
  value : A → Parsed A
  failure : NumberError → Parsed A

-- The value of the digits in front; what follows them is ignored.
unfoldable pub digits : ℕ → Bytes → ℕ
unfolding is_digit
digits n [] = n
digits n (c ∷ cs) = let rest = digits (n * 10 + (c - 48)) cs in if is_digit c then rest else n

abbrev pub starts_with_digit : Bytes → Bool
starts_with_digit [] = false
starts_with_digit (c ∷ cs) = is_digit c

-- A sign, if there is one, and the text behind it.
unfoldable pub split_sign : Bytes → Bool × Bytes
split_sign [] = (false, [])
split_sign (c ∷ cs) =
    if c == b'-' then (true, cs) else if c == b'+' then (false, cs) else (false, c ∷ cs)

unfoldable pub negate : ℕ → ℤ
negate zero = pos 0
negate (suc n) = negsuc n

unfoldable pub stoi : Bytes → Parsed ℤ
unfolding digits split_sign negate skip_spaces is_digit
stoi text =
    let (negative, body) = split_sign (skip_spaces text) in
    let n = digits 0 body in
    if starts_with_digit body
    then if negative
      then (if ltb (2 ^ 31) n then failure out_of_range else value (negate n))
      else (if ltb n (2 ^ 31) then value (pos n) else failure out_of_range)
    else failure invalid_argument

-- std::stoul takes a sign too: a negative number wraps round.
unfoldable pub stoul : Bytes → Parsed ℕ
unfolding digits split_sign skip_spaces is_digit
stoul text =
    let (negative, body) = split_sign (skip_spaces text) in
    let n = digits 0 body in
    if starts_with_digit body
    then if ltb n (2 ^ 64)
      then value (if negative then (2 ^ 64 - n) % 2 ^ 64 else n)
      else failure out_of_range
    else failure invalid_argument

show : ℕ → ℕ → Bytes
show zero n = []
show (suc fuel) n =
    let front = show fuel (n / 10) in
    if ltb n 10 then (48 + n) ∷ [] else front ++ (48 + n % 10) ∷ []

-- A number has no more digits than its successor counts.
unfoldable pub to_string : ℕ → Bytes
unfolding show
to_string n = show (suc n) n

-- std::to_string of an int
abbrev pub int_text : ℤ → Bytes
int_text (pos n) = to_string n
int_text (negsuc n) = lit "-" ++ to_string (n + 1)
