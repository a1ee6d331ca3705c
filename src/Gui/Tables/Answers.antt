-- ===== src/Gui/Tables/Answers.antt =====
-- What both tables need of the server's lines: plain logins and times, and rows out of lines.
use messenger_cpp_r.Base.{
  ℕ, ◌≤◌, ◌≡◌, refl, ap, Bool, true, Option, none, some, List, [], ◌∷◌, ◌++◌, map, arith, Bytes,
  All, all_of, length, ◌&&◌,
}
use messenger_cpp_r.Server.Auth.{
  is_valid_login, is_valid_login_iff, is_login_char, is_alnum, is_alpha, is_digit,
}
use messenger_cpp_r.Server.Database.{
  role_text, status_text, Role, user, moderator, admin, Status, online, offline, banned,
}
use messenger_cpp_r.Gui.Text.{QString, Qt, IsAscii, not_space}
use messenger_cpp_r.Gui.Text.Lines.{IsPlain}
use messenger_cpp_r.Gui.Tables.{collect}

-- to_char with YYYY-MM-DD"T"HH24:MI:SS"Z" prints no space and no more than this.
abbrev pub IsTime : Bytes → Type 0
IsTime t = IsPlain t × (length t ≤ 100)

and_inv : (a b : Bool) → (a && b) ≡ true → (a ≡ true) × (b ≡ true)
and_inv a b h = ground arith

login_char-plain : (c : ℕ) → is_login_char c ≡ true → IsAscii c × (not_space c ≡ true)
unfolding is_login_char is_alnum is_alpha is_digit not_space
login_char-plain c h = ground arith

login_chars-plain : (s : Bytes) → all_of is_login_char s ≡ true → IsPlain s
unfolding all_of
login_chars-plain [] h = record { ascii = tt; one_part = refl }
login_chars-plain (c ∷ cs) h =
    let (hc, hcs) = and_inv (is_login_char c) (all_of is_login_char cs) h in
    let (ascii, one_part) = login_char-plain c hc in
    let rest = login_chars-plain cs hcs in
    record { ascii = (ascii, rest.ascii); one_part = rw one_part rest.one_part }

pub IsLogin-valid : (s : Bytes) → is_valid_login s ≡ true → IsPlain s × (length s ≤ 50)
IsLogin-valid s h =
    let (lo, hi, chars) = (is_valid_login_iff s).0 h in (login_chars-plain s chars, hi)

pub length-status_text : (x : Status) → length (status_text x) ≤ 10
length-status_text online = omega arith
length-status_text offline = omega arith
length-status_text banned = omega arith

pub length-role_text : (x : Role) → length (role_text x) ≤ 10
length-role_text user = omega arith
length-role_text moderator = omega arith
length-role_text admin = omega arith

pub map-All :
    {A B : Type 0} (P : A → Type 0) (Q : B → Type 0) (f : A → B)
    → ((a : A) → P a → Q (f a))
    → (xs : List A) → All P xs
    → All Q (map f xs)
map-All P Q f step [] h = tt
map-All P Q f step (x ∷ xs) (hx, h) = (step x hx, map-All P Q f step xs h)

pub length-map : {A B : Type 0} (f : A → B) (xs : List A) → length (map f xs) ≡ length xs
length-map f [] = refl
length-map f (x ∷ xs) = omega (arith, length-map f xs)

module _ (qt : Qt) where
  pub collect-lines :
      {A R : Type 0} (row : QString → Option R) (show : A → R) (P : A → Type 0) (line : A → Bytes)
      (last : Bytes)
      → ((a : A) → P a → row (qt.from_utf8 (line a)) ≡ some (show a))
      → row (qt.from_utf8 last) ≡ none
      → (xs : List A) → All P xs
      → collect row (map qt.from_utf8 (map line xs ++ last ∷ [])) ≡ map show xs
  collect-lines row show P line last rows skipped [] h = rw skipped refl
  collect-lines row show P line last rows skipped (x ∷ xs) (hx, h) =
      rw (rows x hx, collect)
        (ap (λ t. show x ∷ t) (collect-lines row show P line last rows skipped xs h))
