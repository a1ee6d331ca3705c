-- ===== src/Tests/AsciiQt.antt =====
-- A Qt over ASCII text, where a text is its bytes.
use messenger_cpp_r.Base.{
  ℕ, ◌≡◌, ◌↔◌, refl, sym, ap, ◌∙◌, inl, inr, Bool, true, false, ◌&&◌, Bool-cases, some, List, [],
  ◌∷◌, ◌++◌, arith, all_of, ◌==◌, if◌then◌else◌, str_eq,
}
use messenger_cpp_r.Gui.Text.{QString, Qt, IsQt, not_space}

abbrev is_prefix : QString → QString → Bool
is_prefix [] s = true
is_prefix (c ∷ cs) [] = false
is_prefix (c ∷ cs) (d ∷ ds) = c == d && is_prefix cs ds

is_prefix-append : (front rest : QString) → is_prefix front (front ++ rest) ≡ true
is_prefix-append [] rest = refl
is_prefix-append (c ∷ cs) rest = ground (arith, is_prefix-append cs rest)

is_prefix-rest :
    (front s : QString) → is_prefix front s ≡ true → (rest : QString) × (s ≡ front ++ rest)
is_prefix-rest [] s h = (s, refl)
is_prefix-rest (c ∷ cs) [] h = cc
is_prefix-rest (c ∷ cs) (d ∷ ds) h = elim (Bool-cases (c == d)) [
  | inl same ↦ let (rest, e) = is_prefix-rest cs ds (rw same at h) in (rest, ground (arith, e))
  | inr other ↦ absurd (ground arith)
]

abbrev with_first : ℕ → List QString → List QString
with_first c [] = (c ∷ []) ∷ []
with_first c (p ∷ ps) = (c ∷ p) ∷ ps

abbrev parts : QString → List QString
parts [] = [] ∷ []
parts (c ∷ cs) = let rest = parts cs in if c == 32 then [] ∷ rest else with_first c rest

abbrev joined : List QString → QString
joined [] = []
joined (p ∷ []) = p
joined (p ∷ q ∷ ps) = p ++ 32 ∷ joined (q ∷ ps)

parts_part :
    (s rest : QString) → all_of not_space s ≡ true → parts (s ++ 32 ∷ rest) ≡ s ∷ parts rest
unfolding all_of not_space
parts_part [] rest h = refl
parts_part (c ∷ cs) rest h = ground (arith, parts_part cs rest)

parts_last : (s : QString) → all_of not_space s ≡ true → parts s ≡ s ∷ []
unfolding all_of not_space
parts_last [] h = refl
parts_last (c ∷ cs) h = ground (arith, parts_last cs)

parts-cons : (s : QString) → (p : QString) × (ps : List QString) × (parts s ≡ p ∷ ps)
parts-cons [] = ([], [], refl)
parts-cons (c ∷ cs) = elim (Bool-cases (c == 32)) [
  | inl space ↦ ([], parts cs, rw space refl)
  | inr other ↦ let (p, ps, e) = parts-cons cs in (c ∷ p, ps, rw (other, e) refl)
]

joined-with_first :
    (c : ℕ) (p : QString) (ps : List QString) → joined ((c ∷ p) ∷ ps) ≡ c ∷ joined (p ∷ ps)
joined-with_first c p [] = refl
joined-with_first c p (q ∷ ps) = refl

joined-parts : (s : QString) → joined (parts s) ≡ s
joined-parts [] = refl
joined-parts (c ∷ cs) =
    let (p, ps, e) = parts-cons cs in
    let rest : joined (p ∷ ps) ≡ cs = ap joined (sym e) ∙ joined-parts cs in
    elim (Bool-cases (c == 32)) [
      | inl space ↦ rw (space, e) (ground (arith, rest))
      | inr other ↦ rw (other, e) (joined-with_first c p ps ∙ ap (λ t. c ∷ t) rest)
    ]

abbrev pub ascii_qt : Qt
ascii_qt = record {
  from_utf8 = λ s. s;
  utf8_tail = λ s. s;
  to_utf8 = λ s. s;
  starts_with = λ s front. is_prefix front s;
  contains = λ s part. str_eq s part;
  split = parts;
  join = joined;
  trimmed = λ s. s;
  to_lower = λ s. s;
  iso_date = λ s. some s;
  plain_date = λ s. some s;
}

starts_iff :
    (s front : QString) → (is_prefix front s ≡ true) ↔ ((rest : QString) × (s ≡ front ++ rest))
starts_iff s front = (is_prefix-rest front s, λ (rest, e). rw e (is_prefix-append front rest))

pub ascii_qt-IsQt : IsQt ascii_qt
ascii_qt-IsQt = record {
  from_utf8_ascii = λ c bs h. refl;
  utf8_tail_ascii = λ c bs h. refl;
  utf8_tail_empty = refl;
  to_utf8_ascii = λ s h. refl;
  starts_with_iff = starts_iff;
  split_part = parts_part;
  split_last = parts_last;
  join-split = joined-parts;
}
