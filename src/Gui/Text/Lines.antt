-- ===== src/Gui/Text/Lines.antt =====
-- Lines of words in Qt's text.
use messenger_cpp_r.Base.{
  ℕ, ◌≡◌, ◌≢◌, refl, sym, ap, ◌∙◌, ◌⊎◌, inl, inr, true, false, Bool-cases, List, [], ◌∷◌, ◌++◌,
  append-nil, arith, Bytes, All, all_of, ◌==◌, ==_iff,
}
use messenger_cpp_r.Server.Handler.Commands.{spaced}
use messenger_cpp_r.Gui.Text.{QString, Qt, IsQt, IsAscii, not_space, utf8_tail-append}

-- ASCII without a space.
pub record IsPlain (s : Bytes) : Type 0 where
  pub ascii : All IsAscii s
  pub one_part : all_of not_space s ≡ true

spaced-cons :
    (w : Bytes) (ws : List Bytes) (t : Bytes)
    → spaced (w ∷ ws ++ t ∷ []) ≡ w ++ 32 ∷ spaced (ws ++ t ∷ [])
unfolding spaced
spaced-cons w [] t = refl
spaced-cons w (v ∷ vs) t = refl

-- A text is one part, or a part, a space and a rest.
first_part :
    (s : QString)
    → (all_of not_space s ≡ true)
      ⊎ ((a : QString) × (b : QString) × (s ≡ a ++ 32 ∷ b) × (all_of not_space a ≡ true))
unfolding all_of not_space
first_part [] = inl refl
first_part (c ∷ cs) = elim (Bool-cases (c == 32)) [
  | inl space ↦ inr ([], cs, ap (λ x. x ∷ cs) ((==_iff c 32).0 space), refl)
  | inr other ↦ elim (first_part cs) [
    | inl one ↦ inl (rw other one)
    | inr (a, b, e, plain) ↦ inr (c ∷ a, b, ap (λ x. c ∷ x) e, rw other plain)
  ]
]

module _ (qt : Qt) (laws : IsQt qt) where
  pub starts-with : (front rest : QString) → qt.starts_with (front ++ rest) front ≡ true
  starts-with front rest = (laws.starts_with_iff (front ++ rest) front).1 (rest, refl)

  pub utf8_tail-ascii : (s : Bytes) → All IsAscii s → qt.utf8_tail s ≡ s
  utf8_tail-ascii s h =
      ap qt.utf8_tail (sym (append-nil s))
      ∙ utf8_tail-append qt laws s [] h
      ∙ ap (λ t. s ++ t) laws.utf8_tail_empty
      ∙ append-nil s

  utf8_tail-spaced :
      (ws : List Bytes) (t : Bytes)
      → All IsPlain ws
      → qt.utf8_tail (spaced (ws ++ t ∷ [])) ≡ spaced (ws ++ qt.utf8_tail t ∷ [])
  unfolding spaced
  utf8_tail-spaced [] t h = refl
  utf8_tail-spaced (w ∷ ws) t (hw, hws) =
      ap qt.utf8_tail (spaced-cons w ws t)
      ∙ utf8_tail-append qt laws w (32 ∷ spaced (ws ++ t ∷ [])) hw.ascii
      ∙ ap (λ x. w ++ x)
          (laws.utf8_tail_ascii 32 (spaced (ws ++ t ∷ [])) (omega arith)
            ∙ ap (λ x. 32 ∷ x) (utf8_tail-spaced ws t hws))
      ∙ sym (spaced-cons w ws (qt.utf8_tail t))

  pub split-spaced :
      (ws : List Bytes) (t : Bytes)
      → All IsPlain ws
      → qt.split (spaced (ws ++ t ∷ [])) ≡ ws ++ qt.split t
  unfolding spaced
  split-spaced [] t h = refl
  split-spaced (w ∷ ws) t (hw, hws) =
      ap qt.split (spaced-cons w ws t)
      ∙ laws.split_part w (spaced (ws ++ t ∷ [])) hw.one_part
      ∙ ap (λ x. w ∷ x) (split-spaced ws t hws)

  from_utf8-first : (c : ℕ) (bs : Bytes) → IsAscii c → qt.from_utf8 (c ∷ bs) ≡ qt.utf8_tail (c ∷ bs)
  from_utf8-first c bs h = laws.from_utf8_ascii c bs h ∙ sym (laws.utf8_tail_ascii c bs h)

  pub split_some : (s : QString) → (p : QString) × (ps : List QString) × (qt.split s ≡ p ∷ ps)
  split_some s = elim (first_part s) [
    | inl one ↦ (s, [], laws.split_last s one)
    | inr (a, b, e, plain) ↦ (a, qt.split b, ap qt.split e ∙ laws.split_part a b plain)
  ]

  pub from_utf8-spaced :
      (c : ℕ) (cs : Bytes) (ws : List Bytes) (t : Bytes)
      → All IsPlain ((c ∷ cs) ∷ ws)
      → qt.from_utf8 (spaced ((c ∷ cs) ∷ ws ++ t ∷ []))
        ≡ spaced ((c ∷ cs) ∷ ws ++ qt.utf8_tail t ∷ [])
  from_utf8-spaced c cs ws t h =
      ap qt.from_utf8 (spaced-cons (c ∷ cs) ws t)
      ∙ from_utf8-first c (cs ++ 32 ∷ spaced (ws ++ t ∷ [])) h.0.ascii.0
      ∙ ap qt.utf8_tail (sym (spaced-cons (c ∷ cs) ws t))
      ∙ utf8_tail-spaced ((c ∷ cs) ∷ ws) t h

  -- An ASCII literal is what it was.
  pub from_utf8-ascii : (c : ℕ) (s : Bytes) → All IsAscii (c ∷ s) → qt.from_utf8 (c ∷ s) ≡ c ∷ s
  from_utf8-ascii c s h = from_utf8-first c s h.0 ∙ utf8_tail-ascii (c ∷ s) h

  pub not-starts :
      (s front : QString) → ((rest : QString) → s ≢ front ++ rest) → qt.starts_with s front ≡ false
  not-starts s front differs = elim (Bool-cases (qt.starts_with s front)) [
    | inl yes_starts ↦
        let (rest, e) = (laws.starts_with_iff s front).0 yes_starts in absurd (differs rest e)
    | inr no_start ↦ no_start
  ]
