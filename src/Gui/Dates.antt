-- ===== src/Gui/Dates.antt =====
-- The list of dates in updateMessagesFromServer, against the filter of filterMessages.
use messenger_cpp_r.Base.{
  ◌≡◌, ◌≢◌, ◌↔◌, refl, sym, ap, ◌∙◌, ◌⊎◌, inl, inr, Bool, true, false, ◌||◌, none, some,
  Option-cases, Bool-cases, List, [], ◌∷◌, lit, str_eq, str_eq→eq, eq→str_eq, if◌then◌else◌, arith,
}
use messenger_cpp_r.Gui.Text.{QString, Qt}
use messenger_cpp_r.Gui.Tables.{MessageRow, matches_date}

abbrev pub has : QString → List QString → Bool
has d [] = false
has d (x ∷ xs) = str_eq x d || has d xs

-- QSet::insert
abbrev pub insert : QString → List QString → List QString
insert d set = if has d set then set else d ∷ set

-- QStringList::removeOne
abbrev pub remove_one : QString → List QString → List QString
remove_one d [] = []
remove_one d (x ∷ xs) = let rest = remove_one d xs in if str_eq x d then xs else x ∷ rest

module _ (qt : Qt) (sort : List QString → List QString) where
  -- The dates of the rows, in a set with "All".
  unfoldable pub unique_dates : List MessageRow → List QString → List QString
  unique_dates [] set = set
  unique_dates (row ∷ rows) set =
      unique_dates rows (elim (qt.iso_date row.timestamp) [ none ↦ set | some d ↦ insert d set ])

  -- What the box for the date offers; `sort` is QStringList::sort.
  unfoldable pub date_choices : List MessageRow → List QString
  unfolding unique_dates
  date_choices rows = lit "All" ∷ sort (remove_one (lit "All") (unique_dates rows (lit "All" ∷ [])))

  -- Some row has the date.
  abbrev pub HasDate : QString → List MessageRow → Type 0
  HasDate d [] = ⊥
  HasDate d (row ∷ rows) = (qt.iso_date row.timestamp ≡ some d) ⊎ HasDate d rows

  has-remove_one :
      (d a : QString) (xs : List QString) → str_eq a d ≡ false → has d (remove_one a xs) ≡ has d xs
  has-remove_one d a [] ne = refl
  has-remove_one d a (x ∷ xs) ne = elim (Bool-cases (str_eq x a)) [
    | inl same ↦ let e : x ≡ a = str_eq→eq x a same in rw same (rw e (rw ne refl))
    | inr other ↦ rw other (ap (λ b. str_eq x d || b) (has-remove_one d a xs ne))
  ]

  has-insert : (d a : QString) (xs : List QString) → has d (insert a xs) ≡ (str_eq a d || has d xs)
  has-insert d a xs = elim (Bool-cases (has a xs)) [
    | inr new ↦ rw new refl
    | inl old ↦ elim (Bool-cases (str_eq a d)) [
      | inr other ↦ rw (old, other) refl
      | inl same ↦ let e : a ≡ d = str_eq→eq a d same in rw (old, same) (rw (sym e) old)
    ]
  ]

  -- Once in the set, or with a row of its date, a date is there at the end.
  has-unique_dates :
      (d : QString) (rows : List MessageRow) (set : List QString)
      → (has d set ≡ true) ⊎ HasDate d rows
      → has d (unique_dates rows set) ≡ true
  unfolding unique_dates
  has-unique_dates d [] set (inl held) = held
  has-unique_dates d [] set (inr none_left) = absurd none_left
  has-unique_dates d (row ∷ rows) set (inr (inr later)) = has-unique_dates d rows _ (inr later)
  has-unique_dates d (row ∷ rows) set (inr (inl now)) =
      rw (now, unique_dates)
        (has-unique_dates d rows (insert d set)
          (inl (has-insert d d set ∙ rw (eq→str_eq d d refl) refl)))
  has-unique_dates d (row ∷ rows) set (inl held) = elim (Option-cases (qt.iso_date row.timestamp)) [
    | inl e ↦ rw (e, unique_dates) (has-unique_dates d rows set (inl held))
    | inr (a, e) ↦
        rw (e, unique_dates)
          (has-unique_dates d rows (insert a set) (inl (has-insert d a set ∙ ground (arith, held))))
  ]

  str_eq-apart : (a b : QString) → a ≢ b → str_eq a b ≡ false
  str_eq-apart a b ne = elim (Bool-cases (str_eq a b)) [
    | inl same ↦ absurd (ne (str_eq→eq a b same))
    | inr other ↦ other
  ]

  -- The date of a row that Qt reads as a time is offered, if Qt reads it back as a date and the sort keeps
  -- what it sorts; with it chosen, of the times that Qt reads, those of that date pass the filter, and no
  -- others.
  pub date_choices-matches_date :
      (rows : List MessageRow) (d timestamp other : QString)
      → ((x : QString) (xs : List QString) → has x (sort xs) ≡ has x xs)
      → qt.plain_date d ≡ some d
      → d ≢ lit "All"
      → HasDate d rows
      → qt.iso_date timestamp ≡ some other
      → (has d (date_choices rows) ≡ true) × ((matches_date qt d timestamp ≡ true) ↔ (other ≡ d))
  unfolding date_choices matches_date
  date_choices-matches_date rows d timestamp other keeps reads ne held e =
      let all = str_eq-apart (lit "All") d (λ f. ne (sym f)) in
      let offered : has d (date_choices rows) ≡ true = rw all (
        keeps d (remove_one (lit "All") (unique_dates rows (lit "All" ∷ [])))
        ∙ has-remove_one d (lit "All") (unique_dates rows (lit "All" ∷ [])) all
        ∙ has-unique_dates d rows (lit "All" ∷ []) (inr held)) in
      let tested : matches_date qt d timestamp ≡ str_eq d other =
        rw (str_eq-apart d (lit "All") ne, matches_date)
          (rw (reads, matches_date) (rw (e, matches_date) refl)) in
      (
        offered,
        (
          (λ f. sym (str_eq→eq d other (sym tested ∙ f))),
          (λ f. tested ∙ eq→str_eq d other (sym f)),
        ),
      )
