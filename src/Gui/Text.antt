-- ===== src/Gui/Text.antt =====
-- What the window uses of Qt's text: a QString is the list of its UTF-16 code units, and the
-- functions on it are the parameter `Qt`, with what their documentation says of them.
pub mod Lines
use messenger_cpp_r.Base.{
  ℕ, ◌<◌, ◌≡◌, refl, ap, ◌∙◌, ◌↔◌, Bool, true, Option, List, [], ◌∷◌, ◌++◌, Bytes, All, all_of,
  ◌==◌, if◌then◌else◌,
}

abbrev pub QString : Type 0
QString = List ℕ

-- `split` and `join` are at a space, `split` with Qt::KeepEmptyParts. `utf8_tail` is how fromUtf8 goes
-- on behind a first character; at the start it drops a byte order mark. `iso_date` is the date of a text
-- that QDateTime::fromString reads as Qt::ISODate, `plain_date` that of QDate::fromString with
-- yyyy-MM-dd; a date is the text that toString("yyyy-MM-dd") prints.
pub record Qt : Type 0 where
  pub from_utf8 : Bytes → QString
  pub utf8_tail : Bytes → QString
  pub to_utf8 : QString → Bytes
  pub starts_with : QString → QString → Bool
  pub contains : QString → QString → Bool
  pub split : QString → List QString
  pub join : List QString → QString
  pub trimmed : QString → QString
  pub to_lower : QString → QString
  pub iso_date : QString → Option QString
  pub plain_date : QString → Option QString

abbrev pub IsAscii : ℕ → Type 0
IsAscii c = c < 128

unfoldable pub not_space : ℕ → Bool
not_space c = if c == 32 then Bool.false else true

pub record IsQt (qt : Qt) : Type 0 where
  pub from_utf8_ascii :
      (c : ℕ) (bs : Bytes) → IsAscii c → qt.from_utf8 (c ∷ bs) ≡ c ∷ qt.utf8_tail bs
  pub utf8_tail_ascii :
      (c : ℕ) (bs : Bytes) → IsAscii c → qt.utf8_tail (c ∷ bs) ≡ c ∷ qt.utf8_tail bs
  pub utf8_tail_empty : qt.utf8_tail [] ≡ []
  pub to_utf8_ascii : (s : QString) → All IsAscii s → qt.to_utf8 s ≡ s
  pub starts_with_iff :
      (s front : QString)
      → (qt.starts_with s front ≡ true) ↔ ((rest : QString) × (s ≡ front ++ rest))
  pub split_part :
      (s rest : QString) → all_of not_space s ≡ true → qt.split (s ++ 32 ∷ rest) ≡ s ∷ qt.split rest
  pub split_last : (s : QString) → all_of not_space s ≡ true → qt.split s ≡ s ∷ []
  pub join-split : (s : QString) → qt.join (qt.split s) ≡ s

module _ (qt : Qt) (laws : IsQt qt) where
  pub utf8_tail-append :
      (s bs : Bytes) → All IsAscii s → qt.utf8_tail (s ++ bs) ≡ s ++ qt.utf8_tail bs
  utf8_tail-append [] bs h = refl
  utf8_tail-append (c ∷ cs) bs (hc, h) =
      laws.utf8_tail_ascii c (cs ++ bs) hc ∙ ap (λ t. c ∷ t) (utf8_tail-append cs bs h)

  pub from_utf8-append :
      (c : ℕ) (s bs : Bytes)
      → All IsAscii (c ∷ s)
      → qt.from_utf8 (c ∷ s ++ bs) ≡ c ∷ s ++ qt.utf8_tail bs
  from_utf8-append c s bs (hc, h) =
      laws.from_utf8_ascii c (s ++ bs) hc ∙ ap (λ t. c ∷ t) (utf8_tail-append s bs h)
