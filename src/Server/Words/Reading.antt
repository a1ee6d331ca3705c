-- ===== src/Server/Words/Reading.antt =====
-- The words of a std::istringstream that were joined with spaces.
use messenger_cpp_r.Base.{
  ℕ, ◌<◌, ◌≡◌, refl, sym, ap, ◌∙◌, Bool, true, false, [], ◌∷◌, ◌++◌, append-nil, arith, Bytes,
  length, all_of, ◌==◌, if◌then◌else◌,
}
use messenger_cpp_r.Server.Auth.{is_valid_login, is_valid_login_iff, is_login_char}
use messenger_cpp_r.Server.Words.{
  is_space, skip_spaces, span_word, read_word, read_line, tail, no_space,
}

-- A non-empty run of characters that are not spaces.
pub record IsWord (w : Bytes) : Type 0 where
  pub plain : all_of no_space w ≡ true
  pub some_char : 0 < length w

span_word-append :
    (w rest : Bytes) → all_of no_space w ≡ true → span_word (w ++ 32 ∷ rest) ≡ (w, 32 ∷ rest)
unfolding span_word all_of no_space
span_word-append [] rest h = refl
span_word-append (c ∷ cs) rest h = ground (arith, span_word-append cs rest)

span_word-last : (w : Bytes) → all_of no_space w ≡ true → span_word w ≡ (w, [])
unfolding span_word all_of no_space
span_word-last [] h = refl
span_word-last (c ∷ cs) h = ground (arith, span_word-last cs)

pub skip_spaces-word : (w rest : Bytes) → IsWord w → skip_spaces (w ++ rest) ≡ w ++ rest
unfolding skip_spaces all_of no_space
skip_spaces-word [] rest h = absurd (omega (arith, h.some_char))
skip_spaces-word (c ∷ cs) rest h = ground (arith, h.plain)

-- A word in front of a space is read, and the space is left.
pub read_word-append : (w rest : Bytes) → IsWord w → read_word (w ++ 32 ∷ rest) ≡ (w, 32 ∷ rest)
unfolding read_word
read_word-append w rest h =
    ap span_word (skip_spaces-word w (32 ∷ rest) h) ∙ span_word-append w rest h.plain

pub read_word-last : (w : Bytes) → IsWord w → read_word w ≡ (w, [])
unfolding read_word
read_word-last w h =
    ap span_word (ap skip_spaces (sym (append-nil w)) ∙ skip_spaces-word w [] h ∙ append-nil w)
    ∙ span_word-last w h.plain

-- One space in front changes nothing.
pub read_word-space : (stream : Bytes) → read_word (32 ∷ stream) ≡ read_word stream
unfolding read_word skip_spaces
read_word-space stream = refl

unfoldable pub no_newline : ℕ → Bool
no_newline c = if c == 10 then false else true

pub read_line-text : (t : Bytes) → all_of no_newline t ≡ true → read_line t ≡ t
unfolding read_line all_of no_newline
read_line-text [] h = refl
read_line-text (c ∷ cs) h = ground (arith, read_line-text cs)

-- Text without a newline is read back whole behind the space that separates it.
pub tail-text : (text : Bytes) → all_of no_newline text ≡ true → tail (32 ∷ text) ≡ text
unfolding tail
tail-text text h = read_line-text text h

login_char-no_space : (c : ℕ) → is_login_char c ≡ true → no_space c ≡ true
unfolding is_login_char no_space is_space
login_char-no_space c h = ground arith

login_chars-no_space : (s : Bytes) → all_of is_login_char s ≡ true → all_of no_space s ≡ true
unfolding all_of
login_chars-no_space [] h = refl
login_chars-no_space (c ∷ cs) h = ground (arith, login_char-no_space c, login_chars-no_space cs)

-- A login that a registration accepts is one word of a command.
pub valid_login-IsWord : (s : Bytes) → is_valid_login s ≡ true → IsWord s
valid_login-IsWord s h =
    let (lo, hi, chars) = (is_valid_login_iff s).0 h in
    record { plain = login_chars-no_space s chars; some_char = omega arith }
