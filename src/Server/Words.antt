-- ===== src/Server/Words.antt =====
-- Reading words and the rest of a line from a std::istringstream, as the command loops do. The
-- stream is the list of the bytes that are left.
pub mod Reading
use messenger_cpp_r.Base.{
  ℕ, ◌≡◌, refl, Bool, true, false, ◌&&◌, ◌||◌, List, [], ◌∷◌, ◌++◌, arith, Bytes, ltb, leb, ◌==◌,
  if◌then◌else◌,
}

-- std::isspace in the C locale
unfoldable pub is_space : ℕ → Bool
is_space c = c == 32 || (leb 9 c && leb c 13)

unfoldable pub skip_spaces : Bytes → Bytes
unfolding is_space
skip_spaces [] = []
skip_spaces (c ∷ cs) = if is_space c then skip_spaces cs else c ∷ cs

-- The characters up to the next space, and what follows them.
unfoldable pub span_word : Bytes → Bytes × Bytes
unfolding is_space
span_word [] = ([], [])
span_word (c ∷ cs) =
    let (word, rest) = span_word cs in if is_space c then ([], c ∷ cs) else (c ∷ word, rest)

-- `stream >> word`; at the end of the stream the word stays empty.
unfoldable pub read_word : Bytes → Bytes × Bytes
unfolding skip_spaces span_word
read_word stream = span_word (skip_spaces stream)

-- std::getline
unfoldable pub read_line : Bytes → Bytes
read_line [] = []
read_line (c ∷ cs) = if c == 10 then [] else c ∷ read_line cs

drop_space : Bytes → Bytes
drop_space [] = []
drop_space (c ∷ cs) = if c == 32 then cs else c ∷ cs

-- `tail` of ClientHandler.cpp: the line, less one space in front.
unfoldable pub tail : Bytes → Bytes
unfolding read_line drop_space
tail stream = drop_space (read_line stream)

-- What a command may hold as one word.
unfoldable pub no_space : ℕ → Bool
unfolding is_space
no_space c = if is_space c then false else true
