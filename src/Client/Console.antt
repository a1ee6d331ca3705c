-- ===== src/Client/Console.antt =====
-- UI.cpp: the menus and the prompts, over what is left of std::cin and its fail bit. The end of the
-- input is the empty rest, where every read fails.
pub mod Ends
pub mod Lines
use messenger_cpp_r.Base.{
  ℕ, ◌+◌, Bool, true, false, ◌&&◌, Option, none, some, [], ◌∷◌, ◌++◌, Bytes, is_empty, leb, ◌==◌,
  if◌then◌else◌,
}
use messenger_cpp_r.Server.Words.{skip_spaces, span_word, read_word}
use messenger_cpp_r.Client.{credentials}

pub record Input : Type 0 where
  pub rest : Bytes
  pub failed : Bool

-- std::cin >> c, for a char
unfoldable pub read_char : Input → Option ℕ × Input
unfolding skip_spaces
read_char i = if i.failed then (none, i) else elim (skip_spaces i.rest) [
  | [] ↦ (none, record { rest = []; failed = true })
  | c ∷ cs ↦ (some c, record { rest = cs; failed = false })
]

-- std::cin >> s, for a std::string that is empty before; it stays empty if nothing is read.
unfoldable pub read_string : Input → Bytes × Input
unfolding read_word
read_string i =
    if i.failed
    then ([], i)
    else let (word, left) = read_word i.rest in
      (word, record { rest = left; failed = is_empty word })

unfoldable pub after_newline : Bytes → Bytes
after_newline [] = []
after_newline (c ∷ cs) = if c == 10 then cs else after_newline cs

-- std::cin.ignore(max, '\n')
unfoldable pub ignore_line : Input → Input
unfolding after_newline
ignore_line i = if i.failed then i else record i { rest = after_newline i.rest }

unfoldable pub up_to_newline : Bytes → Bytes
up_to_newline [] = []
up_to_newline (c ∷ cs) = if c == 10 then [] else c ∷ up_to_newline cs

-- std::getline, which fails where it finds nothing, not even a newline.
unfoldable pub get_line : Input → Option Bytes × Input
unfolding after_newline up_to_newline
get_line i =
    if i.failed
    then (none, i)
    else if is_empty i.rest
    then (none, record i { failed = true })
    else (some (up_to_newline i.rest), record i { rest = after_newline i.rest })

-- std::tolower in the C locale
unfoldable pub to_lower : ℕ → ℕ
to_lower c = if leb b'A' c && leb c b'Z' then c + 32 else c

-- The key pressed, or 0 where reading failed and the stream was cleared.
unfoldable pub show_initial_menu : Input → ℕ × Input
unfolding read_char to_lower
show_initial_menu i =
    let (c, j) = read_char i in
    elim c [
      | none ↦ (0, ignore_line (record j { failed = false }))
      | some k ↦ (to_lower k, ignore_line j)
    ]

unfoldable pub show_user_menu : Input → ℕ × Input
unfolding read_char to_lower
show_user_menu i =
    let (c, j) = read_char i in
    elim c [
      | none ↦ (0, ignore_line (record j { failed = false }))
      | some k ↦ (to_lower k, ignore_line j)
    ]

unfoldable pub prompt_login : Input → Bytes × Input
unfolding read_string
prompt_login i =
    let (login, j) = read_string i in
    if is_empty login
    then ([], j)
    else let (password, k) = read_string j in
      if is_empty password then ([], k) else (credentials login password, ignore_line k)

unfoldable pub prompt_registration : Input → Bytes × Input
unfolding read_string
prompt_registration i =
    let (login, j) = read_string i in
    if is_empty login
    then ([], j)
    else let (password, k) = read_string j in
      if is_empty password then ([], k) else (credentials login password, ignore_line k)

unfoldable pub prompt_target_user : Input → Bytes × Input
unfolding read_string
prompt_target_user i =
    let (u, j) = read_string i in if is_empty u then ([], j) else (u, ignore_line j)

unfoldable pub prompt_message : Input → Bytes × Input
prompt_message i = let (line, j) = get_line i in elim line [ none ↦ ([], j) | some msg ↦ (msg, j) ]
