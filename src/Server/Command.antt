-- ===== src/Server/Command.antt =====
-- What ClientHandler::run reads from a frame: the command's name and its arguments.
use messenger_cpp_r.Base.{Bytes, lit, str_eq, is_empty, if◌then◌else◌, ℤ, pos}
use messenger_cpp_r.Server.Words.{read_word, tail}
use messenger_cpp_r.Server.Numbers.{value, failure, stoi}

pub data Command : Type 0 where
  register_as log_in_as : Bytes → Bytes → Command
  log_out list_users read_inbox : Command
  message_to : Bytes → Bytes → Command
  history_with : Bytes → ℤ → ℤ → Command
  all_messages : ℤ → Command
  ban unban kick : Bytes → Command
  unknown : Command

unfoldable pub parse_int_or_default : Bytes → ℤ → ℤ
unfolding stoi
parse_int_or_default text fallback =
    if is_empty text then fallback else elim (stoi text) [ value n ↦ n | failure e ↦ fallback ]

-- `iss >> a >> b`
abbrev pub two_words : Bytes → (Bytes → Bytes → Command) → Command
two_words stream make =
    let (a, rest) = read_word stream in let (b, rest') = read_word rest in make a b

abbrev pub one_word : Bytes → (Bytes → Command) → Command
one_word stream make = let (a, rest) = read_word stream in make a

abbrev pub message_words : Bytes → Command
message_words stream = let (to, rest) = read_word stream in message_to to (tail rest)

abbrev pub history_words : Bytes → Command
history_words stream =
    let (target, rest) = read_word stream in
    let (limit_text, rest') = read_word rest in
    let (offset_text, rest'') = read_word rest' in
    history_with target (parse_int_or_default limit_text (pos 50))
      (parse_int_or_default offset_text (pos 0))

abbrev pub command_of : Bytes → Bytes → Command
command_of cmd stream =
    if str_eq cmd (lit "REGISTER")
    then two_words stream register_as
    else if str_eq cmd (lit "LOGIN")
    then two_words stream log_in_as
    else if str_eq cmd (lit "LOGOUT")
    then log_out
    else if str_eq cmd (lit "LIST")
    then list_users
    else if str_eq cmd (lit "INBOX")
    then read_inbox
    else if str_eq cmd (lit "MESSAGE")
    then message_words stream
    else if str_eq cmd (lit "HISTORY")
    then history_words stream
    else if str_eq cmd (lit "ALL_MESSAGES")
    then one_word stream (λ limit_text. all_messages (parse_int_or_default limit_text (pos 100)))
    else if str_eq cmd (lit "BAN")
    then one_word stream ban
    else if str_eq cmd (lit "UNBAN")
    then one_word stream unban
    else if str_eq cmd (lit "KICK")
    then one_word stream kick
    else unknown

unfoldable pub parse_command : Bytes → Command
unfolding read_word tail
parse_command frame = let (cmd, stream) = read_word frame in command_of cmd stream
