-- ===== src/Client/Parsing.antt =====
-- ClientHandler::run on the frames that Client.cpp builds.
use messenger_cpp_r.Base.{◌≡◌, refl, ◌∙◌, true, ◌∷◌, ◌++◌, arith, Bytes, lit, all_of, pos, str_eq}
use messenger_cpp_r.Client.{credentials, register_user, login, send_message, history}
use messenger_cpp_r.Server.Words.{read_word, no_space}
use messenger_cpp_r.Server.Words.Reading.{
  IsWord, read_word-append, read_word-last, read_word-space, no_newline, tail-text,
}
use messenger_cpp_r.Server.Command.{
  parse_int_or_default, Command, register_as, log_in_as, message_to, history_with, parse_command,
  command_of, two_words,
}

pub parse_named :
    (name rest : Bytes)
    → IsWord name
    → parse_command (name ++ 32 ∷ rest) ≡ command_of name (32 ∷ rest)
unfolding parse_command
parse_named name rest w = rw (read_word-append name rest w) refl

two_words-credentials :
    (a b : Bytes) (make : Bytes → Bytes → Command)
    → IsWord a
    → IsWord b
    → two_words (32 ∷ credentials a b) make ≡ make a b
two_words-credentials a b make wa wb =
    rw
      (
        read_word-space (credentials a b),
        read_word-append a b wa,
        read_word-space b,
        read_word-last b wb,
      )
      refl

-- A frame of the registration dialog is read as a registration with the login and the password typed
-- in, when both are single words.
pub parse_command-register_user :
    (l password : Bytes)
    → IsWord l
    → IsWord password
    → parse_command (register_user (credentials l password)) ≡ register_as l password
unfolding register_user all_of no_space str_eq
parse_command-register_user l password w v =
    parse_named (lit "REGISTER") (credentials l password)
      (record { plain = refl; some_char = omega arith })
    ∙ two_words-credentials l password register_as w v

-- A frame of the login dialog is read as a login with the login and the password typed in, when both
-- are single words.
pub parse_command-login :
    (l password : Bytes)
    → IsWord l
    → IsWord password
    → parse_command (login (credentials l password)) ≡ log_in_as l password
unfolding login all_of no_space str_eq
parse_command-login l password w v =
    parse_named (lit "LOGIN") (credentials l password)
      (record { plain = refl; some_char = omega arith })
    ∙ two_words-credentials l password log_in_as w v

-- A message frame is read as a message to that login with the whole text, spaces included, when the
-- login is a single word and the text has no newline.
pub parse_command-send_message :
    (to msg : Bytes)
    → IsWord to
    → all_of no_newline msg ≡ true
    → parse_command (send_message to msg) ≡ message_to to msg
unfolding send_message all_of no_space str_eq
parse_command-send_message to msg w line =
    parse_named (lit "MESSAGE") (to ++ 32 ∷ msg) (record { plain = refl; some_char = omega arith })
    ∙ rw (read_word-space (to ++ 32 ∷ msg), read_word-append to msg w, tail-text msg line) refl

-- A history frame is read as a request for 50 messages with that login from the first one on, when the
-- login is a single word.
pub parse_command-history :
    (to : Bytes) → IsWord to → parse_command (history to) ≡ history_with to (pos 50) (pos 0)
unfolding history all_of no_space str_eq parse_int_or_default read_word
parse_command-history to w =
    parse_named (lit "HISTORY") (to ++ 32 ∷ lit "50 0")
      (record { plain = refl; some_char = omega arith })
    ∙ rw (read_word-space (to ++ 32 ∷ lit "50 0"), read_word-append to (lit "50 0") w) refl

-- The frames of the four dialogs are read as a registration and a login with the login and the
-- password typed in, a request for 50 messages with that login from the first one on, and a message
-- to it with the whole text, spaces included, when the login and the password are single words and
-- the text has no newline.
pub parse_command-dialogs :
    (l password msg : Bytes)
    → IsWord l
    → IsWord password
    → all_of no_newline msg ≡ true
    → (parse_command (register_user (credentials l password)) ≡ register_as l password)
      × (parse_command (login (credentials l password)) ≡ log_in_as l password)
      × (parse_command (history l) ≡ history_with l (pos 50) (pos 0))
      × (parse_command (send_message l msg) ≡ message_to l msg)
parse_command-dialogs l password msg w v line = (
  parse_command-register_user l password w v,
  parse_command-login l password w v,
  parse_command-history l w,
  parse_command-send_message l msg w line,
)
