-- ===== src/Client/Session.antt =====
-- The state of the console client: Client::receiveLoop, and the dialogs that change it.
pub mod Answers
pub mod Listings
use messenger_cpp_r.Base.{
  ℕ, Bool, true, false, Option, none, some, List, [], ◌∷◌, ◌++◌, Bytes, lit, str_eq, is_empty, ◌==◌,
  if◌then◌else◌,
}
use messenger_cpp_r.Tcp.Protocol
use messenger_cpp_r.Tcp.Protocol.{ReceiveFrameStatus}
use messenger_cpp_r.Server.Words.{read_word, read_line}
use messenger_cpp_r.Client.{login}

-- The frames of the server that the client tells apart, with what it prints of them.
pub data Answer : Type 0 where
  register_ok users_begin users_end inbox_begin inbox_end message_ok : Answer
  history_begin history_end logout_ok kicked : Answer
  register_error login_ok login_error message_error other : Bytes → Answer
  user_line : Bytes → Bytes → Bytes → Bytes → Answer
  inbox_msg : Bytes → Bytes → Bytes → Answer
  message_from : Bytes → Bytes → Answer
  hist : Bytes → Bytes → Bytes → Bytes → Answer

-- `iss >> a` and then the rest of the line.
abbrev pub word_line : Bytes → (Bytes → Bytes → Answer) → Answer
word_line stream make = let (a, rest) = read_word stream in make a (read_line rest)

abbrev pub two_words_line : Bytes → (Bytes → Bytes → Bytes → Answer) → Answer
two_words_line stream make =
    let (a, rest) = read_word stream in word_line rest (λ b line. make a b line)

abbrev pub three_words_line : Bytes → (Bytes → Bytes → Bytes → Bytes → Answer) → Answer
three_words_line stream make =
    let (a, rest) = read_word stream in two_words_line rest (λ b c line. make a b c line)

abbrev pub four_words : Bytes → (Bytes → Bytes → Bytes → Bytes → Answer) → Answer
four_words stream make =
    let (a, rest) = read_word stream in
    let (b, rest') = read_word rest in
    let (c, rest'') = read_word rest' in let (d, end) = read_word rest'' in make a b c d

abbrev pub answer_of : Bytes → Bytes → Bytes → Answer
answer_of line cmd stream =
    if str_eq cmd (lit "REGISTER_OK")
    then register_ok
    else if str_eq cmd (lit "REGISTER_ERROR")
    then register_error (read_line stream)
    else if str_eq cmd (lit "LOGIN_OK")
    then (let (role, rest) = read_word stream in login_ok role)
    else if str_eq cmd (lit "LOGIN_ERROR")
    then login_error (read_line stream)
    else if str_eq cmd (lit "USERS_BEGIN")
    then users_begin
    else if str_eq cmd (lit "USER")
    then four_words stream user_line
    else if str_eq cmd (lit "USERS_END")
    then users_end
    else if str_eq cmd (lit "INBOX_BEGIN")
    then inbox_begin
    else if str_eq cmd (lit "INBOX_MSG")
    then two_words_line stream inbox_msg
    else if str_eq cmd (lit "INBOX_END")
    then inbox_end
    else if str_eq cmd (lit "MESSAGE")
    then word_line stream message_from
    else if str_eq cmd (lit "MESSAGE_OK")
    then message_ok
    else if str_eq cmd (lit "MESSAGE_ERROR")
    then message_error (read_line stream)
    else if str_eq cmd (lit "HISTORY_BEGIN")
    then history_begin
    else if str_eq cmd (lit "HIST")
    then three_words_line stream hist
    else if str_eq cmd (lit "HISTORY_END")
    then history_end
    else if str_eq cmd (lit "LOGOUT_OK")
    then logout_ok
    else if str_eq cmd (lit "KICKED")
    then kicked
    else other line

unfoldable pub parse_answer : Bytes → Answer
parse_answer line = let (cmd, stream) = read_word line in answer_of line cmd stream

-- `shown` is what was printed of the server's frames, in order; `sent` the frames that went out.
pub record ClientState : Type 0 where
  pub running : Bool
  pub current_user : Bytes
  pub pending_login : Bytes
  pub shown : List Answer
  pub sent : List Bytes

unfoldable pub set_current_user : Bytes → ClientState → ClientState
set_current_user user c = record c { current_user = user; pending_login = [] }

unfoldable pub clear_current_user : ClientState → ClientState
clear_current_user c = record c { current_user = []; pending_login = [] }

-- LOGIN_OK, LOGIN_ERROR, LOGOUT_OK and KICKED change the user.
unfoldable pub update_user : Answer → ClientState → ClientState
update_user (login_ok role) c = set_current_user c.pending_login c
update_user (login_error message) c = clear_current_user c
update_user logout_ok c = clear_current_user c
update_user kicked c = clear_current_user c
update_user _ c = c

unfoldable pub receive_answer : Answer → ClientState → ClientState
receive_answer a c = let c' = update_user a c in record c' { shown = c'.shown ++ a ∷ [] }

-- One turn of the receive loop.
unfoldable pub receive_turn : ReceiveFrameStatus → Bytes → ClientState → ClientState
receive_turn Protocol.ok line c = receive_answer (parse_answer line) c
receive_turn Protocol.closed line c = record c { running = false }
receive_turn Protocol.error line c = record c { running = false }
receive_turn Protocol.too_large line c = record c { running = false }
receive_turn Protocol.invalid line c = record c { running = false }

-- `delivered` says whether sendFrame succeeds.
unfoldable pub send_command : Bool → Bytes → ClientState → ClientState
send_command delivered command c =
    if delivered then record c { sent = c.sent ++ command ∷ [] } else record c { running = false }

-- creds.substr(0, creds.find(' ')), all of it without a space
unfoldable pub before_space : Bytes → Bytes
before_space [] = []
before_space (x ∷ xs) = let rest = before_space xs in if x == 32 then [] else x ∷ rest

-- The login dialog, with the credentials that were typed in; none were if it was cancelled.
unfoldable pub log_in : Bool → Bytes → ClientState → ClientState
log_in delivered creds c =
    if is_empty creds
    then c
    else send_command delivered (login creds) (record c { pending_login = before_space creds })

unfoldable pub log_out : Bool → ClientState → ClientState
log_out delivered c = clear_current_user (send_command delivered (lit "LOGOUT") c)
