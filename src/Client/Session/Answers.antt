-- ===== src/Client/Session/Answers.antt =====
-- Client::receiveLoop on lines that ClientHandler sends.
use messenger_cpp_r.Base.{
  ◌≡◌, refl, ap, ◌∙◌, true, false, [], ◌∷◌, ◌++◌, arith, Bytes, lit, all_of, str_eq, is_empty,
}
use messenger_cpp_r.Tcp.Protocol
use messenger_cpp_r.Server.Words.{read_word, read_line, no_space, is_space}
use messenger_cpp_r.Server.Words.Reading.{
  IsWord, read_word-append, read_word-space, no_newline, read_line-text,
}
use messenger_cpp_r.Server.Handler.Commands.{spaced}
use messenger_cpp_r.Client.{credentials}
use messenger_cpp_r.Client.Session.{
  login_ok, inbox_msg, hist, parse_answer, answer_of, ClientState, receive_turn, receive_answer,
  update_user, set_current_user, send_command, before_space, log_in,
}

read_line-space : (t : Bytes) → all_of no_newline t ≡ true → read_line (32 ∷ t) ≡ 32 ∷ t
unfolding read_line
read_line-space t h = ap (λ s. 32 ∷ s) (read_line-text t h)

answer_named :
    (name rest : Bytes)
    → IsWord name
    → parse_answer (name ++ 32 ∷ rest) ≡ answer_of (name ++ 32 ∷ rest) name (32 ∷ rest)
unfolding parse_answer
answer_named name rest w = rw (read_word-append name rest w) refl

-- The line that handleInbox sends for a message is read with its sender, its time and its text behind
-- one space, when sender and time are single words and the text has no newline.
pub parse_answer-inbox :
    (sender created_at text : Bytes)
    → IsWord sender
    → IsWord created_at
    → all_of no_newline text ≡ true
    → parse_answer (spaced (lit "INBOX_MSG" ∷ sender ∷ created_at ∷ text ∷ []))
      ≡ inbox_msg sender created_at (32 ∷ text)
unfolding spaced all_of no_space is_space str_eq
parse_answer-inbox sender created_at text ws wc line =
    answer_named (lit "INBOX_MSG") (sender ++ 32 ∷ (created_at ++ 32 ∷ text))
      (record { plain = refl; some_char = omega arith })
    ∙ rw
        (
          read_word-space (sender ++ 32 ∷ (created_at ++ 32 ∷ text)),
          read_word-append sender (created_at ++ 32 ∷ text) ws,
          read_word-space (created_at ++ 32 ∷ text),
          read_word-append created_at text wc,
          read_line-space text line,
        )
        refl

-- The line that handleHistory sends for a message is read with its sender, its receiver, its time and
-- its text behind one space, when the first three are single words and the text has no newline.
pub parse_answer-hist :
    (sender receiver created_at text : Bytes)
    → IsWord sender
    → IsWord receiver
    → IsWord created_at
    → all_of no_newline text ≡ true
    → parse_answer (spaced (lit "HIST" ∷ sender ∷ receiver ∷ created_at ∷ text ∷ []))
      ≡ hist sender receiver created_at (32 ∷ text)
unfolding spaced all_of no_space is_space str_eq
parse_answer-hist sender receiver created_at text ws wr wc line =
    answer_named (lit "HIST") (sender ++ 32 ∷ (receiver ++ 32 ∷ (created_at ++ 32 ∷ text)))
      (record { plain = refl; some_char = omega arith })
    ∙ rw
        (
          read_word-space (sender ++ 32 ∷ (receiver ++ 32 ∷ (created_at ++ 32 ∷ text))),
          read_word-append sender (receiver ++ 32 ∷ (created_at ++ 32 ∷ text)) ws,
          read_word-space (receiver ++ 32 ∷ (created_at ++ 32 ∷ text)),
          read_word-append receiver (created_at ++ 32 ∷ text) wr,
          read_word-space (created_at ++ 32 ∷ text),
          read_word-append created_at text wc,
          read_line-space text line,
        )
        refl

before_space-credentials :
    (l password : Bytes) → all_of no_space l ≡ true → before_space (credentials l password) ≡ l
unfolding before_space all_of no_space is_space
before_space-credentials [] password h = refl
before_space-credentials (c ∷ cs) password h = ground (arith, before_space-credentials cs password)

login_ok_line : (role : Bytes) → (r : Bytes) × (parse_answer (lit "LOGIN_OK " ++ role) ≡ login_ok r)
unfolding all_of no_space is_space str_eq
login_ok_line role = (
  (read_word (32 ∷ role)).0,
  answer_named (lit "LOGIN_OK") role (record { plain = refl; some_char = omega arith }),
)

some_credentials : (l password : Bytes) → is_empty (credentials l password) ≡ false
some_credentials [] password = refl
some_credentials (c ∷ cs) password = refl

-- After the login dialog, whose frame went out, and an answer LOGIN_OK with any role, the client's
-- current user is the login that was typed in and nothing is pending, when that login is a single word.
pub log_in-receive_turn :
    (l password role : Bytes) (c : ClientState)
    → IsWord l
    → ((receive_turn Protocol.ok
          (lit "LOGIN_OK " ++ role)
          (log_in true (credentials l password) c)).current_user
        ≡ l)
      × ((receive_turn Protocol.ok
            (lit "LOGIN_OK " ++ role)
            (log_in true (credentials l password) c)).pending_login
          ≡ [])
unfolding receive_turn receive_answer update_user set_current_user log_in send_command
log_in-receive_turn l password role c w =
    let (r, e) = login_ok_line role in
    rw (some_credentials l password, before_space-credentials l password w.plain)
      (rw (e, update_user) (refl, refl))
