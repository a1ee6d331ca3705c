-- ===== src/Client/Menu/Dialogs.antt =====
-- What a user types in a session of Client::run, and what the server is asked.
use messenger_cpp_r.Base.{
  ◌≡◌, refl, ap, ◌∙◌, Bool, true, false, none, some, [], ◌∷◌, ◌++◌, if◌then◌else◌, Bytes, lit,
  all_of, is_empty, str_eq, pos,
}
use messenger_cpp_r.Server.Words.{is_space, skip_spaces, span_word, read_word}
use messenger_cpp_r.Server.Words.Reading.{IsWord, no_newline}
use messenger_cpp_r.Server.Command.{
  Command, register_as, log_in_as, log_out, list_users, read_inbox, message_to, history_with,
  parse_command,
}
use messenger_cpp_r.Client
use messenger_cpp_r.Client.Parsing.{
  parse_command-register_user, parse_command-login, parse_command-send_message,
  parse_command-history,
}
use messenger_cpp_r.Client.Session.{ClientState, receive_turn, send_command, log_in}
use messenger_cpp_r.Client.Session
use messenger_cpp_r.Client.Console.{
  Input, after_newline, read_char, ignore_line, to_lower, show_initial_menu, show_user_menu,
  prompt_login, prompt_registration, prompt_target_user, prompt_message,
}
use messenger_cpp_r.Client.Menu
use messenger_cpp_r.Client.Menu.{
  Console, ClientEvent, main_goes_on, receives, choose, main_step, client_step, run,
}
use messenger_cpp_r.Client.Console.Lines.{
  typed_in, word_typed, prompt_login-typed, prompt_target_user-typed, prompt_message-typed,
}

-- A key of a menu with what its prompts ask for.
pub data Dialog : Type 0 where
  logs_in registers sends : Bytes → Bytes → Dialog
  asks_history : Bytes → Dialog
  lists reads_inbox logs_out : Dialog

-- The keys typed, in front of what is typed later.
abbrev pub typed : Dialog → Bytes → Bytes
typed (logs_in l password) rest = b'l' ∷ 10 ∷ l ++ 10 ∷ (password ++ 10 ∷ rest)
typed (registers l password) rest = b'r' ∷ 10 ∷ l ++ 10 ∷ (password ++ 10 ∷ rest)
typed (sends to msg) rest = b's' ∷ 10 ∷ to ++ 10 ∷ (msg ++ 10 ∷ rest)
typed (asks_history to) rest = b'h' ∷ 10 ∷ to ++ 10 ∷ rest
typed lists rest = b'l' ∷ 10 ∷ rest
typed reads_inbox rest = b'i' ∷ 10 ∷ rest
typed logs_out rest = b'o' ∷ 10 ∷ rest

-- What the server should be asked.
abbrev pub asked : Dialog → Command
asked (logs_in l password) = log_in_as l password
asked (registers l password) = register_as l password
asked (sends to msg) = message_to to msg
asked (asks_history to) = history_with to (pos 50) (pos 0)
asked lists = list_users
asked reads_inbox = read_inbox
asked logs_out = log_out

-- Whether the dialog is one of the menu before a login.
abbrev pub before_login : Dialog → Bool
before_login (logs_in l password) = true
before_login (registers l password) = true
before_login (sends to msg) = false
before_login (asks_history to) = false
before_login lists = false
before_login reads_inbox = false
before_login logs_out = false

-- Single words, and a message of one line that is not empty.
abbrev pub IsTyped : Dialog → Type 0
IsTyped (logs_in l password) = IsWord l × IsWord password
IsTyped (registers l password) = IsWord l × IsWord password
IsTyped (sends to msg) = IsWord to × (is_empty msg ≡ false) × (all_of no_newline msg ≡ true)
IsTyped (asks_history to) = IsWord to
IsTyped lists = Unit
IsTyped reads_inbox = Unit
IsTyped logs_out = Unit

unfoldable pub frame : Dialog → Bytes
frame (logs_in l password) = Client.login (Client.credentials l password)
frame (registers l password) = Client.register_user (Client.credentials l password)
frame (sends to msg) = Client.send_message to msg
frame (asks_history to) = Client.history to
frame lists = lit "LIST"
frame reads_inbox = lit "INBOX"
frame logs_out = lit "LOGOUT"

pub frame-asked : (d : Dialog) → IsTyped d → parse_command (frame d) ≡ asked d
unfolding frame parse_command str_eq read_word skip_spaces span_word is_space
frame-asked (logs_in l password) (wl, wp) = parse_command-login l password wl wp
frame-asked (registers l password) (wl, wp) = parse_command-register_user l password wl wp
frame-asked (sends to msg) (w, some_text, line) = parse_command-send_message to msg w line
frame-asked (asks_history to) w = parse_command-history to w
frame-asked lists h = refl
frame-asked reads_inbox h = refl
frame-asked logs_out h = refl

-- The menu is not open yet, and this is typed in.
abbrev pub console : Bytes → ClientState → Console
console rest s = record { input = typed_in rest; waits_in = none; client = s }

-- The client after a dialog.
unfoldable pub after : Dialog → ClientState → ClientState
after (logs_in l password) s = log_in true (Client.credentials l password) s
after (registers l password) s = send_command true (frame (registers l password)) s
after (sends to msg) s = send_command true (frame (sends to msg)) s
after (asks_history to) s = send_command true (frame (asks_history to)) s
after lists s = send_command true (frame lists) s
after reads_inbox s = send_command true (frame reads_inbox) s
after logs_out s = Session.log_out true s

credentials_typed : (l password : Bytes) → is_empty (Client.credentials l password) ≡ false
credentials_typed [] password = refl
credentials_typed (c ∷ cs) password = refl

-- The first half of a round.
opens :
    (b : Bool) (rest : Bytes) (s : ClientState)
    → s.running ≡ true
    → is_empty s.current_user ≡ b
    → main_step true (console rest s) ≡ record {
      input = typed_in rest;
      waits_in = some (if b then Menu.initial else Menu.signed_in);
      client = s;
    }
unfolding main_step
opens b rest s on user =
    ap (λ r. if r then menu (is_empty s.current_user) else console rest s) on ∙ ap menu user
  where
    menu : Bool → Console
    menu e = record {
      input = typed_in rest;
      waits_in = some (if e then Menu.initial else Menu.signed_in);
      client = s;
    }

-- The second half, where it answers the menu.
answers :
    (d : Dialog) (rest : Bytes) (s : ClientState)
    → IsTyped d
    → is_empty s.current_user ≡ before_login d
    → main_step true (record {
      input = typed_in (typed d rest);
      waits_in = some (if before_login d then Menu.initial else Menu.signed_in);
      client = s;
    })
      ≡ console rest (after d s)
unfolding main_step after frame choose show_initial_menu show_user_menu read_char skip_spaces
    is_space ignore_line after_newline to_lower Menu.login Menu.register_user Menu.list_users
    Menu.inbox Menu.send_message Menu.history Menu.logout prompt_login prompt_registration
answers (logs_in l password) rest s (wl, wp) user =
    ap (λ r. record { input = r.1; waits_in = none; client = log_in true r.0 s })
      (prompt_login-typed l password rest wl wp)
answers (registers l password) rest s (wl, wp) user =
    ap (λ r. if is_empty r.0 then idle r.1 else sent (Client.register_user r.0) r.1)
      (prompt_login-typed l password rest wl wp)
    ∙ ap
        (λ b.
          if b then idle (typed_in rest) else sent (frame (registers l password)) (typed_in rest))
        (credentials_typed l password)
  where
    idle : Input → Console
    idle i = record { input = i; waits_in = none; client = s }

    sent : Bytes → Input → Console
    sent p i = record { input = i; waits_in = none; client = send_command true p s }
answers (sends to msg) rest s (w, some_text, line) user =
    ap
      (λ b.
        if b
        then idle (typed_in (to ++ 10 ∷ (msg ++ 10 ∷ rest)))
        else receiver (prompt_target_user (typed_in (to ++ 10 ∷ (msg ++ 10 ∷ rest)))))
      user
    ∙ ap receiver (prompt_target_user-typed to (msg ++ 10 ∷ rest) w)
    ∙ ap
        (λ b.
          if b
          then idle (typed_in (msg ++ 10 ∷ rest))
          else text to (prompt_message (typed_in (msg ++ 10 ∷ rest))))
        (word_typed to w)
    ∙ ap (text to) (prompt_message-typed msg rest line)
    ∙ ap (λ b. if b then idle (typed_in rest) else sent (frame (sends to msg)) (typed_in rest))
        some_text
  where
    idle : Input → Console
    idle i = record { input = i; waits_in = none; client = s }

    sent : Bytes → Input → Console
    sent p i = record { input = i; waits_in = none; client = send_command true p s }

    text : Bytes → Bytes × Input → Console
    text name (m, i) = if is_empty m then idle i else sent (Client.send_message name m) i

    receiver : Bytes × Input → Console
    receiver (name, i) = if is_empty name then idle i else text name (prompt_message i)
answers (asks_history to) rest s w user =
    ap
      (λ b.
        if b
        then idle (typed_in (to ++ 10 ∷ rest))
        else receiver (prompt_target_user (typed_in (to ++ 10 ∷ rest))))
      user
    ∙ ap receiver (prompt_target_user-typed to rest w)
    ∙ ap (λ b. if b then idle (typed_in rest) else sent (frame (asks_history to)) (typed_in rest))
        (word_typed to w)
  where
    idle : Input → Console
    idle i = record { input = i; waits_in = none; client = s }

    sent : Bytes → Input → Console
    sent p i = record { input = i; waits_in = none; client = send_command true p s }

    receiver : Bytes × Input → Console
    receiver (name, i) = if is_empty name then idle i else sent (Client.history name) i
answers lists rest s h user = refl
answers reads_inbox rest s h user = refl
answers logs_out rest s h user = refl

pub dialog-after :
    (d : Dialog) (rest : Bytes) (s : ClientState)
    → IsTyped d
    → s.running ≡ true
    → is_empty s.current_user ≡ before_login d
    → main_step true (main_step true (console (typed d rest) s)) ≡ console rest (after d s)
dialog-after d rest s h on user =
    ap (main_step true) (opens (before_login d) (typed d rest) s on user) ∙ answers d rest s h user

pub after-sent : (d : Dialog) (s : ClientState) → (after d s).sent ≡ s.sent ++ frame d ∷ []
unfolding after frame send_command log_in Session.log_out Session.clear_current_user
after-sent (logs_in l password) s = rw (credentials_typed l password) refl
after-sent (registers l password) s = refl
after-sent (sends to msg) s = refl
after-sent (asks_history to) s = refl
after-sent lists s = refl
after-sent reads_inbox s = refl
after-sent logs_out s = refl
