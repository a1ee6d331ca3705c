-- ===== src/Tests/Console.antt =====
-- The console client and its command line at concrete inputs.
use messenger_cpp_r.Base.{
  arith, ℕ, ◌+◌, ◌*◌, ◌≤◌, leb, Bool, some, ◌≡◌, ◌≢◌, refl, ◌++◌, true, false, List, [], ◌∷◌, Bytes,
  lit, map, all_of, str_eq,
}
use messenger_cpp_r.Server.Config.{split_at}
use messenger_cpp_r.Client.Session.{ClientState}
use messenger_cpp_r.Client.Connecting.{Dialer, IsSteady, connect_to_server, connect_to_server_ends}
use messenger_cpp_r.Client.Menu.{
  Console, ClientEvent, main_goes_on, receives, run, client_step, main_step, choose,
}
use messenger_cpp_r.Client.Menu
use messenger_cpp_r.Client
use messenger_cpp_r.Server.Words
use messenger_cpp_r.Client.Console
use messenger_cpp_r.Client.Session
use messenger_cpp_r.Server.Words.{is_space, no_space, skip_spaces, span_word, read_word}
use messenger_cpp_r.Server.Words.Reading.{no_newline}
use messenger_cpp_r.Client.Console.{show_initial_menu}
use messenger_cpp_r.Client.Menu.Dialogs.{logs_in, sends, logs_out, console}
use messenger_cpp_r.Client.Menu.Scripts.{Exchange, script, events, Asks, run-script}
use messenger_cpp_r.Client.Menu.Waiting.{run-end_of_input}
use messenger_cpp_r.Client.Address.{parse_arguments, IsPort, parse_arguments-connects}

abbrev idle : ClientState
idle = record { running = true; current_user = []; pending_login = []; shown = []; sent = [] }

-- A login, and a message once the answer is there.
abbrev talk : List Exchange
talk =
    (logs_in (lit "bob") (lit "Another456"), lit "LOGIN_OK user" ∷ [])
    ∷ (sends (lit "alice") (lit "see you  at 5"), lit "MESSAGE_OK 1" ∷ [])
    ∷ (logs_out, lit "LOGOUT_OK" ∷ [])
    ∷ []

run-script_example :
    Asks talk (lit "q") [] (run (events talk) (console (script talk (lit "q")) idle))
unfolding all_of no_space is_space no_newline run client_step main_step choose show_initial_menu
    Session.receive_turn Session.receive_answer Session.update_user Session.parse_answer str_eq
    read_word Session.set_current_user Menu.login Session.log_in Console.prompt_login
    Console.ignore_line Session.send_command Session.before_space Console.show_user_menu
    Menu.send_message Console.prompt_target_user Console.prompt_message Console.after_newline
    Console.get_line Console.read_char Console.read_string Console.to_lower Console.up_to_newline
    Menu.logout Session.clear_current_user Session.log_out Client.login Client.send_message
    Words.read_line skip_spaces span_word
run-script_example = run-script talk (lit "q") idle (
  (
    record { plain = refl; some_char = omega arith },
    record { plain = refl; some_char = omega arith },
  ),
  refl,
  refl,
  (
    (record { plain = refl; some_char = omega arith }, refl, refl),
    refl,
    refl,
    (tt, refl, refl, tt),
  ),
)

run-end_of_input_example :
    (run (map main_goes_on (true ∷ true ∷ true ∷ [])) (console [] idle)).client ≡ idle
run-end_of_input_example = run-end_of_input (true ∷ true ∷ true ∷ []) (console [] idle) refl

parse_arguments-connects_example :
    (text : Bytes) × (lit "localhost:8080" ∷ [] ≡ (lit "localhost" ++ 58 ∷ text) ∷ [])
    × (lit "localhost" ≢ [])
    × IsPort text 8080
unfolding parse_arguments split_at
parse_arguments-connects_example =
    parse_arguments-connects (lit "localhost:8080" ∷ []) (lit "localhost") 8080 refl

-- A clock whose reading is the state; a connection is refused before the second 30.
abbrev dialer : Dialer
dialer = record {
  State = ℕ;
  now = λ s. (s, s);
  sleep_for = λ s n. s + n;
  create_socket = λ s. (true, s);
  connect = λ s host port. (leb 30000 s, s + 5);
  reset = λ s. s;
  close = λ s. s;
}

steady : IsSteady dialer
steady = record {
  time = λ s. s;
  now_reads = λ s. refl;
  now_on = λ s. omega arith;
  sleep_for_on = λ s n. omega arith;
  create_socket_on = λ s. omega arith;
  connect_on = λ s host port. omega arith;
  reset_on = λ s. omega arith;
}

connect_to_server_ends_example :
    (running : Bool) × ((connect_to_server dialer 61 7 (lit "localhost") 8080).0 ≡ some running)
    × (running ≡ false
        → IsSteady.time steady 7 + 60 * 1000
          ≤ IsSteady.time steady (connect_to_server dialer 61 7 (lit "localhost") 8080).1)
connect_to_server_ends_example = connect_to_server_ends dialer steady 7 (lit "localhost") 8080
