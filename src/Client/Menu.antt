-- ===== src/Client/Menu.antt =====
-- The commands of Client.cpp behind the menus, and the loop of Client::run beside the receive loop.
pub mod Dialogs
pub mod Scripts
pub mod Waiting
use messenger_cpp_r.Base.{
  ℕ, Bool, true, false, Option, none, some, List, [], ◌∷◌, Bytes, lit, is_empty, ◌==◌,
  if◌then◌else◌,
}
use messenger_cpp_r.Tcp.Protocol.{ReceiveFrameStatus}
use messenger_cpp_r.Client
use messenger_cpp_r.Client.Session.{ClientState, receive_turn, send_command, log_in, log_out}
use messenger_cpp_r.Client.Console.{
  Input, show_initial_menu, show_user_menu, prompt_login, prompt_registration, prompt_target_user,
  prompt_message,
}

pub data Menu : Type 0 where
  initial signed_in : Menu

-- `waits_in` is the menu whose key is awaited: `run` looks at the current user before it asks, and the
-- receive loop may change the user while it waits.
pub record Console : Type 0 where
  pub input : Input
  pub waits_in : Option Menu
  pub client : ClientState

-- `delivered` says whether sendFrame succeeds.
module _ (delivered : Bool) where
  abbrev pub send : Bytes → Console → Console
  send command c = record c { client = send_command delivered command c.client }

  unfoldable pub register_user : Console → Console
  register_user c =
      let (creds, input) = prompt_registration c.input in
      let c1 = record c { input = input } in
      if is_empty creds then c1 else send (Client.register_user creds) c1

  unfoldable pub login : Console → Console
  login c =
      let (creds, input) = prompt_login c.input in
      record c { input = input; client = log_in delivered creds c.client }

  unfoldable pub logout : Console → Console
  logout c = record c { client = log_out delivered c.client }

  unfoldable pub list_users : Console → Console
  list_users c = send (lit "LIST") c

  unfoldable pub inbox : Console → Console
  inbox c = send (lit "INBOX") c

  unfoldable pub send_message : Console → Console
  send_message c =
      if is_empty c.client.current_user
      then c
      else let (to, input) = prompt_target_user c.input in
        let c1 = record c { input = input } in
        if is_empty to
        then c1
        else let (msg, input') = prompt_message input in
          let c2 = record c1 { input = input' } in
          if is_empty msg then c2 else send (Client.send_message to msg) c2

  unfoldable pub history : Console → Console
  history c =
      if is_empty c.client.current_user
      then c
      else let (to, input) = prompt_target_user c.input in
        let c1 = record c { input = input } in
        if is_empty to then c1 else send (Client.history to) c1

  -- The two switches on the key.
  unfoldable pub choose : Menu → ℕ → Console → Console
  choose initial k c =
      if k == b'l'
      then login c
      else if k == b'r'
      then register_user c
      else if k == b'q'
      then record c { client = record c.client { running = false } }
      else c
  choose signed_in k c =
      if k == b'l'
      then list_users c
      else if k == b'i'
      then inbox c
      else if k == b's'
      then send_message c
      else if k == b'h'
      then history c
      else if k == b'o'
      then logout c
      else c

  abbrev pub read_key : Menu → Input → ℕ × Input
  read_key initial i = show_initial_menu i
  read_key signed_in i = show_user_menu i

  abbrev pub answer_menu : Menu → Console → Console
  answer_menu m c =
      let (k, input) = read_key m c.input in
      choose m k (record c { input = input; waits_in = none })

  -- Half a round of the loop: it opens a menu while the client runs, and then acts on the key.
  unfoldable pub main_step : Console → Console
  unfolding choose
  main_step c = elim c.waits_in [
    | none ↦
        if c.client.running
        then record c {
          waits_in = some (if is_empty c.client.current_user then initial else signed_in);
        }
        else c
    | some m ↦ answer_menu m c
  ]

pub data ClientEvent : Type 0 where
  main_goes_on : Bool → ClientEvent
  receives : ReceiveFrameStatus → Bytes → ClientEvent

unfoldable pub client_step : ClientEvent → Console → Console
client_step (main_goes_on delivered) c = main_step delivered c
client_step (receives status line) c = record c { client = receive_turn status line c.client }

-- The two threads, in any order.
unfoldable pub run : List ClientEvent → Console → Console
run [] c = c
run (e ∷ es) c = run es (client_step e c)
