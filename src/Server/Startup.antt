-- ===== src/Server/Startup.antt =====
-- main.cpp and the constructor of Server.cpp: from the configuration and the arguments to the listening
-- socket.
use messenger_cpp_r.Base.{
  some, ℕ, ◌-◌, ◌%◌, ◌^◌, ◌≤◌, ◌≡◌, ◌≢◌, ◌⊎◌, Bool, true, not, Option, List, [], ◌∷◌, Bytes,
  if◌then◌else◌, ℤ, pos, negsuc,
}
use messenger_cpp_r.Tcp.SocketOps.{
  Os, close_socket, is_valid_socket, set_reuse_address, set_no_sig_pipe,
}
use messenger_cpp_r.Server.Numbers.{Parsed, value, failure, NumberError, stoi}
use messenger_cpp_r.Server.Config.{ConfigError, Loaded, loaded, throws, ServerConfig}

-- ::socket, ::bind to a port of 16 bits on every address, ::listen.
pub record Listening (os : Os) : Type 0 where
  pub socket : Os.State os → ℤ × Os.State os
  pub bind : Os.State os → ℤ → ℕ → Bool × Os.State os
  pub listen : Os.State os → ℤ → ℤ → Bool × Os.State os

-- The exception that main reports before EXIT_FAILURE.
pub data StartupError : Type 0 where
  not_configured : ConfigError → StartupError
  bad_argument : NumberError → StartupError
  no_database no_socket no_bind no_listen : StartupError

-- `serves` is what main gets to: a socket that listens.
pub data Startup : Type 0 where
  serves : ℤ → Startup
  fails : StartupError → Startup

-- The port that a handle is bound to, and whether it listens. As documented, ::bind and ::listen do what
-- they are asked when they succeed, and ::listen leaves the port.
pub record IsListening (os : Os) (net : Listening os) : Type 0 where
  pub bound_to : Os.State os → ℤ → Option ℕ
  pub listens : Os.State os → ℤ → Bool
  pub bind_binds :
      (s : Os.State os) (h : ℤ) (port : ℕ)
      → (net.bind s h port).0 ≡ true
      → bound_to (net.bind s h port).1 h ≡ some port
  pub listen_keeps :
      (s : Os.State os) (h clients : ℤ) → bound_to (net.listen s h clients).1 h ≡ bound_to s h
  pub listen_listens :
      (s : Os.State os) (h clients : ℤ)
      → (net.listen s h clients).0 ≡ true
      → listens (net.listen s h clients).1 h ≡ true

-- static_cast<uint16_t> of an int
unfoldable pub to_uint16 : ℤ → ℕ
to_uint16 (pos n) = n % 2 ^ 16
to_uint16 (negsuc n) = 2 ^ 16 - 1 - n % 2 ^ 16

-- argv without the program's name: one argument is the port, any other number of them is ignored.
unfoldable pub port_argument : List Bytes → ServerConfig → Parsed ServerConfig
port_argument [] config = value config
port_argument (text ∷ []) config = elim (stoi text) [
  | value port ↦ value (record config { port = port })
  | failure e ↦ failure e
]
port_argument (a ∷ b ∷ rest) config = value config

module _ (os : Os) (net : Listening os) where
  open os use {State}

  unfoldable pub init_socket : State → ServerConfig → Startup × State
  unfolding to_uint16 is_valid_socket
  init_socket s config =
      let (server_socket, s1) = net.socket s in
      let s2 = (set_reuse_address os s1 server_socket).1 in
      let s3 = (set_no_sig_pipe os s2 server_socket).1 in
      let (bound, s4) = net.bind s3 server_socket (to_uint16 config.port) in
      let (listening, s5) = net.listen s4 server_socket config.max_clients in
      if not (is_valid_socket server_socket)
      then (fails no_socket, s1)
      else if not bound
      then (fails no_bind, s4)
      else if not listening
      then (fails no_listen, s5)
      else (serves server_socket, s5)

  -- The constructor, with what `db_->ping()` answers.
  unfoldable pub new_server : Bool → State → ServerConfig → Startup × State
  unfolding init_socket
  new_server ping s config = if not ping then (fails no_database, s) else init_socket s config

  -- main, up to server.start().
  unfoldable pub server_main : Loaded ServerConfig → List Bytes → Bool → State → Startup × State
  unfolding new_server
  server_main (throws e) args ping s = (fails (not_configured e), s)
  server_main (loaded config) args ping s = elim (port_argument args config) [
    | failure e ↦ (fails (bad_argument e), s)
    | value configured ↦ new_server ping s configured
  ]

  -- The destructor.
  unfoldable pub destroy_server : State → ℤ → State
  destroy_server s server_socket = close_socket os s server_socket

module _ (os : Os) (net : Listening os) (system : IsListening os net) where
  open os use {State}
  open system use {bound_to, listens}

  -- A start that gets to a handle has it bound to the port, and listening.
  abbrev pub IsServing : Startup × State → ℤ → ℕ → Type 0
  IsServing (started, s) handle port =
      (is_valid_socket handle ≡ true) × (bound_to s handle ≡ some port) × (listens s handle ≡ true)

-- Where the port comes from: the configuration, unless there is one argument.
abbrev pub ComesFrom : ServerConfig → List Bytes → ℕ → Type 0
ComesFrom config args port =
    (((text : Bytes) → args ≢ text ∷ []) × (config.port ≡ pos port) × (1 ≤ port) × (port ≤ 65535))
    ⊎ ((text : Bytes) × (p : ℤ) × (args ≡ text ∷ []) × (stoi text ≡ value p) × (port ≡ to_uint16 p))

module _ (os : Os) (net : Listening os) (system : IsListening os net) (ping : Bool)
    (s : Os.State os) (handle : ℤ) where
  -- The port that the handle is bound to comes from the configuration or the argument.
  abbrev pub ServesPort : ServerConfig → List Bytes → Startup × Os.State os → Type 0
  ServesPort config args r =
      (port : ℕ) × IsServing os net system r handle port × ComesFrom config args port
