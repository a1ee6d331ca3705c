-- ===== src/Tcp/TcpSocketWin.antt =====
-- The class TcpSocketWin of root/app/libs/tcp/src/TcpSocketWin.cpp, over the calls of Winsock. Its
-- state is the system's, `sock_` and `initialized_`.
pub mod Startups
pub mod Ledger
use messenger_cpp_r.Base.{
  ℕ, ◌+◌, ◌-◌, ◌^◌, ◌≤◌, ◌≡◌, refl, Bool, true, false, not, ◌&&◌, ◌||◌, Option, none, some, List,
  [], ◌∷◌, arith, Bytes, length, is_empty, ltb, ◌==◌, if◌then◌else◌, ℤ,
}
use messenger_cpp_r.Server.Numbers.{int_text}
use messenger_cpp_r.Tcp.Protocol.{ISocket}

-- A SOCKET is an unsigned number of 64 bits, INVALID_SOCKET the largest. SOCKET_ERROR is `none`; as
-- documented, ::send and ::recv report no more than they were given room for.
pub record Winsock : Type 1 where
  pub State : Type 0
  pub startup : State → Bool × State
  pub cleanup : State → State
  pub socket : State → ℕ × State
  pub getaddrinfo : State → Bytes → Bytes → Option (List Bytes) × State
  pub connect : State → ℕ → Bytes → Bool × State
  pub send : State → ℕ → Bytes → Option ℕ × State
  pub recv : State → ℕ → ℕ → Option Bytes × State
  pub shutdown : State → ℕ → State
  pub closesocket : State → ℕ → State
  pub send_fits :
      (s : State) (h : ℕ) (bs : Bytes) (n : ℕ) → (send s h bs).0 ≡ some n → n ≤ length bs
  pub recv_fits : (s : State) (h n : ℕ) (bs : Bytes) → (recv s h n).0 ≡ some bs → length bs ≤ n

abbrev pub invalid_socket : ℕ
invalid_socket = 2 ^ 64 - 1

abbrev pub int_max : ℕ
int_max = 2 ^ 31 - 1

pub record TcpSocketWin (State : Type 0) : Type 0 where
  pub system : State
  pub sock : ℕ
  pub initialized : Bool

unfoldable pub is_invalid : ℕ → Bool
is_invalid h = h == invalid_socket

-- What ::send and ::recv give, 0 and nothing for SOCKET_ERROR.
abbrev pub count_of : Option ℕ → ℕ
count_of none = 0
count_of (some n) = n

abbrev pub bytes_of : Option Bytes → Bytes
bytes_of none = []
bytes_of (some bs) = bs

module _ (ws : Winsock) where
  open ws use {State}

  unfoldable pub win_socket : State → TcpSocketWin State
  win_socket s =
      let (done, s') = ws.startup s in
      record { system = s'; sock = invalid_socket; initialized = done }

  unfoldable pub win_close : TcpSocketWin State → TcpSocketWin State
  unfolding is_invalid
  win_close t = if is_invalid t.sock then t else record t {
    system = ws.closesocket (ws.shutdown t.system t.sock) t.sock;
    sock = invalid_socket;
  }

  unfoldable pub connect_any : State → ℕ → List Bytes → Bool × State
  connect_any s sock [] = (false, s)
  connect_any s sock (address ∷ rest) =
      let (done, s') = ws.connect s sock address in
      let others = connect_any s' sock rest in if done then (true, s') else others

  abbrev pub hold : TcpSocketWin State → State → ℕ → TcpSocketWin State
  hold t s sock = record t { system = s; sock = sock }

  -- ::closesocket(sock_); sock_ = INVALID_SOCKET; return false;
  abbrev pub give_up : TcpSocketWin State → State → ℕ → Bool × TcpSocketWin State
  give_up t s sock = (false, hold t (ws.closesocket s sock) invalid_socket)

  -- What follows once `sock_` is free.
  unfoldable pub connect_new : TcpSocketWin State → Bytes → ℤ → Bool × TcpSocketWin State
  unfolding is_invalid connect_any
  connect_new t host port =
      let (sock, s1) = ws.socket t.system in
      let (result, s2) = ws.getaddrinfo s1 host (int_text port) in
      if is_invalid sock then (false, hold t s1 sock) else elim result [
        | none ↦ give_up t s2 sock
        | some addresses ↦
            let (connected, s3) = connect_any s2 sock addresses in
            if connected then (true, hold t s3 sock) else give_up t s3 sock
      ]

  unfoldable pub win_connect : TcpSocketWin State → Bytes → ℤ → Bool × TcpSocketWin State
  unfolding connect_new win_close
  win_connect t host port =
      if not t.initialized then (false, t) else connect_new (win_close t) host port

  unfoldable pub win_send : TcpSocketWin State → Bytes → ℕ × TcpSocketWin State
  unfolding is_invalid
  win_send t bytes =
      if is_invalid t.sock || (not t.initialized || is_empty bytes)
      then (0, t)
      else if ltb int_max (length bytes)
      then (0, t)
      else let (bytes_sent, s) = ws.send t.system t.sock bytes in
        (count_of bytes_sent, record t { system = s })

  unfoldable pub win_receive : TcpSocketWin State → ℕ → Bytes × TcpSocketWin State
  unfolding is_invalid
  win_receive t maxlen =
      if is_invalid t.sock || (not t.initialized || maxlen == 0)
      then ([], t)
      else if ltb int_max maxlen
      then ([], t)
      else let (received, s) = ws.recv t.system t.sock maxlen in
        (bytes_of received, record t { system = s })

  count_of-le : (r : Option ℕ) (m : ℕ) → ((n : ℕ) → r ≡ some n → n ≤ m) → count_of r ≤ m
  count_of-le none m h = omega arith
  count_of-le (some n) m h = h n refl

  bytes_of-le :
      (r : Option Bytes) (m : ℕ)
      → ((bs : Bytes) → r ≡ some bs → length bs ≤ m)
      → length (bytes_of r) ≤ m
  bytes_of-le none m h = omega arith
  bytes_of-le (some bs) m h = h bs refl

  pub win_send_fits : (t : TcpSocketWin State) (bs : Bytes) → (win_send t bs).0 ≤ length bs
  unfolding win_send
  win_send_fits t bs = ground (
    arith,
    count_of-le (ws.send t.system t.sock bs).0 (length bs) (ws.send_fits t.system t.sock bs),
  )

  pub win_receive_fits : (t : TcpSocketWin State) (n : ℕ) → length (win_receive t n).0 ≤ n
  unfolding win_receive
  win_receive_fits t n =
      ground (arith, bytes_of-le (ws.recv t.system t.sock n).0 n (ws.recv_fits t.system t.sock n))

  abbrev pub win_isocket : ISocket
  win_isocket = record {
    State = TcpSocketWin State;
    send = win_send;
    receive = win_receive;
    send_fits = win_send_fits;
    receive_fits = win_receive_fits;
  }

  pub data SocketCall : Type 0 where
    connects : Bytes → ℤ → SocketCall
    sends : Bytes → SocketCall
    receives : ℕ → SocketCall
    closes : SocketCall

  unfoldable pub win_call : TcpSocketWin State → SocketCall → TcpSocketWin State
  win_call t (connects host port) = (win_connect t host port).1
  win_call t (sends bytes) = (win_send t bytes).1
  win_call t (receives n) = (win_receive t n).1
  win_call t closes = win_close t

  unfoldable pub win_calls : TcpSocketWin State → List SocketCall → TcpSocketWin State
  win_calls t [] = t
  win_calls t (c ∷ cs) = win_calls (win_call t c) cs

  -- The destructor.
  unfoldable pub win_destroy : TcpSocketWin State → State
  unfolding win_close
  win_destroy t = let t' = win_close t in if t'.initialized then ws.cleanup t'.system else t'.system

  unfoldable pub win_life : State → List SocketCall → State
  win_life s calls = win_destroy (win_calls (win_socket s) calls)
