-- ===== src/Tcp/TcpSocket/Connecting.antt =====
-- TcpSocketLinux::connect, and the handles that a TcpSocketLinux opens and closes in its life.
use messenger_cpp_r.Base.{
  ℕ, Bool, true, false, Option, none, some, List, [], ◌∷◌, Bytes, if◌then◌else◌, ℤ, minus_one,
  eqb_ℤ,
}
use messenger_cpp_r.Server.Numbers.{int_text}
use messenger_cpp_r.Tcp.SocketOps.{Os}
use messenger_cpp_r.Tcp.TcpSocket.{is_negative, linux_send, linux_receive, linux_close}

-- ::socket, ::getaddrinfo with its list of addresses, and ::connect to one of them.
pub record Net (os : Os) : Type 0 where
  pub socket : Os.State os → ℤ × Os.State os
  pub getaddrinfo : Os.State os → Bytes → Bytes → Option (List Bytes) × Os.State os
  pub connect : Os.State os → ℤ → Bytes → Bool × Os.State os

module _ (os : Os) (net : Net os) where
  open os use {State}

  -- The loop over the addresses, which ends at the first that answers.
  unfoldable pub connect_any : State → ℤ → List Bytes → Bool × State
  connect_any s sockfd [] = (false, s)
  connect_any s sockfd (address ∷ rest) =
      let (done, s') = net.connect s sockfd address in
      let others = connect_any s' sockfd rest in if done then (true, s') else others

  -- ::close(sockfd_); sockfd_ = -1; return false;
  abbrev pub give_up : State → ℤ → Bool × (State × ℤ)
  give_up s sockfd = (false, (os.close s sockfd, minus_one))

  -- What follows once `sockfd_` is free: the handle, the addresses, the connection.
  unfoldable pub connect_new : State → Bytes → ℤ → Bool × (State × ℤ)
  connect_new s host port =
      let (sockfd, s1) = net.socket s in
      let (result, s2) = net.getaddrinfo s1 host (int_text port) in
      if is_negative sockfd then (false, (s1, sockfd)) else elim result [
        | none ↦ give_up s2 sockfd
        | some addresses ↦
            let (connected, s3) = connect_any s2 sockfd addresses in
            if connected then (true, (s3, sockfd)) else give_up s3 sockfd
      ]

  unfoldable pub linux_connect : State × ℤ → Bytes → ℤ → Bool × (State × ℤ)
  unfolding connect_new
  linux_connect (s, sockfd) host port =
      connect_new (if eqb_ℤ sockfd minus_one then s else (linux_close os (s, sockfd)).0) host port

  pub data SocketCall : Type 0 where
    connects : Bytes → ℤ → SocketCall
    sends : Bytes → SocketCall
    receives : ℕ → SocketCall
    closes : SocketCall

  unfoldable pub linux_call : State × ℤ → SocketCall → State × ℤ
  linux_call t (connects host port) = (linux_connect t host port).1
  linux_call t (sends bytes) = (linux_send os t bytes).1
  linux_call t (receives n) = (linux_receive os t n).1
  linux_call t closes = linux_close os t

  -- The life of an object: the constructor, calls, and the destructor, which closes.
  unfoldable pub linux_calls : State × ℤ → List SocketCall → State × ℤ
  linux_calls t [] = t
  linux_calls t (c ∷ cs) = linux_calls (linux_call t c) cs

  unfoldable pub linux_life : State → List SocketCall → State
  linux_life s calls = (linux_close os (linux_calls (s, minus_one) calls)).0
