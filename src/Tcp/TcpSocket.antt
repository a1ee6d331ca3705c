-- ===== src/Tcp/TcpSocket.antt =====
-- The class TcpSocketLinux of root/app/libs/tcp/src/TcpSocketLinux.cpp: an ISocket over the system
-- calls. Its state is the system's and `sockfd_`.
pub mod Connecting
pub mod Ledger
use messenger_cpp_r.Base.{
  ℕ, ◌≤◌, Bool, true, false, ◌||◌, [], arith, Bytes, length, is_empty, ◌==◌, if◌then◌else◌, ℤ, pos,
  negsuc, minus_one, max_zero,
}
use messenger_cpp_r.Tcp.Protocol.{ISocket}
use messenger_cpp_r.Tcp.SocketOps.{Os, bytes_of}

abbrev pub is_negative : ℤ → Bool
is_negative (pos n) = false
is_negative (negsuc n) = true

module _ (os : Os) where
  open os use {State}

  unfoldable pub linux_send : State × ℤ → Bytes → ℕ × (State × ℤ)
  linux_send (s, sockfd) bytes =
      if is_negative sockfd || is_empty bytes
      then (0, (s, sockfd))
      else let (bytes_sent, s') = os.send s sockfd bytes in
        if is_negative bytes_sent then (0, (s', sockfd)) else (max_zero bytes_sent, (s', sockfd))

  unfoldable pub linux_receive : State × ℤ → ℕ → Bytes × (State × ℤ)
  linux_receive (s, sockfd) maxlen =
      if is_negative sockfd || maxlen == 0
      then ([], (s, sockfd))
      else let (received, s') = os.recv s sockfd maxlen in (bytes_of received, (s', sockfd))

  unfoldable pub linux_close : State × ℤ → State × ℤ
  linux_close (s, sockfd) =
      if is_negative sockfd
      then (s, sockfd)
      else (os.close (os.shutdown s sockfd) sockfd, minus_one)

  pub linux_send_fits : (t : State × ℤ) (bs : Bytes) → (linux_send t bs).0 ≤ length bs
  unfolding linux_send
  linux_send_fits (s, fd) bs = ground (arith, os.send_fits s fd bs)

  pub linux_receive_fits : (t : State × ℤ) (n : ℕ) → length (linux_receive t n).0 ≤ n
  unfolding linux_receive
  linux_receive_fits (s, fd) n = ground (arith, os.recv_fits s fd n)

  abbrev pub linux_socket : ISocket
  linux_socket = record {
    State = State × ℤ;
    send = linux_send;
    receive = linux_receive;
    send_fits = linux_send_fits;
    receive_fits = linux_receive_fits;
  }
