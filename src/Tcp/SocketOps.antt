-- ===== src/Tcp/SocketOps.antt =====
-- root/app/libs/tcp/src/SocketOps.cpp in its POSIX form: frames over a bare socket handle. The
-- system calls are the parameter `Os`.
pub mod Agreement
use messenger_cpp_r.Base.{
  ℕ, zero, suc, ◌+◌, ◌-◌, ◌≤◌, Bool, true, false, not, ◌||◌, ◌&&◌, Option, none, some, List, [],
  ◌∷◌, ◌++◌, Bytes, length, is_empty, drop, replicate, ltb, ◌==◌, if◌then◌else◌, ℤ, pos, minus_one,
  eqb_ℤ, non_positive, max_zero,
}
use messenger_cpp_r.Tcp.Frame.{frame_header_size, read_big_endian32, encode_frame}
use messenger_cpp_r.Tcp.Protocol.{ReceiveFrameStatus, ok, closed, error, too_large, invalid}

-- ::recv answers a number of bytes (none at the end of the stream) or a negative number.
pub data Recv : Type 0 where
  got : Bytes → Recv
  failed : Recv

abbrev pub bytes_of : Recv → Bytes
bytes_of (got bs) = bs
bytes_of failed = []

-- The calls of the operating system; as documented, ::send and ::recv never report more than they
-- were given room for.
pub record Os : Type 1 where
  pub State : Type 0
  pub send : State → ℤ → Bytes → ℤ × State
  pub recv : State → ℤ → ℕ → Recv × State
  pub shutdown : State → ℤ → State
  pub close : State → ℤ → State
  pub set_timeout : State → ℤ → ℤ → Bool × State
  pub set_reuse : State → ℤ → Bool × State
  pub send_fits : (s : State) (h : ℤ) (bs : Bytes) → max_zero (send s h bs).0 ≤ length bs
  pub recv_fits : (s : State) (h : ℤ) (n : ℕ) → length (bytes_of (recv s h n).0) ≤ n

abbrev pub invalid_socket : ℤ
invalid_socket = minus_one

unfoldable pub is_valid_socket : ℤ → Bool
is_valid_socket socket = not (eqb_ℤ socket invalid_socket)

pub data Filled : Type 0 where
  full ended broken : Bytes → Filled
  stuck : Filled

module _ (os : Os) where
  open os use {State}

  unfoldable pub close_socket : State → ℤ → State
  unfolding is_valid_socket
  close_socket s socket =
      if not (is_valid_socket socket) then s else os.close (os.shutdown s socket) socket

  unfoldable pub set_receive_timeout : State → ℤ → ℤ → Bool × State
  unfolding is_valid_socket
  set_receive_timeout s socket seconds =
      if not (is_valid_socket socket) || non_positive seconds
      then (false, s)
      else os.set_timeout s socket seconds

  unfoldable pub set_reuse_address : State → ℤ → Bool × State
  set_reuse_address s socket = os.set_reuse s socket

  unfoldable pub set_no_sig_pipe : State → ℤ → Bool × State
  unfolding is_valid_socket
  set_no_sig_pipe s socket = if not (is_valid_socket socket) then (false, s) else (true, s)

  unfoldable pub send_loop : ℕ → State → ℤ → Bytes → Option Bool × State
  send_loop fuel s socket [] = (some true, s)
  send_loop zero s socket (b ∷ bs) = (none, s)
  send_loop (suc fuel) s socket (b ∷ bs) =
      let (n, s') = os.send s socket (b ∷ bs) in
      let rest = send_loop fuel s' socket (drop (max_zero n) (b ∷ bs)) in
      if non_positive n then (some false, s') else rest

  unfoldable pub send_all : State → ℤ → Bytes → Option Bool × State
  unfolding is_valid_socket send_loop
  send_all s socket bytes =
      if not (is_valid_socket socket)
      then (some false, s)
      else send_loop (length bytes) s socket bytes

  unfoldable pub send_frame : State → ℤ → Bytes → ℕ → Option Bool × State
  unfolding send_all
  send_frame s socket payload max_frame_size =
      if ltb max_frame_size (length payload)
      then (some false, s)
      else send_all s socket (encode_frame payload)

  -- One round's answer: the buffer grows, the stream is at its end, or the call failed.
  unfoldable pub fill : ℕ → State → ℤ → ℕ → Bytes → Filled × State
  fill fuel s socket zero done = (full done, s)
  fill zero s socket (suc want) done = (stuck, s)
  fill (suc fuel) s socket (suc want) done =
      let (n, s') = os.recv s socket (suc want) in
      let chunk = bytes_of n in
      let rest = fill fuel s' socket (suc want - length chunk) (done ++ chunk) in
      elim n [
        | failed ↦ (broken done, s')
        | got bs ↦ if is_empty bs then (ended done, s') else rest
      ]

  unfoldable pub end_body : ℕ → Filled × State → Option ReceiveFrameStatus × Bytes × State
  end_body size (full body, s) = (some ok, body, s)
  end_body size (ended body, s) = (some closed, body ++ replicate (size - length body) 0, s)
  end_body size (broken body, s) = (some error, body ++ replicate (size - length body) 0, s)
  end_body size (stuck, s) = (none, [], s)

  unfoldable pub receive_body : ℤ → ℕ → Filled × State → Option ReceiveFrameStatus × Bytes × State
  receive_body socket max_frame_size (full header, s) =
      let size = read_big_endian32 header in
      if ltb max_frame_size size
      then (some too_large, [], s)
      else end_body size (fill size s socket size [])
  receive_body socket max_frame_size (ended done, s) =
      (some (if length done == 0 then closed else error), [], s)
  receive_body socket max_frame_size (broken done, s) = (some error, [], s)
  receive_body socket max_frame_size (stuck, s) = (none, [], s)

  unfoldable pub receive_frame : State → ℤ → ℕ → Option ReceiveFrameStatus × Bytes × State
  receive_frame s socket max_frame_size =
      receive_body socket max_frame_size (fill frame_header_size s socket frame_header_size [])
