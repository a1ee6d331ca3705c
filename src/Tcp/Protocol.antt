-- ===== src/Tcp/Protocol.antt =====
-- sendAll, sendFrame and receiveFrame of root/app/libs/tcp/src/Protocol.cpp, over an ISocket.
pub mod Sending
pub mod Receiving
pub mod Memory
pub mod EndToEnd
use messenger_cpp_r.Base.{
  ℕ, zero, suc, ◌+◌, ◌-◌, ◌≤◌, ◌≡◌, Bool, true, false, Option, none, some, List, [], ◌∷◌, ◌++◌,
  Bytes, is_empty, length, drop, replicate, ltb, ◌==◌, if◌then◌else◌,
}
use messenger_cpp_r.Tcp.Frame.{frame_header_size, read_big_endian32, encode_frame}

-- ISocket.h. `send` returns how many bytes were taken, `receive` the bytes that were read; none is
-- a failure or the end. Neither passes what it was given room for.
pub record ISocket : Type 1 where
  pub State : Type 0
  pub send : State → Bytes → ℕ × State
  pub receive : State → ℕ → Bytes × State
  pub send_fits : (s : State) (bs : Bytes) → (send s bs).0 ≤ length bs
  pub receive_fits : (s : State) (n : ℕ) → length (receive s n).0 ≤ n

pub data ReceiveFrameStatus : Type 0 where
  ok closed error too_large invalid : ReceiveFrameStatus

-- How a loop over `receive` ended: the buffer is full, the socket gave nothing, or (never, see
-- Receiving) the fuel ran out.
pub data Filled : Type 0 where
  full ended : Bytes → Filled
  stuck : Filled

module _ (sock : ISocket) where
  open sock use {State, send, receive}

  -- `none` when the fuel runs out; a round sends a byte at least.
  unfoldable pub send_loop : ℕ → State → Bytes → Option Bool × State
  send_loop fuel s [] = (some true, s)
  send_loop zero s (b ∷ bs) = (none, s)
  send_loop (suc fuel) s (b ∷ bs) =
      let (chunk, s') = send s (b ∷ bs) in
      let rest = send_loop fuel s' (drop chunk (b ∷ bs)) in
      if chunk == 0 then (some false, s') else rest

  unfoldable pub send_all : State → Bytes → Option Bool × State
  send_all s bytes = send_loop (length bytes) s bytes

  unfoldable pub send_frame : State → Bytes → ℕ → Option Bool × State
  send_frame s payload max_frame_size =
      if ltb max_frame_size (length payload)
      then (some false, s)
      else send_all s (encode_frame payload)

  -- Both loops of receiveFrame: `want` bytes are missing, `got` are there.
  unfoldable pub fill : ℕ → State → ℕ → Bytes → Filled × State
  fill fuel s zero got = (full got, s)
  fill zero s (suc want) got = (stuck, s)
  fill (suc fuel) s (suc want) got =
      let (chunk, s') = receive s (suc want) in
      let rest = fill fuel s' (suc want - length chunk) (got ++ chunk) in
      if is_empty chunk then (ended got, s') else rest

  -- The payload was resized, so what did not arrive is zero.
  unfoldable pub end_body : ℕ → Filled × State → Option ReceiveFrameStatus × Bytes × State
  end_body size (full body, s) = (some ok, body, s)
  end_body size (ended body, s) = (some error, body ++ replicate (size - length body) 0, s)
  end_body size (stuck, s) = (none, [], s)

  unfoldable pub receive_body : ℕ → Filled × State → Option ReceiveFrameStatus × Bytes × State
  receive_body max_frame_size (full header, s) =
      let size = read_big_endian32 header in
      if ltb max_frame_size size
      then (some too_large, [], s)
      else end_body size (fill size s size [])
  receive_body max_frame_size (ended got, s) =
      (some (if length got == 0 then closed else error), [], s)
  receive_body max_frame_size (stuck, s) = (none, [], s)

  unfoldable pub receive_frame : State → ℕ → Option ReceiveFrameStatus × Bytes × State
  receive_frame s max_frame_size =
      receive_body max_frame_size (fill frame_header_size s frame_header_size [])
