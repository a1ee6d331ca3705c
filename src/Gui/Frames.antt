-- ===== src/Gui/Frames.antt =====
-- sendFrame and readFrame of mainwindowserver.cpp, over the QTcpSocket as a parameter.
pub mod Agreement
use messenger_cpp_r.Base.{
  ℕ, zero, suc, ◌+◌, ◌-◌, ◌*◌, ◌/◌, ◌%◌, ◌^◌, ◌≤◌, ◌≡◌, ◌≢◌, Bool, true, false, List, [], ◌∷◌, ◌++◌,
  Bytes, length, ltb, if◌then◌else◌,
}
use messenger_cpp_r.Tcp.Protocol
use messenger_cpp_r.Tcp.Protocol.{ISocket}
use messenger_cpp_r.Gui.Text.{QString, Qt}

abbrev pub max_frame_size : ℕ
max_frame_size = 64 * 1024

-- The calls of QTcpSocket. As documented, `read` gives no more than it is asked for, and something if
-- something is available, which it is after a waitForReadyRead that returned true.
pub record QTcpSocket : Type 1 where
  pub State : Type 0
  pub connect_to_host : State → State
  pub wait_for_connected : State → Bool × State
  pub disconnect_from_host : State → State
  pub write : State → Bytes → State
  pub wait_for_bytes_written : State → Bool × State
  pub bytes_available : State → Bool
  pub wait_for_ready_read : State → Bool × State
  pub read : State → ℕ → Bytes × State
  pub read_fits : (s : State) (n : ℕ) → length (read s n).0 ≤ n
  pub read_some : (s : State) (n : ℕ) → bytes_available s ≡ true → (read s (suc n)).0 ≢ []
  pub ready_available :
      (s : State)
      → (wait_for_ready_read s).0 ≡ true
      → bytes_available (wait_for_ready_read s).1 ≡ true

pub data Filled : Type 0 where
  full : Bytes → Filled
  timed_out stuck : Filled

pub data ReadFrame : Type 0 where
  frame : QString → ReadFrame
  no_frame stuck : ReadFrame

-- The four bytes that sendFrame appends.
unfoldable pub frame_header : ℕ → Bytes
frame_header size =
    (size / 2 ^ 24 % 256) ∷ (size / 2 ^ 16 % 256) ∷ (size / 2 ^ 8 % 256) ∷ (size % 256) ∷ []

unfoldable pub header_size : Bytes → ℕ
header_size (b0 ∷ b1 ∷ b2 ∷ b3 ∷ rest) =
    b0 % 256 * 2 ^ 24 + b1 % 256 * 2 ^ 16 + b2 % 256 * 2 ^ 8 + b3 % 256
header_size _ = 0

module _ (sock : QTcpSocket) where
  open sock use {State, bytes_available, wait_for_ready_read, read}

  -- !socket.bytesAvailable() && !socket.waitForReadyRead(timeoutMs), the other way round
  unfoldable pub ready : State → Bool × State
  ready s = if bytes_available s then (true, s) else wait_for_ready_read s

  -- Both loops of readFrame.
  unfoldable pub fill : ℕ → State → ℕ → Bytes → Filled × State
  unfolding ready
  fill fuel s zero got = (full got, s)
  fill zero s (suc want) got = (Filled.stuck, s)
  fill (suc fuel) s (suc want) got =
      let (go_on, s1) = ready s in
      let (chunk, s2) = read s1 (suc want) in
      let rest = fill fuel s2 (suc want - length chunk) (got ++ chunk) in
      if go_on then rest else (timed_out, s1)

  module _ (qt : Qt) where
    unfoldable pub send_frame : State → QString → Bool × State
    send_frame s payload =
        let body = qt.to_utf8 payload in
        if ltb max_frame_size (length body)
        then (false, s)
        else sock.wait_for_bytes_written
            (sock.write s (frame_header (length body % 2 ^ 32) ++ body))

    unfoldable pub end_body : Filled × State → ReadFrame × State
    end_body (full body, s) = (frame (qt.from_utf8 body), s)
    end_body (timed_out, s) = (no_frame, s)
    end_body (Filled.stuck, s) = (ReadFrame.stuck, s)

    unfoldable pub read_body : Filled × State → ReadFrame × State
    unfolding header_size end_body fill
    read_body (full header, s) =
        let size = header_size header in
        if ltb max_frame_size size then (no_frame, s) else end_body (fill size s size [])
    read_body (timed_out, s) = (no_frame, s)
    read_body (Filled.stuck, s) = (ReadFrame.stuck, s)

    unfoldable pub read_frame : State → ReadFrame × State
    unfolding read_body fill
    read_frame s = read_body (fill 4 s 4 [])
