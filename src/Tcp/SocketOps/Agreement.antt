-- ===== src/Tcp/SocketOps/Agreement.antt =====
-- The two copies of the frame functions: those of SocketOps.cpp on a handle, and those of
-- Protocol.cpp on a TcpSocketLinux that holds the handle.
use messenger_cpp_r.Base.{
  ℕ, zero, suc, ◌-◌, ◌≡◌, refl, inl, inr, Option, [], ◌∷◌, ◌++◌, arith, Bytes, length, drop, ltb,
  Bool-cases, ℤ, pos, max_zero,
}
use mathlib.Core.Option
use messenger_cpp_r.Tcp.Frame.{read_big_endian32, encode_frame}
use messenger_cpp_r.Tcp.Protocol
use messenger_cpp_r.Tcp.Protocol.{ReceiveFrameStatus, ok, closed, error, too_large, invalid}
use messenger_cpp_r.Tcp.SocketOps.{
  Os, bytes_of, Filled, full, ended, broken, stuck, send_loop, send_frame, fill, end_body,
  receive_body, receive_frame,
}
use messenger_cpp_r.Tcp.TcpSocket.{linux_send, linux_receive, linux_socket}

-- TcpSocketLinux::receive reports a failure as it reports the end.
abbrev forget : Filled → Protocol.Filled
forget (full b) = Protocol.full b
forget (ended b) = Protocol.ended b
forget (broken b) = Protocol.ended b
forget stuck = Protocol.stuck

-- closed and error taken together
abbrev pub coarse : ReceiveFrameStatus → ReceiveFrameStatus
coarse ok = ok
coarse closed = error
coarse error = error
coarse too_large = too_large
coarse invalid = invalid

module _ (os : Os) (n : ℕ) where
  open os use {State}

  send_loop_agrees :
      (fuel : ℕ) (s : State) (bs : Bytes)
      → Protocol.send_loop (linux_socket os) fuel (s, pos n) bs
        ≡ ((send_loop os fuel s (pos n) bs).0, ((send_loop os fuel s (pos n) bs).1, pos n))
  unfolding send_loop Protocol.send_loop linux_send
  send_loop_agrees fuel s [] = refl
  send_loop_agrees zero s (b ∷ bs) = refl
  send_loop_agrees (suc fuel) s (b ∷ bs) = ground (
    arith,
    send_loop_agrees fuel (os.send s (pos n) (b ∷ bs)).1
        (drop (max_zero (os.send s (pos n) (b ∷ bs)).0) (b ∷ bs)),
  )

  fill_agrees :
      (fuel : ℕ) (s : State) (want : ℕ) (done : Bytes)
      → Protocol.fill (linux_socket os) fuel (s, pos n) want done ≡ (
        forget (fill os fuel s (pos n) want done).0,
        ((fill os fuel s (pos n) want done).1, pos n),
      )
  unfolding fill Protocol.fill linux_receive
  fill_agrees fuel s zero done = refl
  fill_agrees zero s (suc want) done = refl
  fill_agrees (suc fuel) s (suc want) done = ground (
    arith,
    fill_agrees fuel (os.recv s (pos n) (suc want)).1
        (suc want - length (bytes_of (os.recv s (pos n) (suc want)).0))
        (done ++ bytes_of (os.recv s (pos n) (suc want)).0),
  )

  abbrev pub Agrees :
      Option ReceiveFrameStatus × Bytes × (State × ℤ)
      → Option ReceiveFrameStatus × Bytes × State
      → Type 0
  Agrees (p, payload, t) (r, payload', s) =
      (Option.map coarse p ≡ Option.map coarse r) × (payload ≡ payload') × (t ≡ (s, pos n))

  end_body-Agrees :
      (size : ℕ) (r : Filled × State)
      → Agrees
          (Protocol.end_body (linux_socket os) size (forget r.0, (r.1, pos n)))
          (end_body os size r)
  unfolding end_body Protocol.end_body
  end_body-Agrees size (full b, s) = (refl, refl, refl)
  end_body-Agrees size (ended b, s) = (refl, refl, refl)
  end_body-Agrees size (broken b, s) = (refl, refl, refl)
  end_body-Agrees size (stuck, s) = (refl, refl, refl)

  receive_body-Agrees :
      (limit : ℕ) (r : Filled × State)
      → Agrees
          (Protocol.receive_body (linux_socket os) limit (forget r.0, (r.1, pos n)))
          (receive_body os (pos n) limit r)
  unfolding receive_body Protocol.receive_body
  receive_body-Agrees limit (full header, s) =
      elim (Bool-cases (ltb limit (read_big_endian32 header))) [
        | inl large ↦ rw large (refl, refl, refl)
        | inr small ↦
            rw (small, fill_agrees (read_big_endian32 header) s (read_big_endian32 header) [])
              (end_body-Agrees (read_big_endian32 header) _)
      ]
  receive_body-Agrees limit (ended b, s) = (ground arith, refl, refl)
  receive_body-Agrees limit (broken b, s) = (ground arith, refl, refl)
  receive_body-Agrees limit (stuck, s) = (refl, refl, refl)

  -- On a handle that is not negative, receiveFrame of SocketOps and receiveFrame of Protocol over a
  -- TcpSocketLinux leave the same state and payload, and answer the same status except that one may
  -- say closed where the other says error.
  pub receive_frame-Agrees :
      (s : State) (limit : ℕ)
      → Agrees
          (Protocol.receive_frame (linux_socket os) (s, pos n) limit)
          (receive_frame os s (pos n) limit)
  unfolding receive_frame Protocol.receive_frame
  receive_frame-Agrees s limit = rw (fill_agrees 4 s 4 []) (receive_body-Agrees limit _)

  -- On a handle that is not negative, sendFrame of SocketOps and sendFrame of Protocol over a
  -- TcpSocketLinux give the same answer and leave the same state.
  pub send_frame_agrees :
      (s : State) (payload : Bytes) (limit : ℕ)
      → Protocol.send_frame (linux_socket os) (s, pos n) payload limit ≡ (
        (send_frame os s (pos n) payload limit).0,
        ((send_frame os s (pos n) payload limit).1, pos n),
      )
  unfolding send_frame Protocol.send_frame Protocol.send_all
  send_frame_agrees s payload limit =
      ground (arith, send_loop_agrees (length (encode_frame payload)) s (encode_frame payload))

  -- On a handle that is not negative, sendFrame of SocketOps and sendFrame of Protocol over a
  -- TcpSocketLinux give the same answer and leave the same state; receiveFrame of the two leave the
  -- same state and payload, and answer the same status except that one may say closed where the
  -- other says error.
  pub frames_agree :
      (s : State) (payload : Bytes) (limit : ℕ)
      → (Protocol.send_frame (linux_socket os) (s, pos n) payload limit ≡ (
        (send_frame os s (pos n) payload limit).0,
        ((send_frame os s (pos n) payload limit).1, pos n),
      ))
        × Agrees
            (Protocol.receive_frame (linux_socket os) (s, pos n) limit)
            (receive_frame os s (pos n) limit)
  frames_agree s payload limit = (send_frame_agrees s payload limit, receive_frame-Agrees s limit)
