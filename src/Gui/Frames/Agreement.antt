-- ===== src/Gui/Frames/Agreement.antt =====
-- The frames of the window are those of Protocol.cpp.
use messenger_cpp_r.Base.{
  ℕ, zero, suc, ◌≤◌, ◌≡◌, refl, ◌≢◌, inl, inr, true, false, Bool-cases, Option, none, some, [], ◌∷◌,
  arith, Bytes, length, is_empty, ltb, ◌==◌, if◌then◌else◌,
}
use messenger_cpp_r.Tcp.Frame.{read_big_endian32, encode_frame, write_big_endian32}
use messenger_cpp_r.Tcp.Protocol
use messenger_cpp_r.Tcp.Protocol.{ISocket, ReceiveFrameStatus}
use messenger_cpp_r.Gui.Text.{QString, Qt}
use messenger_cpp_r.Gui.Frames
use messenger_cpp_r.Gui.Frames.{
  QTcpSocket, Filled, ReadFrame, frame, no_frame, frame_header, header_size, max_frame_size,
}

module _ (sock : QTcpSocket) where
  open sock use {State}

  -- Waiting and reading, as the receive of an ISocket.
  unfoldable pub receive : State → ℕ → Bytes × State
  receive s n = let (go_on, s1) = Frames.ready sock s in if go_on then sock.read s1 n else ([], s1)

  pub receive_fits : (s : State) (n : ℕ) → length (receive s n).0 ≤ n
  unfolding receive
  receive_fits s n = elim (Bool-cases (Frames.ready sock s).0) [
    | inl on ↦ rw on (sock.read_fits (Frames.ready sock s).1 n)
    | inr off ↦ rw off (omega arith)
  ]

  -- Only its receive matters here.
  abbrev pub as_socket : ISocket
  as_socket = record {
    State = State;
    send = λ s bs. (0, s);
    receive = receive;
    send_fits = λ s bs. omega arith;
    receive_fits = receive_fits;
  }

  ready-available :
      (s : State)
      → (Frames.ready sock s).0 ≡ true
      → sock.bytes_available (Frames.ready sock s).1 ≡ true
  unfolding Frames.ready
  ready-available s = elim (Bool-cases (sock.bytes_available s)) [
    | inl on ↦ rw on (λ h. on)
    | inr off ↦ rw off (sock.ready_available s)
  ]

  abbrev as_filled : Protocol.Filled → Filled
  as_filled (Protocol.full got) = Filled.full got
  as_filled (Protocol.ended got) = Filled.timed_out
  as_filled Protocol.stuck = Filled.stuck

  receive-ready :
      (s : State) (n : ℕ)
      → (Frames.ready sock s).0 ≡ true
      → receive s n ≡ sock.read (Frames.ready sock s).1 n
  unfolding receive
  receive-ready s n on = rw on refl

  receive-late :
      (s : State) (n : ℕ)
      → (Frames.ready sock s).0 ≡ false
      → receive s n ≡ ([], (Frames.ready sock s).1)
  unfolding receive
  receive-late s n off = rw off refl

  not_empty : (xs : Bytes) → xs ≢ [] → is_empty xs ≡ false
  not_empty [] h = absurd (h refl)
  not_empty (x ∷ xs) h = refl

  fill-Agrees :
      (fuel : ℕ) (s : State) (want : ℕ) (got : Bytes)
      → Frames.fill sock fuel s want got ≡ (
        as_filled (Protocol.fill as_socket fuel s want got).0,
        (Protocol.fill as_socket fuel s want got).1,
      )
  unfolding Frames.fill Protocol.fill
  fill-Agrees fuel s zero got = refl
  fill-Agrees zero s (suc want) got = refl
  fill-Agrees (suc fuel) s (suc want) got = elim (Bool-cases (Frames.ready sock s).0) [
    | inl on ↦
        let some_read =
          not_empty _ (sock.read_some (Frames.ready sock s).1 want (ready-available s on)) in
        rw (on, receive-ready s (suc want) on, some_read) (fill-Agrees fuel _ _ _)
    | inr off ↦ rw (off, receive-late s (suc want) off) refl
  ]

  module _ (qt : Qt) where
    -- Only Ok gives a frame.
    abbrev pub as_read : Option ReceiveFrameStatus × Bytes × State → ReadFrame × State
    as_read (some Protocol.ok, payload, s) = (frame (qt.from_utf8 payload), s)
    as_read (some Protocol.closed, payload, s) = (no_frame, s)
    as_read (some Protocol.error, payload, s) = (no_frame, s)
    as_read (some Protocol.too_large, payload, s) = (no_frame, s)
    as_read (some Protocol.invalid, payload, s) = (no_frame, s)
    as_read (none, payload, s) = (ReadFrame.stuck, s)

    header_size-read_big_endian32 : (bs : Bytes) → header_size bs ≡ read_big_endian32 bs
    unfolding header_size read_big_endian32
    header_size-read_big_endian32 [] = refl
    header_size-read_big_endian32 (a ∷ []) = refl
    header_size-read_big_endian32 (a ∷ b ∷ []) = refl
    header_size-read_big_endian32 (a ∷ b ∷ c ∷ []) = refl
    header_size-read_big_endian32 (a ∷ b ∷ c ∷ d ∷ rest) = refl

    end_body-Agrees :
        (size : ℕ) (r : Protocol.Filled × State)
        → Frames.end_body sock qt (as_filled r.0, r.1)
          ≡ as_read (Protocol.end_body as_socket size r)
    unfolding Frames.end_body Protocol.end_body
    end_body-Agrees size (Protocol.full body, s) = refl
    end_body-Agrees size (Protocol.ended body, s) = refl
    end_body-Agrees size (Protocol.stuck, s) = refl

    read_body-Agrees :
        (r : Protocol.Filled × State)
        → Frames.read_body sock qt (as_filled r.0, r.1)
          ≡ as_read (Protocol.receive_body as_socket max_frame_size r)
    unfolding Frames.read_body Protocol.receive_body
    read_body-Agrees (Protocol.full header, s) =
        rw (header_size-read_big_endian32 header)
          (elim (Bool-cases (ltb max_frame_size (read_big_endian32 header))) [
            | inl large ↦ rw large refl
            | inr fits ↦ rw fits (
                let size = read_big_endian32 header in
                rw (fill-Agrees size s size [])
                  (end_body-Agrees size (Protocol.fill as_socket size s size [])))
          ])
    read_body-Agrees (Protocol.ended got, s) = elim (Bool-cases (length got == 0)) [
      | inl e ↦ rw e refl
      | inr e ↦ rw e refl
    ]
    read_body-Agrees (Protocol.stuck, s) = refl

    -- On every socket as documented, readFrame of the window returns a frame exactly where receiveFrame
    -- of Protocol, with its default limit, answers Ok, with the same payload, and leaves the same state.
    pub read_frame-Agrees :
        (s : State)
        → Frames.read_frame sock qt s ≡ as_read (Protocol.receive_frame as_socket s max_frame_size)
    unfolding Frames.read_frame Protocol.receive_frame
    read_frame-Agrees s =
        rw (fill-Agrees 4 s 4 []) (read_body-Agrees (Protocol.fill as_socket 4 s 4 []))

    -- What sendFrame writes is the frame of encodeFrame.
    pub send_frame-encode_frame :
        (s : State) (payload : QString)
        → length (qt.to_utf8 payload) ≤ max_frame_size
        → Frames.send_frame sock qt s payload
          ≡ sock.wait_for_bytes_written (sock.write s (encode_frame (qt.to_utf8 payload)))
    unfolding Frames.send_frame encode_frame write_big_endian32 frame_header
    send_frame-encode_frame s payload h =
        let fits : ltb max_frame_size (length (qt.to_utf8 payload)) ≡ false = ground arith in
        rw fits refl
