-- ===== src/Gui/Commands/Responses.antt =====
-- What the window reads of the answers that the server's handlers send.
use messenger_cpp_r.Base.{
  ℕ, zero, suc, ◌≤◌, ◌<◌, ◌≡◌, refl, ◌∙◌, true, false, Option, some, List, [], ◌∷◌, ◌++◌, map,
  append_assoc, arith, Bytes, length, All,
}
use messenger_cpp_r.Tcp.Frame.{encode_frame}
use messenger_cpp_r.Tcp.Protocol
use messenger_cpp_r.Tcp.Protocol.Receiving.{IsSource, receive_frame-encode_frame}
use messenger_cpp_r.Gui.Text.{QString, Qt}
use messenger_cpp_r.Gui.Frames.{QTcpSocket, frame, max_frame_size, read_frame}
use messenger_cpp_r.Gui.Frames.Agreement.{as_socket, as_read, read_frame-Agrees}
use messenger_cpp_r.Gui.Commands.{command_finished, read_response}

-- The bytes of several frames.
abbrev pub wire : List Bytes → Bytes
wire [] = []
wire (p ∷ ps) = encode_frame p ++ wire ps

module _ (qt : Qt) (sock : QTcpSocket) (source : IsSource (as_socket sock)) where
  open sock use {State}
  open source use {pending}

  as_read-ok :
      (r : Option Protocol.ReceiveFrameStatus × Bytes × State) (payload : Bytes)
      → r.0 ≡ some Protocol.ok
      → r.1 ≡ payload
      → as_read sock qt r ≡ (frame (qt.from_utf8 payload), r.2)
  as_read-ok r payload e f = rw (e, f) refl

  read_frame-encode_frame :
      (s : State) (payload rest : Bytes)
      → length payload ≤ max_frame_size
      → pending s ≡ encode_frame payload ++ rest
      → ((read_frame sock qt s).0 ≡ frame (qt.from_utf8 payload))
        × (pending (read_frame sock qt s).1 ≡ rest)
  read_frame-encode_frame s payload rest fits e =
      let (ok, got, left) =
        receive_frame-encode_frame (as_socket sock) source s payload rest max_frame_size fits
          (omega arith) e in
      rw
        (
          read_frame-Agrees sock qt s,
          as_read-ok (Protocol.receive_frame (as_socket sock) s max_frame_size) payload ok got,
        )
        (refl, left)

  -- Lines that do not finish the command are read through to the one that does.
  pub read_response-wire :
      (cmd : QString) (lines : List Bytes) (last rest : Bytes) (fuel : ℕ) (s : State)
      → All (λ p. length p ≤ max_frame_size) lines
      → length last ≤ max_frame_size
      → All (λ p. command_finished qt cmd (qt.from_utf8 p) ≡ false) lines
      → command_finished qt cmd (qt.from_utf8 last) ≡ true
      → length lines < fuel
      → pending s ≡ wire lines ++ (encode_frame last ++ rest)
      → ((read_response qt sock fuel cmd s).0 ≡ some (map qt.from_utf8 (lines ++ last ∷ [])))
        × (pending (read_response qt sock fuel cmd s).1 ≡ rest)
  unfolding read_response
  read_response-wire cmd lines last rest zero s small short open_lines done enough e =
      absurd (omega arith)
  read_response-wire cmd [] last rest (suc fuel) s small short open_lines done enough e =
      let (got, left) = read_frame-encode_frame s last rest short e in
      rw (got, read_response) (rw done (refl, left))
  read_response-wire cmd (p ∷ ps) last rest (suc fuel) s (sp, sps) short (op, ops) done enough e =
      let (got, left) =
        read_frame-encode_frame s p (wire ps ++ (encode_frame last ++ rest)) sp
          (e ∙ append_assoc (encode_frame p) (wire ps) (encode_frame last ++ rest)) in
      let (lines_read, left') =
        read_response-wire cmd ps last rest fuel (read_frame sock qt s).1 sps short ops done
          (omega arith) left in
      rw (got, read_response) (rw op (rw lines_read refl, left'))
