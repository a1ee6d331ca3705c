-- ===== src/Tcp/Protocol/EndToEnd.antt =====
-- sendFrame on one end and receiveFrame on the other.
use messenger_cpp_r.Base.{
  ℕ, zero, suc, ◌≤◌, ◌<◌, ◌^◌, ◌≡◌, ◌≢◌, refl, sym, ap, ◌∙◌, inl, inr, Bool, true, false, Option,
  some, [], ◌∷◌, ◌++◌, arith, Bytes, length, append_cancel_left, append_assoc, drop, ltb, ◌==◌,
  Bool-cases, ==_iff,
}
use messenger_cpp_r.Tcp.Frame.{encode_frame}
use messenger_cpp_r.Tcp.Protocol.{ISocket, ok, send_loop, send_all, send_frame, receive_frame}
use messenger_cpp_r.Tcp.Protocol.Sending.{IsSink, shorter, send_frame_lem}
use messenger_cpp_r.Tcp.Protocol.Receiving.{IsSource, Receives, receive_frame-encode_frame}

-- The socket takes at least one byte of whatever it is offered.
abbrev pub Accepts : ISocket → Type 0
Accepts sock = (s : ISocket.State sock) (b : ℕ) (bs : Bytes) → (ISocket.send sock s (b ∷ bs)).0 ≢ 0

module _ (sock : ISocket) (accepts : Accepts sock) where
  send_loop-Accepts :
      (fuel : ℕ) (s : ISocket.State sock) (bs : Bytes)
      → length bs ≤ fuel
      → (send_loop sock fuel s bs).0 ≡ some true
  unfolding send_loop
  send_loop-Accepts fuel s [] h = refl
  send_loop-Accepts zero s (b ∷ bs) h = absurd (omega arith)
  send_loop-Accepts (suc fuel) s (b ∷ bs) h =
      elim (Bool-cases ((ISocket.send sock s (b ∷ bs)).0 == 0)) [
        | inl stop ↦ absurd (accepts s b bs ((==_iff (ISocket.send sock s (b ∷ bs)).0 0).0 stop))
        | inr more ↦ rw more (
            send_loop-Accepts fuel (ISocket.send sock s (b ∷ bs)).1
              (drop (ISocket.send sock s (b ∷ bs)).0 (b ∷ bs))
              (shorter fuel (ISocket.send sock s (b ∷ bs)).0 (b ∷ bs) more h (omega arith)))
      ]

  -- On a socket that always takes something, sendFrame answers true for every payload within the limit.
  pub send_frame-Accepts :
      (s : ISocket.State sock) (payload : Bytes) (limit : ℕ)
      → length payload ≤ limit
      → (send_frame sock s payload limit).0 ≡ some true
  unfolding send_frame send_all
  send_frame-Accepts s payload limit h =
      let open_gate : ltb limit (length payload) ≡ false = ground arith in
      rw open_gate
        (send_loop-Accepts (length (encode_frame payload)) s (encode_frame payload) (omega arith))

some_false : ◌≢◌ {A = Option Bool} (some false) (some true)
some_false e = cc

-- For a payload below 2^32 bytes: if sendFrame answers true on one end, and the other end is to receive what the first socket then
-- had sent behind its earlier bytes, receiveFrame returns that payload and leaves what follows it.
pub receive-send_frame :
    (out : ISocket) (sink : IsSink out) (inp : ISocket) (source : IsSource inp)
    → (s : ISocket.State out) (t : ISocket.State inp) (payload rest : Bytes) (limit : ℕ)
    → length payload < 2 ^ 32
    → (send_frame out s payload limit).0 ≡ some true
    → IsSink.sent sink s ++ IsSource.pending source t
      ≡ IsSink.sent sink (send_frame out s payload limit).1 ++ rest
    → Receives inp source (ok, payload, rest) (receive_frame inp t limit)
receive-send_frame out sink inp source s t payload rest limit small sent_ok wire =
    elim (send_frame_lem out sink s payload limit) [
      | inl (large, e) ↦
          absurd (some_false (sym (ap (λ (r : Option Bool × ISocket.State out). r.0) e) ∙ sent_ok))
      | inr (fits, inl (e, q)) ↦
          receive_frame-encode_frame inp source t payload rest limit fits small (
            append_cancel_left (IsSink.sent sink s) _ _ (
              wire
              ∙ ap (λ w. w ++ rest) q
              ∙ append_assoc (IsSink.sent sink s) (encode_frame payload) rest))
      | inr (fits, inr (k, lt, e, q)) ↦ absurd (some_false (sym e ∙ sent_ok))
    ]
