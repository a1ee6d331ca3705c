-- ===== src/Tcp/Protocol/Receiving.antt =====
-- receiveFrame against a specification on the bytes that the peer sends.
use messenger_cpp_r.Base.{
  ℕ, zero, suc, ◌-◌, ◌≤◌, ◌<◌, ◌^◌, ◌≡◌, refl, sym, ap, ◌∙◌, inl, inr, Bool, true, false, Option,
  some, [], ◌∷◌, ◌++◌, append-nil, append_assoc, arith, Bytes, is_empty, length, length-append,
  length-take, take, drop, take-append_ge, drop-append_ge, drop_all, take-append, drop-append,
  subst, replicate, take-append-drop, ltb, ◌==◌, Bool-cases, if◌then◌else◌,
}
use messenger_cpp_r.Tcp.Frame.{
  read_big_endian32, encode_frame, read_big_endian32-append, read-encode_frame, drop-encode_frame,
  length-encode_frame,
}
use messenger_cpp_r.Tcp.Protocol.{
  ISocket, ReceiveFrameStatus, ok, closed, error, too_large, Filled, full, ended, stuck, fill,
  end_body, receive_body, receive_frame,
}

-- `pending s` is what the peer has sent or will send and the socket has not handed over; `receive`
-- hands over some of it, and nothing only at its end.
pub record IsSource (sock : ISocket) : Type 1 where
  pub pending : ISocket.State sock → Bytes
  pub receive_takes :
      (s : ISocket.State sock) (n : ℕ)
      → pending s ≡ (ISocket.receive sock s n).0 ++ pending (ISocket.receive sock s n).1
  pub receive_progress :
      (s : ISocket.State sock) (n : ℕ) → (ISocket.receive sock s (suc n)).0 ≡ [] → pending s ≡ []

-- What `fill` of `want` bytes makes of the bytes `bs` behind `got`.
abbrev fill_spec : ℕ → Bytes → Bytes → Filled
fill_spec want bs got =
    if ltb (length bs) want then ended (got ++ bs) else full (got ++ take want bs)

-- A body of `size` bytes at the head of the stream.
abbrev pub body_of : ℕ → Bytes → ReceiveFrameStatus × Bytes × Bytes
body_of size body =
    if ltb (length body) size
    then (error, body ++ replicate (size - length body) 0, [])
    else (ok, take size body, drop size body)

-- The specification of receiveFrame on the bytes of the stream: the status, the payload, and the
-- bytes that stay in the stream.
abbrev pub frame_of : ℕ → Bytes → ReceiveFrameStatus × Bytes × Bytes
frame_of limit bs =
    let size = read_big_endian32 bs in
    let body = drop 4 bs in
    if length bs == 0
    then (closed, [], [])
    else if ltb (length bs) 4
    then (error, [], [])
    else if ltb limit size
    then (too_large, [], body)
    else body_of size body

is_empty→eq : (bs : Bytes) → is_empty bs ≡ true → bs ≡ []
is_empty→eq [] h = refl
is_empty→eq (b ∷ bs) h = cc

is_empty-pos : (bs : Bytes) → is_empty bs ≡ false → 0 < length bs
is_empty-pos [] h = cc
is_empty-pos (b ∷ bs) h = omega arith

fill_spec-append :
    (want : ℕ) (chunk bs got : Bytes)
    → length chunk ≤ want
    → fill_spec (want - length chunk) bs (got ++ chunk) ≡ fill_spec want (chunk ++ bs) got
fill_spec-append want chunk bs got h = rw (take-append_ge want chunk bs h) (
    ground (
      arith,
      length-append chunk bs,
      append_assoc got chunk bs,
      append_assoc got chunk (take (want - length chunk) bs),
    ))

fill_spec-zero : (bs got : Bytes) → fill_spec 0 bs got ≡ full got
fill_spec-zero bs got = ground (arith, append-nil got)

full_header :
    (header bs : Bytes) → full header ≡ fill_spec 4 bs [] → (4 ≤ length bs) × (header ≡ take 4 bs)
full_header header bs e = ground arith

ended_header : (got bs : Bytes) → ended got ≡ fill_spec 4 bs [] → (length bs < 4) × (got ≡ bs)
ended_header got bs e = ground arith

read-take : (bs : Bytes) → 4 ≤ length bs → read_big_endian32 (take 4 bs) ≡ read_big_endian32 bs
read-take bs h =
    sym (read_big_endian32-append (take 4 bs) (drop 4 bs) (omega (arith, length-take 4 bs)))
    ∙ ap read_big_endian32 (take-append-drop 4 bs)

frame_of-header :
    (limit : ℕ) (bs : Bytes)
    → 4 ≤ length bs
    → frame_of limit bs ≡ (
        if ltb limit (read_big_endian32 bs)
        then (too_large, [], drop 4 bs)
        else body_of (read_big_endian32 bs) (drop 4 bs))
frame_of-header limit bs h = ground arith

frame_of-encode_frame :
    (limit : ℕ) (payload rest : Bytes)
    → length payload ≤ limit
    → length payload < 2 ^ 32
    → frame_of limit (encode_frame payload ++ rest) ≡ (ok, payload, rest)
frame_of-encode_frame limit payload rest fits small =
    frame_of-header limit (encode_frame payload ++ rest)
      (omega (arith, length-append (encode_frame payload) rest, length-encode_frame payload))
    ∙ rw
        (
          read-encode_frame payload rest small,
          drop-encode_frame payload rest,
          take-append (length payload) payload rest refl,
          drop-append (length payload) payload rest refl,
        )
        (ground (arith, length-append payload rest))

fill_spec_end : (want : ℕ) (got : Bytes) → fill_spec (suc want) [] got ≡ ended got
fill_spec_end want got = ground (arith, append-nil got)

module _ (sock : ISocket) (source : IsSource sock) where
  open sock use {State, receive, receive_fits}
  open source use {pending, receive_takes, receive_progress}

  fill_lem :
      (fuel : ℕ) (s : State) (want : ℕ) (got : Bytes)
      → want ≤ fuel
      → ((fill sock fuel s want got).0 ≡ fill_spec want (pending s) got)
        × (pending (fill sock fuel s want got).1 ≡ drop want (pending s))
  unfolding fill
  fill_lem fuel s zero got h = (sym (fill_spec-zero (pending s) got), refl)
  fill_lem zero s (suc want) got h = absurd (omega arith)
  fill_lem (suc fuel) s (suc want) got h = elim (Bool-cases (is_empty (receive s (suc want)).0)) [
    | inl stop ↦
        let none_left : pending s ≡ [] = receive_progress s want (is_empty→eq _ stop) in
        let none_after : pending (receive s (suc want)).1 ≡ [] =
          sym (rw (is_empty→eq _ stop) at (receive_takes s (suc want))) ∙ none_left in
        rw stop (rw none_left (sym (fill_spec_end want got)), none_after ∙ rw none_left)
    | inr more ↦
        let (status, left) =
          fill_lem fuel (receive s (suc want)).1 (suc want - length (receive s (suc want)).0)
            (got ++ (receive s (suc want)).0) (omega (arith, is_empty-pos _ more)) in
        rw more (
          status
              ∙ fill_spec-append (suc want) (receive s (suc want)).0 _ got
                  (receive_fits s (suc want))
              ∙ ap (λ bs. fill_spec (suc want) bs got) (sym (receive_takes s (suc want))),
          left
              ∙ sym
                  (drop-append_ge (suc want) (receive s (suc want)).0 _ (receive_fits s (suc want)))
              ∙ ap (drop (suc want)) (sym (receive_takes s (suc want))),
        )
  ]

  -- What a call of receiveFrame answers, with the pending bytes in place of the state.
  abbrev pub Receives :
      ReceiveFrameStatus × Bytes × Bytes → Option ReceiveFrameStatus × Bytes × State → Type 0
  Receives (status, payload, left) (r, p, s') =
      (r ≡ some status) × (p ≡ payload) × (pending s' ≡ left)

  end_body_lem :
      (size : ℕ) (bs : Bytes) (r : Filled × State)
      → r.0 ≡ fill_spec size bs []
      → pending r.1 ≡ drop size bs
      → Receives (body_of size bs) (end_body sock size r)
  unfolding end_body
  end_body_lem size bs (full b, s) e q = ground (arith, drop_all size bs)
  end_body_lem size bs (ended b, s) e q = ground (arith, drop_all size bs)
  end_body_lem size bs (stuck, s) e q = ground arith

  receive_header :
      (limit : ℕ) (bs : Bytes) (s : State)
      → pending s ≡ drop 4 bs
      → 4 ≤ length bs
      → (b : Bool) → ltb limit (read_big_endian32 bs) ≡ b
      → Receives
          (if b then (too_large, [], drop 4 bs) else body_of (read_big_endian32 bs) (drop 4 bs))
          (receive_body sock limit (full (take 4 bs), s))
  unfolding receive_body
  receive_header limit bs s q four true e = rw (read-take bs four, e) (refl, refl, q)
  receive_header limit bs s q four false e =
      rw (read-take bs four, e)
        (end_body_lem (read_big_endian32 bs) (drop 4 bs) _
          ((fill_lem (read_big_endian32 bs) s (read_big_endian32 bs) [] (omega arith)).0 ∙ rw q)
          ((fill_lem (read_big_endian32 bs) s (read_big_endian32 bs) [] (omega arith)).1 ∙ rw q))

  receive_body_lem :
      (limit : ℕ) (bs : Bytes) (r : Filled × State)
      → r.0 ≡ fill_spec 4 bs []
      → pending r.1 ≡ drop 4 bs
      → Receives (frame_of limit bs) (receive_body sock limit r)
  receive_body_lem limit bs (full header, s) e q =
      let (four, head) = full_header header bs e in
      rw (head, frame_of-header limit bs four) (receive_header limit bs s q four _ refl)
  receive_body_lem limit bs (ended got, s) e q =
      unfold receive_body in ground (arith, ended_header got bs e, drop_all 4 bs)
  receive_body_lem limit bs (stuck, s) e q = ground arith

  -- receiveFrame answers on every stream and with every limit: the status, the payload and the bytes
  -- left in the stream are those of `frame_of`, however the socket cuts the stream into chunks.
  pub receive_frame_lem :
      (s : State) (limit : ℕ) → Receives (frame_of limit (pending s)) (receive_frame sock s limit)
  unfolding receive_frame
  receive_frame_lem s limit =
      let (e, q) = fill_lem 4 s 4 [] (omega arith) in receive_body_lem limit (pending s) _ e q

  -- If an encoded payload within the limit and below 2^32 bytes stands at the head of the stream,
  -- receiveFrame returns it whole, and the stream goes on behind it.
  pub receive_frame-encode_frame :
      (s : State) (payload rest : Bytes) (limit : ℕ)
      → length payload ≤ limit
      → length payload < 2 ^ 32
      → pending s ≡ encode_frame payload ++ rest
      → Receives (ok, payload, rest) (receive_frame sock s limit)
  receive_frame-encode_frame s payload rest limit fits small e =
      subst (λ r. Receives r (receive_frame sock s limit))
        (ap (frame_of limit) e ∙ frame_of-encode_frame limit payload rest fits small)
        (receive_frame_lem s limit)
