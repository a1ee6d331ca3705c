-- ===== src/Tcp/Decoder/Streaming.antt =====
-- FrameDecoder against a stream of bytes that comes in chunks.
use messenger_cpp_r.Base.{
  ℕ, zero, suc, ◌+◌, ◌≤◌, ◌<◌, ◌^◌, ◌≡◌, ◌≢◌, refl, sym, ap, ◌∙◌, inl, inr, List, [], ◌∷◌, ◌++◌,
  append-nil, append_assoc, arith, Bytes, length, length-append, take-append, drop-append, All,
}
use messenger_cpp_r.Tcp.Frame.{
  read_big_endian32, encode_frame, read_big_endian32-append, read-encode_frame, drop-encode_frame,
  length-encode_frame,
}
use messenger_cpp_r.Tcp.Decoder.{
  FrameStatus, ready, need_more_data, too_large, FrameDecoder, new_decoder, append, next_frame,
}
use messenger_cpp_r.Tcp.Decoder.Drain.{
  drain_all, cons_result, front, behind, HasFrame, IsStalled, next_frame-HasFrame, next_frame_cases,
  append-HasFrame, length-behind, drain_all-stalled, drain_all-ready,
}

-- Chunks as they arrive: each is appended, and the complete frames are taken.
unfoldable pub feed : FrameDecoder → List Bytes → List Bytes × FrameDecoder
feed d [] = ([], d)
feed d (chunk ∷ chunks) =
    let (ps, d1) = drain_all (append d chunk) in let (qs, d2) = feed d1 chunks in (ps ++ qs, d2)

abbrev pub concat : List Bytes → Bytes
concat [] = []
concat (b ∷ bs) = b ++ concat bs

abbrev pub encode_all : List Bytes → Bytes
encode_all [] = []
encode_all (p ∷ ps) = encode_frame p ++ encode_all ps

abbrev pub prepend : List Bytes → List Bytes × FrameDecoder → List Bytes × FrameDecoder
prepend ps r = (ps ++ r.0, r.1)

drain_all-append_ready :
    (d : FrameDecoder) (c : Bytes)
    → HasFrame d
    → drain_all (append d c) ≡ cons_result (front d) (drain_all (append (behind d) c))
drain_all-append_ready d c h =
    drain_all-ready (append d c) (front d) (append (behind d) c) (append-HasFrame d c h) (
      unfold append in
      omega (arith, length-behind d h, length-append d.buffer c, length-append (behind d).buffer c))

drain_all-behind :
    (d : FrameDecoder) → HasFrame d → drain_all d ≡ cons_result (front d) (drain_all (behind d))
drain_all-behind d h =
    drain_all-ready d (front d) (behind d) (next_frame-HasFrame d h)
      (omega (arith, length-behind d h))

drain_all-append_fuel :
    (n : ℕ) (d : FrameDecoder) (c : Bytes)
    → length d.buffer ≤ n
    → drain_all (append d c) ≡ prepend (drain_all d).0 (drain_all (append (drain_all d).1 c))
drain_all-append_fuel zero d c hn = elim (next_frame_cases d) [
  | inr s ↦ rw (drain_all-stalled d s)
  | inl h ↦ absurd (omega (arith, length-behind d h))
]
drain_all-append_fuel (suc n) d c hn = elim (next_frame_cases d) [
  | inr s ↦ rw (drain_all-stalled d s)
  | inl h ↦
      rw (drain_all-append_ready d c h, drain_all-behind d h)
        (ap (cons_result (front d))
          (drain_all-append_fuel n (behind d) c (omega (arith, length-behind d h))))
]

-- Bytes that arrive after a drain are decoded as if they had been there before.
pub drain_all-append :
    (d : FrameDecoder) (c : Bytes)
    → drain_all (append d c) ≡ prepend (drain_all d).0 (drain_all (append (drain_all d).1 c))
drain_all-append d c = drain_all-append_fuel (length d.buffer) d c (omega arith)

drained-IsStalled_fuel :
    (n : ℕ) (d : FrameDecoder) → length d.buffer ≤ n → IsStalled (drain_all d).1
drained-IsStalled_fuel zero d hn = elim (next_frame_cases d) [
  | inr s ↦ rw (drain_all-stalled d s) s
  | inl h ↦ absurd (omega (arith, length-behind d h))
]
drained-IsStalled_fuel (suc n) d hn = elim (next_frame_cases d) [
  | inr s ↦ rw (drain_all-stalled d s) s
  | inl h ↦
      rw (drain_all-behind d h)
        (drained-IsStalled_fuel n (behind d) (omega (arith, length-behind d h)))
]

pub drained-IsStalled : (d : FrameDecoder) → IsStalled (drain_all d).1
drained-IsStalled d = drained-IsStalled_fuel (length d.buffer) d (omega arith)

append-append : (d : FrameDecoder) (a b : Bytes) → append (append d a) b ≡ append d (a ++ b)
unfolding append
append-append d a b = rw append_assoc

append-nil_bytes : (d : FrameDecoder) → append d [] ≡ d
unfolding append
append-nil_bytes d = rw append-nil

pub feed-concat :
    (d : FrameDecoder) (chunks : List Bytes)
    → IsStalled d
    → feed d chunks ≡ drain_all (append d (concat chunks))
unfolding feed
feed-concat d [] s = rw (append-nil_bytes d) (sym (drain_all-stalled d s))
feed-concat d (c ∷ cs) s =
    rw (feed-concat (drain_all (append d c)).1 cs (drained-IsStalled (append d c)))
      (sym (rw (← append-append d c (concat cs)) (drain_all-append (append d c) (concat cs))))

-- The payloads that the peer can send and this decoder takes.
abbrev pub Fits : ℕ → Bytes → Type 0
Fits max_size p = (length p ≤ max_size) × (length p < 2 ^ 32)

-- A buffer that starts with an encoded payload, if the payload is within the decoder's limit and below
-- 2^32 bytes, gives that payload, and the decoder keeps what follows the frame.
pub next_frame-encode_frame :
    (max_size : ℕ) (p rest : Bytes)
    → Fits max_size p
    → next_frame (record { max_frame_size = max_size; buffer = encode_frame p ++ rest })
      ≡ (ready, p, record { max_frame_size = max_size; buffer = rest })
next_frame-encode_frame max_size p rest h =
    let size : read_big_endian32 (encode_frame p ++ rest) ≡ length p =
      read-encode_frame p rest h.1 in
    next_frame-HasFrame (record { max_frame_size = max_size; buffer = encode_frame p ++ rest })
      (
        rw size (omega (arith, length-append (encode_frame p) rest, length-encode_frame p)),
        rw size h.0,
      )
    ∙ rw (
      size,
      drop-encode_frame p rest,
      take-append (length p) p rest refl,
      drop-append (4 + length p) (encode_frame p) rest (length-encode_frame p),
    )

drain_all-encode_all :
    (max_size : ℕ) (ps : List Bytes)
    → All (Fits max_size) ps
    → drain_all (record { max_frame_size = max_size; buffer = encode_all ps })
      ≡ (ps, record { max_frame_size = max_size; buffer = [] })
drain_all-encode_all max_size [] h = unfold drain_all in refl
drain_all-encode_all max_size (p ∷ ps) (hp, hps) =
    drain_all-ready (record { max_frame_size = max_size; buffer = encode_all (p ∷ ps) }) p _
      (next_frame-encode_frame max_size p (encode_all ps) hp)
      (omega (arith, length-append (encode_frame p) (encode_all ps), length-encode_frame p))
    ∙ ap (cons_result p) (drain_all-encode_all max_size ps hps)

-- However the bytes of the encoded payloads are cut into chunks, a fresh decoder that is fed the
-- chunks one by one takes out exactly those payloads, in order, and keeps no byte, if each payload
-- is within the decoder's limit and below 2^32 bytes.
pub feed-encode_all :
    (max_size : ℕ) (ps chunks : List Bytes)
    → All (Fits max_size) ps
    → concat chunks ≡ encode_all ps
    → feed (new_decoder max_size) chunks ≡ (ps, new_decoder max_size)
unfolding new_decoder
feed-encode_all max_size ps chunks h e =
    feed-concat (new_decoder max_size) chunks (need_more_data, (λ e. cc), unfold next_frame in refl)
    ∙ (unfold append in rw e (drain_all-encode_all max_size ps h))

IsStalled-of_ne : (d : FrameDecoder) → (next_frame d).0 ≢ ready → IsStalled d
IsStalled-of_ne d h = elim (next_frame_cases d) [
  | inl f ↦
      absurd (h (ap (λ (r : FrameStatus × Bytes × FrameDecoder). r.0) (next_frame-HasFrame d f)))
  | inr s ↦ s
]

-- From any decoder that has no complete frame to give, any bytes, well formed or not, give the same
-- payloads and leave the same decoder whether they come in chunks or at once.
pub feed_chunking :
    (d : FrameDecoder) (chunks : List Bytes)
    → (next_frame d).0 ≢ ready
    → feed d chunks ≡ feed d (concat chunks ∷ [])
feed_chunking d chunks h =
    feed-concat d chunks (IsStalled-of_ne d h)
    ∙ sym (feed-concat d (concat chunks ∷ []) (IsStalled-of_ne d h) ∙ rw append-nil)

abbrev Oversized : FrameDecoder → Type 0
Oversized d = (4 ≤ length d.buffer) × (d.max_frame_size < read_big_endian32 d.buffer)

too_large_means : (d : FrameDecoder) → (next_frame d).0 ≡ too_large → Oversized d
unfolding next_frame
too_large_means d h = ground arith

too_large-append :
    (d : FrameDecoder) (c : Bytes)
    → Oversized d
    → next_frame (append d c) ≡ (too_large, [], append d c)
unfolding next_frame append
too_large-append d c h =
    ground (arith, length-append d.buffer c, read_big_endian32-append d.buffer c (omega arith))

-- A frame that announces more than the limit blocks the decoder: whatever arrives later, no
-- payload comes out and every byte stays in the buffer.
pub too_large_blocks :
    (d : FrameDecoder) (chunks : List Bytes)
    → (next_frame d).0 ≡ too_large
    → feed d chunks ≡ ([], append d (concat chunks))
too_large_blocks d chunks h =
    let s : IsStalled (append d (concat chunks)) =
      (too_large, (λ e. cc), too_large-append d (concat chunks) (too_large_means d h)) in
    feed-concat d chunks (IsStalled-of_ne d (λ e. cc (h, e)))
    ∙ drain_all-stalled (append d (concat chunks)) s
