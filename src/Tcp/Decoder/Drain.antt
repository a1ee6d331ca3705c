-- ===== src/Tcp/Decoder/Drain.antt =====
-- Taking every complete frame that FrameDecoder has buffered, as its users do.
use messenger_cpp_r.Base.{
  ℕ, zero, suc, ◌+◌, ◌≤◌, ◌<◌, ◌≡◌, ◌≢◌, refl, sym, ap, ◌∙◌, ◌⊎◌, inl, inr, List, [], ◌∷◌, ◌++◌,
  arith, Bytes, length, length-append, length-drop, take, drop, take-append_le, drop-append_le, ltb,
  Bool-cases,
}
use messenger_cpp_r.Tcp.Frame.{frame_header_size, read_big_endian32, read_big_endian32-append}
use messenger_cpp_r.Tcp.Decoder.{
  FrameStatus, ready, need_more_data, too_large, invalid, FrameDecoder, append, next_frame,
}

-- Takes every frame that is complete.
then_more :
    FrameStatus × Bytes × FrameDecoder
    → (FrameDecoder → List Bytes × FrameDecoder)
    → List Bytes × FrameDecoder
then_more (ready, payload, d) rest = let (ps, e) = rest d in (payload ∷ ps, e)
then_more (need_more_data, payload, d) rest = ([], d)
then_more (too_large, payload, d) rest = ([], d)
then_more (invalid, payload, d) rest = ([], d)

drain : ℕ → FrameDecoder → List Bytes × FrameDecoder
drain zero d = ([], d)
drain (suc fuel) d = then_more (next_frame d) (drain fuel)

-- Each frame takes four bytes at least.
unfoldable pub drain_all : FrameDecoder → List Bytes × FrameDecoder
unfolding drain then_more
drain_all d = drain (length d.buffer) d

-- The first frame of the buffer and the decoder behind it, if the frame is complete.
abbrev pub front : FrameDecoder → Bytes
front d = take (read_big_endian32 d.buffer) (drop frame_header_size d.buffer)

abbrev pub behind : FrameDecoder → FrameDecoder
behind d = record d { buffer = drop (frame_header_size + read_big_endian32 d.buffer) d.buffer }

abbrev pub HasFrame : FrameDecoder → Type 0
HasFrame d =
    (frame_header_size + read_big_endian32 d.buffer ≤ length d.buffer)
    × (read_big_endian32 d.buffer ≤ d.max_frame_size)

abbrev pub IsStalled : FrameDecoder → Type 0
IsStalled d = (st : FrameStatus) × (st ≢ ready) × (next_frame d ≡ (st, [], d))

pub next_frame-HasFrame :
    (d : FrameDecoder) → HasFrame d → next_frame d ≡ (ready, front d, behind d)
unfolding next_frame
next_frame-HasFrame d h = ground arith

need≢ready : need_more_data ≢ ready
need≢ready h = cc

large≢ready : too_large ≢ ready
large≢ready h = cc

pub next_frame_cases : (d : FrameDecoder) → HasFrame d ⊎ IsStalled d
unfolding next_frame
next_frame_cases d = elim (Bool-cases (ltb (length d.buffer) frame_header_size)) [
  | inl short ↦ inr (need_more_data, need≢ready, rw short)
  | inr header ↦ elim (Bool-cases (ltb d.max_frame_size (read_big_endian32 d.buffer))) [
    | inl large ↦ inr (too_large, large≢ready, rw (header, large))
    | inr small ↦
        elim (Bool-cases (ltb (length d.buffer) (frame_header_size + read_big_endian32 d.buffer))) [
          | inl part ↦ inr (need_more_data, need≢ready, rw (header, small, part))
          | inr whole ↦ inl (ground arith, ground arith)
        ]
  ]
]

pub append-HasFrame :
    (d : FrameDecoder) (c : Bytes)
    → HasFrame d
    → next_frame (append d c) ≡ (ready, front d, append (behind d) c)
unfolding append
append-HasFrame d c h =
    let same : read_big_endian32 (d.buffer ++ c) ≡ read_big_endian32 d.buffer =
      read_big_endian32-append d.buffer c (omega arith) in
    next_frame-HasFrame (append d c)
      (rw same (omega (arith, length-append d.buffer c)), rw same h.1)
    ∙ rw (
      same,
      drop-append_le frame_header_size d.buffer c (omega arith),
      take-append_le (read_big_endian32 d.buffer) (drop frame_header_size d.buffer) c
          (omega (arith, length-drop frame_header_size d.buffer)),
      drop-append_le (frame_header_size + read_big_endian32 d.buffer) d.buffer c h.0,
    )

drain-stalled : (fuel : ℕ) (d : FrameDecoder) → IsStalled d → drain fuel d ≡ ([], d)
unfolding drain then_more
drain-stalled zero d h = refl
drain-stalled (suc fuel) d (need_more_data, ne, e) = rw e
drain-stalled (suc fuel) d (too_large, ne, e) = rw e
drain-stalled (suc fuel) d (invalid, ne, e) = rw e
drain-stalled (suc fuel) d (ready, ne, e) = absurd (ne refl)

abbrev pub cons_result : Bytes → List Bytes × FrameDecoder → List Bytes × FrameDecoder
cons_result p r = (p ∷ r.0, r.1)

drain-HasFrame :
    (fuel : ℕ) (d : FrameDecoder)
    → HasFrame d
    → drain (suc fuel) d ≡ cons_result (front d) (drain fuel (behind d))
unfolding drain then_more
drain-HasFrame fuel d h = rw (next_frame-HasFrame d h)

pub length-behind : (d : FrameDecoder) → HasFrame d → length (behind d).buffer + 4 ≤ length d.buffer
length-behind d h =
    omega (arith, length-drop (frame_header_size + read_big_endian32 d.buffer) d.buffer)

-- More fuel than bytes changes nothing.
drain-fuel :
    (f g : ℕ) (d : FrameDecoder) → length d.buffer ≤ f → length d.buffer ≤ g → drain f d ≡ drain g d
drain-fuel zero g d hf hg = elim (next_frame_cases d) [
  | inr s ↦ drain-stalled zero d s ∙ sym (drain-stalled g d s)
  | inl h ↦ absurd (omega (arith, length-behind d h))
]
drain-fuel (suc f) zero d hf hg = elim (next_frame_cases d) [
  | inr s ↦ drain-stalled (suc f) d s ∙ sym (drain-stalled zero d s)
  | inl h ↦ absurd (omega (arith, length-behind d h))
]
drain-fuel (suc f) (suc g) d hf hg = elim (next_frame_cases d) [
  | inr s ↦ drain-stalled (suc f) d s ∙ sym (drain-stalled (suc g) d s)
  | inl h ↦
      drain-HasFrame f d h
      ∙ ap (cons_result (front d)) (
          drain-fuel f g (behind d) (omega (arith, length-behind d h))
            (omega (arith, length-behind d h)))
      ∙ sym (drain-HasFrame g d h)
]

pub drain_all-stalled : (d : FrameDecoder) → IsStalled d → drain_all d ≡ ([], d)
unfolding drain_all
drain_all-stalled d s = drain-stalled (length d.buffer) d s

-- One round of `drain_all`, however the first frame is known to be ready.
pub drain_all-ready :
    (d : FrameDecoder) (p : Bytes) (e : FrameDecoder)
    → next_frame d ≡ (ready, p, e)
    → length e.buffer < length d.buffer
    → drain_all d ≡ cons_result p (drain_all e)
unfolding drain_all
drain_all-ready d p e h lt =
    drain-fuel (length d.buffer) (suc (length d.buffer)) d (omega arith) (omega arith)
    ∙ rw (h, drain, then_more)
        (rw (drain-fuel (length d.buffer) (length e.buffer) e (omega arith) (omega arith)))
