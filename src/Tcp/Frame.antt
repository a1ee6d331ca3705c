-- ===== src/Tcp/Frame.antt =====
-- The wire format of root/app/libs/tcp/src/Protocol.cpp: a 32-bit big-endian length and the payload.
-- A byte is a number, and `static_cast<unsigned char>` is `% 256`; shifted bytes do not overlap, so
-- `|` of them is a sum.
use messenger_cpp_r.Base.{
  ℕ, ◌+◌, ◌*◌, ◌/◌, ◌%◌, ◌^◌, ◌≤◌, ◌<◌, ◌≡◌, refl, [], ◌∷◌, ◌++◌, arith, Bytes, length,
  length-append, All, ◌∙◌, append_assoc, drop,
}

abbrev pub frame_header_size : ℕ
frame_header_size = 4

abbrev pub default_max_frame_size : ℕ
default_max_frame_size = 64 * 1024

abbrev pub IsByte : ℕ → Type 0
IsByte b = b < 256

-- Reads the first four bytes; the source never calls it on fewer.
unfoldable pub read_big_endian32 : Bytes → ℕ
read_big_endian32 (b0 ∷ b1 ∷ b2 ∷ b3 ∷ rest) =
    b0 % 256 * 2 ^ 24 + b1 % 256 * 2 ^ 16 + b2 % 256 * 2 ^ 8 + b3 % 256
read_big_endian32 _ = 0

unfoldable pub write_big_endian32 : ℕ → Bytes
write_big_endian32 value =
    (value / 2 ^ 24 % 256) ∷ (value / 2 ^ 16 % 256) ∷ (value / 2 ^ 8 % 256) ∷ (value % 256) ∷ []

-- The length is cast to uint32_t.
unfoldable pub encode_frame : Bytes → Bytes
encode_frame payload = write_big_endian32 (length payload % 2 ^ 32) ++ payload

-- What is written is read back, whatever follows it.
pub read-write_big_endian32 :
    (value : ℕ) (rest : Bytes)
    → value < 2 ^ 32
    → read_big_endian32 (write_big_endian32 value ++ rest) ≡ value
unfolding read_big_endian32 write_big_endian32
read-write_big_endian32 value rest h = omega arith

pub write_big_endian32-IsByte : (value : ℕ) → All IsByte (write_big_endian32 value)
unfolding write_big_endian32
write_big_endian32-IsByte value = omega arith

-- A header is a number of 32 bits.
pub read_big_endian32-lt : (bs : Bytes) → read_big_endian32 bs < 2 ^ 32
unfolding read_big_endian32
read_big_endian32-lt [] = omega arith
read_big_endian32-lt (a ∷ []) = omega arith
read_big_endian32-lt (a ∷ b ∷ []) = omega arith
read_big_endian32-lt (a ∷ b ∷ c ∷ []) = omega arith
read_big_endian32-lt (a ∷ b ∷ c ∷ d ∷ rest) = omega arith

pub length-write_big_endian32 : (value : ℕ) → length (write_big_endian32 value) ≡ 4
unfolding write_big_endian32
length-write_big_endian32 value = omega arith

pub length-encode_frame : (payload : Bytes) → length (encode_frame payload) ≡ 4 + length payload
unfolding encode_frame
length-encode_frame payload = omega (
  arith,
  length-append (write_big_endian32 (length payload % 2 ^ 32)) payload,
  length-write_big_endian32 (length payload % 2 ^ 32),
)

-- Only the first four bytes are read.
pub read_big_endian32-append :
    (bs more : Bytes) → 4 ≤ length bs → read_big_endian32 (bs ++ more) ≡ read_big_endian32 bs
unfolding read_big_endian32
read_big_endian32-append [] more h = absurd (omega arith)
read_big_endian32-append (a ∷ []) more h = absurd (omega arith)
read_big_endian32-append (a ∷ b ∷ []) more h = absurd (omega arith)
read_big_endian32-append (a ∷ b ∷ c ∷ []) more h = absurd (omega arith)
read_big_endian32-append (a ∷ b ∷ c ∷ d ∷ rest) more h = refl

pub read-encode_frame :
    (payload rest : Bytes)
    → length payload < 2 ^ 32
    → read_big_endian32 (encode_frame payload ++ rest) ≡ length payload
unfolding encode_frame
read-encode_frame payload rest h =
    rw (append_assoc (write_big_endian32 (length payload % 2 ^ 32)) payload rest) (
      read-write_big_endian32 (length payload % 2 ^ 32) (payload ++ rest) (omega arith)
      ∙ omega arith)

pub drop-encode_frame :
    (payload rest : Bytes) → drop 4 (encode_frame payload ++ rest) ≡ payload ++ rest
unfolding encode_frame write_big_endian32
drop-encode_frame payload rest = refl

encode_frame_hello :
    encode_frame (104 ∷ 101 ∷ 108 ∷ 108 ∷ 111 ∷ [])
    ≡ 0 ∷ 0 ∷ 0 ∷ 5 ∷ 104 ∷ 101 ∷ 108 ∷ 108 ∷ 111 ∷ []
unfolding encode_frame write_big_endian32
encode_frame_hello = refl
