-- ===== src/Tcp/Decoder.antt =====
-- The class FrameDecoder of root/app/libs/tcp/src/Protocol.cpp. The proofs are in the children.
pub mod Drain
pub mod Streaming
use messenger_cpp_r.Base.{
  ℕ, ◌+◌, ◌≤◌, ◌<◌, ◌≡◌, refl, List, [], ◌∷◌, ◌++◌, arith, Bytes, length, take, drop, ltb,
  if◌then◌else◌,
}
use messenger_cpp_r.Tcp.Frame.{frame_header_size, read_big_endian32}

pub data FrameStatus : Type 0 where
  ready need_more_data too_large invalid : FrameStatus

pub record FrameDecoder : Type 0 where
  pub max_frame_size : ℕ
  pub buffer : Bytes

unfoldable pub new_decoder : ℕ → FrameDecoder
new_decoder max_size = record { max_frame_size = max_size; buffer = [] }

-- A null or empty chunk changes nothing; the empty list is that case.
unfoldable pub append : FrameDecoder → Bytes → FrameDecoder
append d chunk = record d { buffer = d.buffer ++ chunk }

unfoldable pub buffered_bytes : FrameDecoder → ℕ
buffered_bytes d = length d.buffer

unfoldable pub clear : FrameDecoder → FrameDecoder
clear d = record d { buffer = [] }

-- The status, the payload that is written out (empty unless ready), and the decoder afterwards.
unfoldable pub next_frame : FrameDecoder → FrameStatus × Bytes × FrameDecoder
next_frame d =
    if ltb (length d.buffer) frame_header_size
    then (need_more_data, [], d)
    else let payload_size = read_big_endian32 d.buffer in
      if ltb d.max_frame_size payload_size
      then (too_large, [], d)
      else let total_size = frame_header_size + payload_size in
        if ltb (length d.buffer) total_size then (need_more_data, [], d) else (
          ready,
          take payload_size (drop frame_header_size d.buffer),
          record d { buffer = drop total_size d.buffer },
        )
