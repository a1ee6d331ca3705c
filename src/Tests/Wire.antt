-- ===== src/Tests/Wire.antt =====
-- Frames, decoders and sockets at concrete inputs.
use messenger_cpp_r.Base.{
  ℕ, ◌≤◌, ◌<◌, ◌≡◌, refl, ◌⊎◌, true, false, some, List, [], ◌∷◌, ◌++◌, arith, Bytes, lit, length,
  take, drop, length-take, min, ℤ, pos, max_zero,
}
use messenger_cpp_r.Tcp.Frame.{encode_frame, write_big_endian32, read_big_endian32}
use messenger_cpp_r.Tcp.Decoder.{FrameDecoder, ready, new_decoder, append, next_frame}
use messenger_cpp_r.Tcp.Decoder.Streaming.{
  concat, feed, next_frame-encode_frame, feed-encode_all, feed_chunking, too_large_blocks,
}
use messenger_cpp_r.Tcp.Protocol.{
  ISocket, send_all, send_frame, receive_frame, fill, send_loop, receive_body, end_body,
}
use messenger_cpp_r.Tcp.Protocol
use messenger_cpp_r.Tcp.Protocol.Sending.{SendsFrom, send_all_lem, send_frame_lem}
use messenger_cpp_r.Tcp.Protocol.Receiving.{
  Receives, frame_of, receive_frame_lem, receive_frame-encode_frame,
}
use messenger_cpp_r.Tcp.Protocol.Memory.{
  MemorySocket, memory_send, memory_socket, memory_sink, memory_source, memory_accepts,
}
use messenger_cpp_r.Tcp.Protocol.EndToEnd.{send_frame-Accepts, receive-send_frame}
use messenger_cpp_r.Tcp.SocketOps.{Os, Recv, got}
use messenger_cpp_r.Tcp.SocketOps
use messenger_cpp_r.Tcp.TcpSocket.{linux_socket}
use messenger_cpp_r.Tcp.SocketOps.Agreement.{Agrees, frames_agree}

abbrev hello : Bytes
hello = lit "hello"

-- "hello" and "" on the wire, cut in the middle of the first header and of its payload.
abbrev chunks : List Bytes
chunks = (0 ∷ 0 ∷ []) ∷ (0 ∷ 5 ∷ 104 ∷ 101 ∷ []) ∷ [] ∷ (108 ∷ 108 ∷ 111 ∷ 0 ∷ 0 ∷ 0 ∷ 0 ∷ []) ∷ []

feed-encode_all_example : feed (new_decoder 16) chunks ≡ (hello ∷ [] ∷ [], new_decoder 16)
unfolding encode_frame write_big_endian32
feed-encode_all_example =
    feed-encode_all 16 (hello ∷ [] ∷ []) chunks
      ((omega arith, omega arith), ((omega arith, omega arith), tt)) refl

next_frame-encode_frame_example :
    next_frame (record { max_frame_size = 16; buffer = encode_frame hello ++ 7 ∷ [] })
    ≡ (ready, hello, record { max_frame_size = 16; buffer = 7 ∷ [] })
next_frame-encode_frame_example =
    next_frame-encode_frame 16 hello (7 ∷ []) (omega arith, omega arith)

feed_chunking_example : feed (new_decoder 4) chunks ≡ feed (new_decoder 4) (concat chunks ∷ [])
unfolding next_frame new_decoder
feed_chunking_example = feed_chunking (new_decoder 4) chunks (λ e. cc)

abbrev overfull : FrameDecoder
overfull = record { max_frame_size = 4; buffer = 0 ∷ 0 ∷ 0 ∷ 5 ∷ [] }

too_large_blocks_example :
    feed overfull (hello ∷ hello ∷ []) ≡ ([], append overfull (concat (hello ∷ hello ∷ [])))
unfolding next_frame read_big_endian32
too_large_blocks_example = too_large_blocks overfull (hello ∷ hello ∷ []) refl

-- A socket that sends two bytes and receives three at a time.
abbrev slow : ISocket
slow = memory_socket 2 3 false

abbrev quiet : MemorySocket
quiet = record { input = []; output = 9 ∷ [] }

send_all_example : SendsFrom slow (memory_sink 2 3 false) quiet hello (send_all slow quiet hello)
send_all_example = send_all_lem slow (memory_sink 2 3 false) quiet hello

send_frame_example :
    ((16 < length hello) × (send_frame slow quiet hello 16 ≡ (some false, quiet)))
    ⊎ ((length hello ≤ 16)
        × SendsFrom slow
            (memory_sink 2 3 false)
            quiet
            (encode_frame hello)
            (send_frame slow quiet hello 16))
send_frame_example = send_frame_lem slow (memory_sink 2 3 false) quiet hello 16

-- A stream that ends in the middle of a body.
abbrev cut : MemorySocket
cut = record { input = 0 ∷ 0 ∷ 0 ∷ 5 ∷ 104 ∷ 101 ∷ []; output = [] }

receive_frame_example :
    Receives slow (memory_source 2 2 false) (frame_of 16 cut.input) (receive_frame slow cut 16)
receive_frame_example = receive_frame_lem slow (memory_source 2 2 false) cut 16

abbrev waiting : MemorySocket
waiting = record { input = 0 ∷ 0 ∷ 0 ∷ 5 ∷ 104 ∷ 101 ∷ 108 ∷ 108 ∷ 111 ∷ 1 ∷ []; output = [] }

receive_frame-encode_frame_example :
    Receives slow
      (memory_source 2 2 false)
      (Protocol.ok, hello, 1 ∷ [])
      (receive_frame slow waiting 16)
unfolding encode_frame write_big_endian32
receive_frame-encode_frame_example =
    receive_frame-encode_frame slow (memory_source 2 2 false) waiting hello (1 ∷ []) 16
      (omega arith) (omega arith) refl

send_frame-Accepts_example : (send_frame slow quiet hello 16).0 ≡ some true
send_frame-Accepts_example = send_frame-Accepts slow (memory_accepts 1) quiet hello 16 (omega arith)

receive-send_frame_example :
    Receives slow
      (memory_source 2 2 false)
      (Protocol.ok, hello, 1 ∷ [])
      (receive_frame slow waiting 16)
unfolding encode_frame write_big_endian32 send_frame send_all send_loop memory_send
receive-send_frame_example =
    receive-send_frame slow (memory_sink 2 3 false) slow (memory_source 2 2 false) quiet waiting
      hello (1 ∷ []) 16 (omega arith) refl refl

-- An operating system whose socket takes all that it is given and hands over two bytes at a time.
sends_all : (s : Bytes) (h : ℤ) (bs : Bytes) → max_zero (pos (length bs)) ≤ length bs
sends_all s h bs = omega arith

takes_two : (s : Bytes) (h : ℤ) (n : ℕ) → length (take (min 2 n) s) ≤ n
takes_two s h n = omega (arith, length-take (min 2 n) s)

abbrev os : Os
os = record {
  State = Bytes;
  send = λ s h bs. (pos (length bs), s);
  recv = λ s h n. (got (take (min 2 n) s), drop (min 2 n) s);
  shutdown = λ s h. s;
  close = λ s h. s;
  set_timeout = λ s h seconds. (true, s);
  set_reuse = λ s h. (true, s);
  send_fits = sends_all;
  recv_fits = takes_two;
}

frames_agree_example :
    (Protocol.send_frame (linux_socket os) (cut.input, pos 3) hello 16 ≡ (
      (SocketOps.send_frame os cut.input (pos 3) hello 16).0,
      ((SocketOps.send_frame os cut.input (pos 3) hello 16).1, pos 3),
    ))
    × Agrees os 3
        (Protocol.receive_frame (linux_socket os) (cut.input, pos 3) 16)
        (SocketOps.receive_frame os cut.input (pos 3) 16)
frames_agree_example = frames_agree os 3 cut.input hello 16
