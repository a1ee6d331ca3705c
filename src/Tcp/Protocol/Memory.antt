-- ===== src/Tcp/Protocol/Memory.antt =====
-- The MemorySocket of tests/protocol_tests.cpp, an ISocket over two byte buffers: it sends and
-- receives in chunks of bounded size, and can be told to fail.
use messenger_cpp_r.Base.{
  ℕ, suc, ◌≤◌, ◌≡◌, ap, Bool, false, [], ◌∷◌, ◌++◌, append-nil, arith, Bytes, is_empty, length,
  length-take, take, drop, take-append-drop, min, ◌≢◌, ◌==◌, ◌||◌, if◌then◌else◌,
}
use messenger_cpp_r.Tcp.Protocol.{ISocket}
use messenger_cpp_r.Tcp.Protocol.Sending.{IsSink}
use messenger_cpp_r.Tcp.Protocol.Receiving.{IsSource}

-- `input` is what is left of input_ behind readOffset_.
pub record MemorySocket : Type 0 where
  pub input : Bytes
  pub output : Bytes

unfoldable pub memory_send : ℕ → Bool → MemorySocket → Bytes → ℕ × MemorySocket
memory_send max_send_chunk fail_send s bytes =
    if fail_send || is_empty bytes
    then (0, s)
    else let chunk = min (length bytes) max_send_chunk in
      (chunk, record s { output = s.output ++ take chunk bytes })

unfoldable pub memory_receive : ℕ → MemorySocket → ℕ → Bytes × MemorySocket
memory_receive max_receive_chunk s maxlen =
    if maxlen == 0 || is_empty s.input
    then ([], s)
    else let chunk = min (min (length s.input) maxlen) max_receive_chunk in
      (take chunk s.input, record s { input = drop chunk s.input })

pub memory_send_fits :
    (k : ℕ) (f : Bool) (s : MemorySocket) (bs : Bytes) → (memory_send k f s bs).0 ≤ length bs
unfolding memory_send
memory_send_fits k f s bs = ground arith

pub memory_receive_fits : (k : ℕ) (s : MemorySocket) (n : ℕ) → length (memory_receive k s n).0 ≤ n
unfolding memory_receive
memory_receive_fits k s n = ground (arith, length-take (min (min (length s.input) n) k) s.input)

abbrev pub memory_socket : ℕ → ℕ → Bool → ISocket
memory_socket max_send_chunk max_receive_chunk fail_send = record {
  State = MemorySocket;
  send = memory_send max_send_chunk fail_send;
  receive = memory_receive max_receive_chunk;
  send_fits = memory_send_fits max_send_chunk fail_send;
  receive_fits = memory_receive_fits max_receive_chunk;
}

pub memory_send_appends :
    (k : ℕ) (f : Bool) (s : MemorySocket) (bs : Bytes)
    → (memory_send k f s bs).1.output ≡ s.output ++ take (memory_send k f s bs).0 bs
unfolding memory_send
memory_send_appends k f s bs = ground (arith, append-nil s.output)

abbrev pub memory_sink : (k r : ℕ) (f : Bool) → IsSink (memory_socket k r f)
memory_sink k r f = record { sent = λ s. s.output; send_appends = memory_send_appends k f }

pub memory_receive_takes :
    (k : ℕ) (s : MemorySocket) (n : ℕ)
    → s.input ≡ (memory_receive k s n).0 ++ (memory_receive k s n).1.input
unfolding memory_receive
memory_receive_takes k s n =
    ground (arith, take-append-drop (min (min (length s.input) n) k) s.input)

pub memory_receive_progress :
    (k : ℕ) (s : MemorySocket) (n : ℕ) → (memory_receive (suc k) s (suc n)).0 ≡ [] → s.input ≡ []
unfolding memory_receive
memory_receive_progress k s n e =
    ground (arith, ap length e, length-take (min (min (length s.input) (suc n)) (suc k)) s.input)

-- A chunk of at least one byte each time.
abbrev pub memory_source : (k r : ℕ) (f : Bool) → IsSource (memory_socket k (suc r) f)
memory_source k r f = record {
  pending = λ s. s.input;
  receive_takes = memory_receive_takes (suc r);
  receive_progress = memory_receive_progress r;
}

pub memory_accepts :
    (k : ℕ) (s : MemorySocket) (b : ℕ) (bs : Bytes) → (memory_send (suc k) false s (b ∷ bs)).0 ≢ 0
unfolding memory_send
memory_accepts k s b bs = ground arith
