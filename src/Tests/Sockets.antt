-- ===== src/Tests/Sockets.antt =====
-- The life of a socket against systems that hand out handles in order.
use messenger_cpp_r.Base.{
  ◌+◌, ◌-◌, ◌≤◌, ℕ, suc, ◌≡◌, refl, inl, inr, Bool, true, false, not, ◌&&◌, Bool-cases, none, some,
  List, [], ◌∷◌, arith, Bytes, lit, str_eq, length, ltb, ◌==◌, if◌then◌else◌, ℤ, pos, negsuc, eqb_ℤ,
  take, length-take,
}
use messenger_cpp_r.Tcp.SocketOps.{Os, got}
use messenger_cpp_r.Tcp.TcpSocket.Connecting
use messenger_cpp_r.Tcp.TcpSocket.Connecting.{Net, SocketCall, linux_life}
use messenger_cpp_r.Tcp.TcpSocket.Ledger as LinuxLedger
use messenger_cpp_r.Tcp.TcpSocket.Ledger.{linux_life-is_open}
use messenger_cpp_r.Tcp.TcpSocketWin
use messenger_cpp_r.Tcp.TcpSocketWin.{Winsock, invalid_socket, is_invalid, win_life}
use messenger_cpp_r.Tcp.TcpSocketWin.Startups.{IsLedger}
use messenger_cpp_r.Tcp.TcpSocketWin.Ledger.{win_life-is_open}

-- Every handle below `next` was given out; `table` says which are not closed yet.
pub record System : Type 0 where
  pub next : ℕ
  pub table : ℕ → Bool

abbrev live : System → ℕ → Bool
live s k = ltb k s.next && s.table k

abbrev pub open_next : System → System
open_next s = record { next = suc s.next; table = λ k. if k == s.next then true else s.table k }

abbrev close : System → ℕ → System
close s h = record s { table = λ k. if k == h then false else s.table k }

open_next-fresh : (s : System) → live s s.next ≡ false
open_next-fresh s = ground arith

open_next-live :
    (s : System) (k : ℕ) → live (open_next s) k ≡ (if k == s.next then true else live s k)
open_next-live s k = ground arith

close-live : (s : System) (h k : ℕ) → live (close s h) k ≡ (if k == h then false else live s k)
close-live s h k = ground arith

abbrev pub new_system : System
new_system = record { next = 0; table = λ k. false }

abbrev on_live : System → ℤ → Bool
on_live s (pos k) = live s k
on_live s (negsuc k) = false

abbrev close_ℤ : System → ℤ → System
close_ℤ s (pos h) = close s h
close_ℤ s (negsuc h) = s

-- Names resolve to two addresses, of which the second answers.
abbrev pub os : Os
os = record {
  State = System;
  send = λ s h bs. (pos (length bs), s);
  recv = λ s h n. (got (take n (lit "hi")), s);
  shutdown = λ s h. s;
  close = close_ℤ;
  set_timeout = λ s h seconds. (true, s);
  set_reuse = λ s h. (true, s);
  send_fits = λ s h bs. omega arith;
  recv_fits = λ s h n. omega (arith, length-take n (lit "hi"));
}

abbrev net : Net os
net = record {
  socket = λ s. (pos s.next, open_next s);
  getaddrinfo = λ s host service. (some ((1 ∷ []) ∷ (2 ∷ []) ∷ []), s);
  connect = λ s h address. (str_eq address (2 ∷ []), s);
}

on_live-opens :
    (s : System) (k : ℤ)
    → on_live (open_next s) k ≡ (if eqb_ℤ k (pos s.next) then true else on_live s k)
on_live-opens s (pos k) = open_next-live s k
on_live-opens s (negsuc k) = refl

on_live-closes :
    (s : System) (h k : ℤ) → on_live (close_ℤ s h) k ≡ (if eqb_ℤ k h then false else on_live s k)
on_live-closes s (pos h) (pos k) = close-live s h k
on_live-closes s (pos h) (negsuc k) = refl
on_live-closes s (negsuc h) (pos k) = refl
on_live-closes s (negsuc h) (negsuc k) = ground arith

abbrev ledger : LinuxLedger.IsLedger os net
ledger = record {
  is_open = on_live;
  socket_fresh = λ s v. open_next-fresh s;
  socket_opens = on_live-opens;
  close_closes = on_live-closes;
  shutdown_keeps = λ s h k. refl;
  send_keeps = λ s h bs k. refl;
  recv_keeps = λ s h n k. refl;
  getaddrinfo_keeps = λ s host service k. refl;
  connect_keeps = λ s h address k. refl;
}

abbrev host : Bytes
host = lit "localhost"

-- A second connect without a close, which is what the ledger would notice.
abbrev calls : List (SocketCall os net)
calls =
    Connecting.connects host (pos 8080)
    ∷ Connecting.sends (lit "LIST")
    ∷ Connecting.connects host (pos 8081)
    ∷ Connecting.receives 2
    ∷ []

linux_life-is_open_example :
    on_live (linux_life os net (open_next new_system) calls) (pos 0)
    ≡ on_live (open_next new_system) (pos 0)
linux_life-is_open_example = linux_life-is_open os net ledger (open_next new_system) calls (pos 0)

-- Winsock with the number of its startups; SOCKET numbers run out at INVALID_SOCKET, and the last
-- cleanup closes what is open.
abbrev win_live : System × ℕ → ℕ → Bool
win_live (s, n) k = ltb 0 n && live s k

abbrev win_new : System × ℕ → ℕ × (System × ℕ)
win_new (s, n) =
    if ltb 0 n && ltb s.next invalid_socket
    then (s.next, (open_next s, n))
    else (invalid_socket, (s, n))

abbrev ws : Winsock
ws = record {
  State = System × ℕ;
  startup = λ s. (true, (if s.1 == 0 then new_system else s.0, s.1 + 1));
  cleanup = λ s. (if s.1 == 1 then new_system else s.0, s.1 - 1);
  socket = win_new;
  getaddrinfo = λ s host service. (some ((1 ∷ []) ∷ (2 ∷ []) ∷ []), s);
  connect = λ s h address. (str_eq address (2 ∷ []), s);
  send = λ s h bs. (some (length bs), s);
  recv = λ s h n. (none, s);
  shutdown = λ s h. s;
  closesocket = λ s h. (close s.0 h, s.1);
  send_fits = λ s h bs n e. ground arith;
  recv_fits = λ s h n bs e. absurd (cc);
}

win_fresh :
    (s : System × ℕ) → not (is_invalid (ws.socket s).0) ≡ true → win_live s (ws.socket s).0 ≡ false
unfolding is_invalid
win_fresh (s, n) v = ground arith

win_opens :
    (s : System × ℕ) (k : ℕ)
    → win_live (ws.socket s).1 k
      ≡ (if not (is_invalid (ws.socket s).0) && k == (ws.socket s).0 then true else win_live s k)
unfolding is_invalid
win_opens (s, n) k = elim (Bool-cases (ltb 0 n && ltb s.next invalid_socket)) [
  | inl more ↦ rw more (ground (arith, more, open_next-live s k))
  | inr full ↦ rw full refl
]

win_closes :
    (s : System × ℕ) (h k : ℕ)
    → win_live (ws.closesocket s h) k ≡ (if k == h then false else win_live s k)
win_closes (s, n) h k = ground (arith, close-live s h k)

win_starts : (s : System × ℕ) (k : ℕ) → win_live (ws.startup s).1 k ≡ win_live s k
win_starts (s, n) k = ground arith

win_socket_counts : (s : System × ℕ) → (ws.socket s).1.1 ≡ s.1
win_socket_counts (s, n) = ground arith

win_cleans : (s : System × ℕ) (k : ℕ) → 2 ≤ s.1 → win_live (ws.cleanup s) k ≡ win_live s k
win_cleans (s, n) k le = ground arith

win_none : (s : System × ℕ) (k : ℕ) → s.1 ≡ 0 → win_live s k ≡ false
win_none (s, n) k e = ground arith

abbrev win_ledger : IsLedger ws
win_ledger = record {
  is_open = win_live;
  socket_fresh = win_fresh;
  socket_opens = win_opens;
  close_closes = win_closes;
  shutdown_keeps = λ s h k. refl;
  send_keeps = λ s h bs k. refl;
  recv_keeps = λ s h n k. refl;
  getaddrinfo_keeps = λ s host service k. refl;
  connect_keeps = λ s h address k. refl;
  startup_keeps = win_starts;
  startups = λ s. s.1;
  cleanup_keeps = win_cleans;
  none_open = win_none;
  startup_counts = λ s. refl;
  cleanup_counts = λ s. refl;
  socket_counts = win_socket_counts;
  close_counts = λ s h. refl;
  shutdown_counts = λ s h. refl;
  send_counts = λ s h bs. refl;
  recv_counts = λ s h n. refl;
  getaddrinfo_counts = λ s host service. refl;
  connect_counts = λ s h address. refl;
}

abbrev win_calls : List (TcpSocketWin.SocketCall ws)
win_calls =
    TcpSocketWin.connects host (pos 8080)
    ∷ TcpSocketWin.sends (lit "LIST")
    ∷ TcpSocketWin.connects host (pos 8081)
    ∷ TcpSocketWin.receives 2
    ∷ []

win_life-is_open_example :
    ((k : ℕ)
      → win_live (win_life ws (open_next new_system, 1) win_calls) k
        ≡ win_live (open_next new_system, 1) k)
    × ((win_life ws (open_next new_system, 1) win_calls).1 ≡ 1)
win_life-is_open_example = win_life-is_open ws win_ledger (open_next new_system, 1) win_calls
