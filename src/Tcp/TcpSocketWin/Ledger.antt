-- ===== src/Tcp/TcpSocketWin/Ledger.antt =====
-- A TcpSocketWin closes every handle that it opens, and no other.
use messenger_cpp_r.Base.{
  ◌+◌, sym, arith, ◌≡◌, refl, ◌∙◌, inl, inr, ℕ, Bool, true, false, not, ◌||◌, Bool-cases,
  Option-cases, List, [], ◌∷◌, Bytes, length, ltb, if◌then◌else◌, is_empty, ◌==◌, ==_iff, ℤ,
}
use messenger_cpp_r.Server.Numbers.{int_text}
use messenger_cpp_r.Tcp.Handles.{
  Handles, AreOpen, Owns, socket-Owns, close-AreOpen, Owns-none, AreOpen-none, Owns-same,
}
use messenger_cpp_r.Tcp.TcpSocketWin
use messenger_cpp_r.Tcp.TcpSocketWin.Startups.{
  IsLedger, win_close-SameStartups, win_calls-SameStartups,
}
use messenger_cpp_r.Tcp.TcpSocketWin.{
  Winsock, TcpSocketWin, invalid_socket, is_invalid, int_max, SocketCall, connects, sends, receives,
  closes, connect_any, connect_new, win_socket, win_close, win_connect, win_send, win_receive,
  win_call, win_calls, win_destroy, win_life,
}

module _ (ws : Winsock) (ledger : IsLedger ws) (others : ℕ → Bool) where
  open ws use {State}

  abbrev system : Handles
  system = record {
    Handle = ℕ;
    State = State;
    same = ◌==◌;
    is_valid = λ h. not (is_invalid h);
    is_open = ledger.is_open;
    socket = ws.socket;
    close = ws.closesocket;
    same_iff = ==_iff;
    socket_fresh = ledger.socket_fresh;
    socket_opens = ledger.socket_opens;
    close_closes = ledger.close_closes;
  }

  abbrev Mine : TcpSocketWin State → Type 0
  Mine t = Owns system others t.system t.sock

  no_handle : not (is_invalid invalid_socket) ≡ false
  unfolding is_invalid
  no_handle = refl

  connect_any-keeps :
      (s : State) (sock : ℕ) (addresses : List Bytes) (k : ℕ)
      → ledger.is_open (connect_any ws s sock addresses).1 k ≡ ledger.is_open s k
  unfolding connect_any
  connect_any-keeps s sock [] k = refl
  connect_any-keeps s sock (a ∷ rest) k = elim (Bool-cases (ws.connect s sock a).0) [
    | inl done ↦ rw done (ledger.connect_keeps s sock a k)
    | inr next ↦
        rw next
          (connect_any-keeps (ws.connect s sock a).1 sock rest k ∙ ledger.connect_keeps s sock a k)
  ]

  -- Shutting a handle that is valid down and closing it.
  shut-AreOpen :
      (s : State) (sock : ℕ)
      → is_invalid sock ≡ false
      → Owns system others s sock
      → AreOpen system (ws.closesocket (ws.shutdown s sock) sock) others
  shut-AreOpen s sock valid o =
      close-AreOpen system others (ws.shutdown s sock) sock (rw valid refl)
        (Owns-same system others s (ws.shutdown s sock) sock (ledger.shutdown_keeps s sock) o)

  win_close-AreOpen :
      (t : TcpSocketWin State) → Mine t → AreOpen system (win_close ws t).system others
  unfolding win_close
  win_close-AreOpen t o = elim (Bool-cases (is_invalid t.sock)) [
    | inl unset ↦ rw unset (AreOpen-none system others t.system t.sock (rw unset refl) o)
    | inr is_set ↦ rw is_set (shut-AreOpen t.system t.sock is_set o)
  ]

  win_close-Mine : (t : TcpSocketWin State) → Mine t → Mine (win_close ws t)
  unfolding win_close
  win_close-Mine t o = elim (Bool-cases (is_invalid t.sock)) [
    | inl unset ↦ rw unset o
    | inr is_set ↦
        rw is_set (
          Owns-none system others _ invalid_socket no_handle
            (shut-AreOpen t.system t.sock is_set o))
  ]

  give_up-Mine :
      (t : TcpSocketWin State) (s : State) (sock : ℕ)
      → is_invalid sock ≡ false
      → Owns system others s sock
      → Mine (TcpSocketWin.give_up ws t s sock).1
  give_up-Mine t s sock valid o =
      Owns-none system others _ invalid_socket no_handle
        (close-AreOpen system others s sock (rw valid refl) o)

  connect_new-Mine :
      (t : TcpSocketWin State) (host : Bytes) (port : ℤ)
      → AreOpen system t.system others
      → Mine (connect_new ws t host port).1
  unfolding connect_new
  connect_new-Mine t host port e =
      let (sock, s1) = ws.socket t.system in
      let s2 = (ws.getaddrinfo s1 host (int_text port)).1 in
      let o1 : Owns system others s1 sock = socket-Owns system others t.system e in
      let o2 : Owns system others s2 sock =
        Owns-same system others s1 s2 sock (ledger.getaddrinfo_keeps s1 host (int_text port)) o1 in
      elim (Bool-cases (is_invalid sock)) [
        | inl failed ↦ rw failed o1
        | inr made ↦ elim (Option-cases (ws.getaddrinfo s1 host (int_text port)).0) [
          | inl unknown ↦ rw (made, unknown, connect_new) (give_up-Mine t s2 sock made o2)
          | inr (addresses, known) ↦
              let o3 : Owns system others (connect_any ws s2 sock addresses).1 sock =
                Owns-same system others s2 _ sock (connect_any-keeps s2 sock addresses) o2 in
              rw (made, known, connect_new)
                (elim (Bool-cases (connect_any ws s2 sock addresses).0) [
                  | inl connected ↦ rw connected o3
                  | inr refused ↦ rw refused (give_up-Mine t _ sock made o3)
                ])
        ]
      ]

  unless-Mine :
      (b : Bool) (x y : Bool × TcpSocketWin State)
      → Mine x.1
      → Mine y.1
      → Mine (if not b then x else y).1
  unless-Mine true x y ox oy = oy
  unless-Mine false x y ox oy = ox

  win_connect-Mine :
      (t : TcpSocketWin State) (host : Bytes) (port : ℤ)
      → Mine t
      → Mine (win_connect ws t host port).1
  unfolding win_connect
  win_connect-Mine t host port o =
      unless-Mine t.initialized (false, t) (connect_new ws (win_close ws t) host port) o
        (connect_new-Mine (win_close ws t) host port (win_close-AreOpen t o))

  win_send-Mine : (t : TcpSocketWin State) (bytes : Bytes) → Mine t → Mine (win_send ws t bytes).1
  unfolding win_send
  win_send-Mine t bytes o =
      elim (Bool-cases (is_invalid t.sock || (not t.initialized || is_empty bytes))) [
        | inl idle ↦ rw idle o
        | inr busy ↦ rw busy (elim (Bool-cases (ltb int_max (length bytes))) [
          | inl long ↦ rw long o
          | inr short ↦ rw short (
              Owns-same system others t.system _ t.sock (ledger.send_keeps t.system t.sock bytes) o)
        ])
      ]

  win_receive-Mine : (t : TcpSocketWin State) (n : ℕ) → Mine t → Mine (win_receive ws t n).1
  unfolding win_receive
  win_receive-Mine t n o = elim (Bool-cases (is_invalid t.sock || (not t.initialized || n == 0))) [
    | inl idle ↦ rw idle o
    | inr busy ↦ rw busy (elim (Bool-cases (ltb int_max n)) [
      | inl long ↦ rw long o
      | inr short ↦
          rw short
            (Owns-same system others t.system _ t.sock (ledger.recv_keeps t.system t.sock n) o)
    ])
  ]

  win_calls-Mine :
      (t : TcpSocketWin State) (calls : List (SocketCall ws)) → Mine t → Mine (win_calls ws t calls)
  unfolding win_calls win_call
  win_calls-Mine t [] o = o
  win_calls-Mine t (connects host port ∷ cs) o =
      win_calls-Mine (win_connect ws t host port).1 cs (win_connect-Mine t host port o)
  win_calls-Mine t (sends bytes ∷ cs) o =
      win_calls-Mine (win_send ws t bytes).1 cs (win_send-Mine t bytes o)
  win_calls-Mine t (receives n ∷ cs) o =
      win_calls-Mine (win_receive ws t n).1 cs (win_receive-Mine t n o)
  win_calls-Mine t (closes ∷ cs) o = win_calls-Mine (win_close ws t) cs (win_close-Mine t o)

module _ (ws : Winsock) (ledger : IsLedger ws) where
  open ws use {State}
  open ledger use {is_open, startups}

  -- The destructor, where `before` is the state before the constructor.
  abbrev Restores : State → State → Type 0
  Restores before after =
      ((k : ℕ) → is_open after k ≡ is_open before k) × (startups after ≡ startups before)

  cleanup-Restores :
      (before s : State)
      → ((k : ℕ) → is_open s k ≡ is_open before k)
      → startups s ≡ startups before + 1
      → Restores before (ws.cleanup s)
  cleanup-Restores before s same counted =
      let back : startups (ws.cleanup s) ≡ startups before =
        omega (arith, ledger.cleanup_counts s, counted) in
      elim (Bool-cases (startups before == 0)) [
        | inl first ↦ (
          (λ k.
              ledger.none_open (ws.cleanup s) k (ground (arith, back, first))
              ∙ sym (ledger.none_open before k (ground (arith, first)))),
          back,
        )
        | inr others ↦
            ((λ k. ledger.cleanup_keeps s k (ground (arith, counted, others)) ∙ same k), back)
      ]

  win_destroy-Restores :
      (before : State) (t : TcpSocketWin State)
      → AreOpen (system ws ledger (is_open before)) (win_close ws t).system (is_open before)
      → startups t.system ≡ (if t.initialized then startups before + 1 else startups before)
      → Restores before (win_destroy ws t)
  unfolding win_destroy
  win_destroy-Restores before t same counted =
      let (level, known) = win_close-SameStartups ws ledger t in
      elim (Bool-cases t.initialized) [
        | inl up ↦
            rw (known ∙ up)
              (cleanup-Restores before (win_close ws t).system same (level ∙ rw up at counted))
        | inr down ↦ rw (known ∙ down) (same, level ∙ rw down at counted)
      ]

  -- Whatever is called on a TcpSocketWin and whatever fails, WSAStartup and connecting again included:
  -- once the object is destroyed, the same handles are open as before it was made, and Winsock is
  -- started up as often as before.
  pub win_life-is_open :
      (s : State) (calls : List (SocketCall ws))
      → ((k : ℕ) → is_open (win_life ws s calls) k ≡ is_open s k)
        × (startups (win_life ws s calls) ≡ startups s)
  unfolding win_life win_socket
  win_life-is_open s calls =
      let others = is_open s in
      let t = win_calls ws (win_socket ws s) calls in
      let (level, known) = win_calls-SameStartups ws ledger (win_socket ws s) calls in
      win_destroy-Restores s t
        (win_close-AreOpen ws ledger others t (
          win_calls-Mine ws ledger others (win_socket ws s) calls (
            Owns-none (system ws ledger others) others _ invalid_socket (no_handle ws ledger others)
              (ledger.startup_keeps s))))
        (rw known (level ∙ ledger.startup_counts s))
