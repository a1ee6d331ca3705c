-- ===== src/Tcp/TcpSocketWin/Startups.antt =====
-- A TcpSocketWin starts Winsock up at most once, in its constructor.
use messenger_cpp_r.Base.{
  ◌+◌, ◌-◌, ◌≤◌, ◌≡◌, refl, ◌∙◌, inl, inr, ℕ, Bool, true, false, not, ◌&&◌, ◌||◌, Bool-cases,
  Option-cases, List, [], ◌∷◌, Bytes, length, ltb, if◌then◌else◌, is_empty, ◌==◌, ℤ,
}
use messenger_cpp_r.Server.Numbers.{int_text}
use messenger_cpp_r.Tcp.TcpSocketWin.{
  Winsock, TcpSocketWin, is_invalid, int_max, SocketCall, connects, sends, receives, closes,
  connect_any, connect_new, win_close, win_connect, win_send, win_receive, win_call, win_calls,
}

-- Which handles are open, and how many calls of WSAStartup are not undone yet. As documented, ::socket
-- gives a handle that was not open, or INVALID_SOCKET, ::closesocket closes the one, WSACleanup undoes
-- one WSAStartup and closes nothing before the last, after which, as before the first, no handle is
-- open; and the other calls change neither.
pub record IsLedger (ws : Winsock) : Type 0 where
  pub is_open : Winsock.State ws → ℕ → Bool
  pub socket_fresh :
      (s : Winsock.State ws)
      → not (is_invalid (ws.socket s).0) ≡ true
      → is_open s (ws.socket s).0 ≡ false
  pub socket_opens :
      (s : Winsock.State ws) (k : ℕ)
      → is_open (ws.socket s).1 k
        ≡ (if not (is_invalid (ws.socket s).0) && k == (ws.socket s).0 then true else is_open s k)
  pub close_closes :
      (s : Winsock.State ws) (h k : ℕ)
      → is_open (ws.closesocket s h) k ≡ (if k == h then false else is_open s k)
  pub shutdown_keeps : (s : Winsock.State ws) (h k : ℕ) → is_open (ws.shutdown s h) k ≡ is_open s k
  pub send_keeps :
      (s : Winsock.State ws) (h : ℕ) (bs : Bytes) (k : ℕ)
      → is_open (ws.send s h bs).1 k ≡ is_open s k
  pub recv_keeps : (s : Winsock.State ws) (h n k : ℕ) → is_open (ws.recv s h n).1 k ≡ is_open s k
  pub getaddrinfo_keeps :
      (s : Winsock.State ws) (host service : Bytes) (k : ℕ)
      → is_open (ws.getaddrinfo s host service).1 k ≡ is_open s k
  pub connect_keeps :
      (s : Winsock.State ws) (h : ℕ) (address : Bytes) (k : ℕ)
      → is_open (ws.connect s h address).1 k ≡ is_open s k
  pub startup_keeps : (s : Winsock.State ws) (k : ℕ) → is_open (ws.startup s).1 k ≡ is_open s k
  pub startups : Winsock.State ws → ℕ
  pub cleanup_keeps :
      (s : Winsock.State ws) (k : ℕ) → 2 ≤ startups s → is_open (ws.cleanup s) k ≡ is_open s k
  pub none_open : (s : Winsock.State ws) (k : ℕ) → startups s ≡ 0 → is_open s k ≡ false
  pub startup_counts :
      (s : Winsock.State ws)
      → startups (ws.startup s).1 ≡ (if (ws.startup s).0 then startups s + 1 else startups s)
  pub cleanup_counts : (s : Winsock.State ws) → startups (ws.cleanup s) ≡ startups s - 1
  pub socket_counts : (s : Winsock.State ws) → startups (ws.socket s).1 ≡ startups s
  pub close_counts : (s : Winsock.State ws) (h : ℕ) → startups (ws.closesocket s h) ≡ startups s
  pub shutdown_counts : (s : Winsock.State ws) (h : ℕ) → startups (ws.shutdown s h) ≡ startups s
  pub send_counts :
      (s : Winsock.State ws) (h : ℕ) (bs : Bytes) → startups (ws.send s h bs).1 ≡ startups s
  pub recv_counts : (s : Winsock.State ws) (h n : ℕ) → startups (ws.recv s h n).1 ≡ startups s
  pub getaddrinfo_counts :
      (s : Winsock.State ws) (host service : Bytes)
      → startups (ws.getaddrinfo s host service).1 ≡ startups s
  pub connect_counts :
      (s : Winsock.State ws) (h : ℕ) (address : Bytes)
      → startups (ws.connect s h address).1 ≡ startups s

module _ (ws : Winsock) (ledger : IsLedger ws) where
  open ws use {State}
  open ledger use {startups}

  -- Winsock is as often started up as before, and the object knows whether it did it.
  abbrev pub SameStartups : TcpSocketWin State → TcpSocketWin State → Type 0
  SameStartups t t' = (startups t'.system ≡ startups t.system) × (t'.initialized ≡ t.initialized)

  connect_any-startups :
      (s : State) (sock : ℕ) (addresses : List Bytes)
      → startups (connect_any ws s sock addresses).1 ≡ startups s
  unfolding connect_any
  connect_any-startups s sock [] = refl
  connect_any-startups s sock (a ∷ rest) = elim (Bool-cases (ws.connect s sock a).0) [
    | inl done ↦ rw done (ledger.connect_counts s sock a)
    | inr next ↦
        rw next
          (connect_any-startups (ws.connect s sock a).1 sock rest ∙ ledger.connect_counts s sock a)
  ]

  pub win_close-SameStartups : (t : TcpSocketWin State) → SameStartups t (win_close ws t)
  unfolding win_close
  win_close-SameStartups t = elim (Bool-cases (is_invalid t.sock)) [
    | inl unset ↦ rw unset (refl, refl)
    | inr is_set ↦ rw is_set (
      ledger.close_counts (ws.shutdown t.system t.sock) t.sock
          ∙ ledger.shutdown_counts t.system t.sock,
      refl,
    )
  ]

  connect_new-SameStartups :
      (t : TcpSocketWin State) (host : Bytes) (port : ℤ)
      → SameStartups t (connect_new ws t host port).1
  unfolding connect_new
  connect_new-SameStartups t host port =
      let (sock, s1) = ws.socket t.system in
      let s2 = (ws.getaddrinfo s1 host (int_text port)).1 in
      let e1 : startups s1 ≡ startups t.system = ledger.socket_counts t.system in
      let e2 : startups s2 ≡ startups t.system =
        ledger.getaddrinfo_counts s1 host (int_text port) ∙ e1 in
      elim (Bool-cases (is_invalid sock)) [
        | inl failed ↦ rw failed (e1, refl)
        | inr made ↦ elim (Option-cases (ws.getaddrinfo s1 host (int_text port)).0) [
          | inl unknown ↦ rw (made, unknown, connect_new) (ledger.close_counts s2 sock ∙ e2, refl)
          | inr (addresses, known) ↦
              let s3 = (connect_any ws s2 sock addresses).1 in
              let e3 : startups s3 ≡ startups t.system =
                connect_any-startups s2 sock addresses ∙ e2 in
              rw (made, known, connect_new)
                (elim (Bool-cases (connect_any ws s2 sock addresses).0) [
                  | inl connected ↦ rw connected (e3, refl)
                  | inr refused ↦ rw refused (ledger.close_counts s3 sock ∙ e3, refl)
                ])
        ]
      ]

  unless-SameStartups :
      (b : Bool) (t : TcpSocketWin State) (x y : Bool × TcpSocketWin State)
      → SameStartups t x.1
      → SameStartups t y.1
      → SameStartups t (if not b then x else y).1
  unless-SameStartups true t x y ex ey = ey
  unless-SameStartups false t x y ex ey = ex

  win_connect-SameStartups :
      (t : TcpSocketWin State) (host : Bytes) (port : ℤ)
      → SameStartups t (win_connect ws t host port).1
  unfolding win_connect
  win_connect-SameStartups t host port =
      let (a, b) = win_close-SameStartups t in
      let (c, d) = connect_new-SameStartups (win_close ws t) host port in
      unless-SameStartups t.initialized t (false, t) (connect_new ws (win_close ws t) host port)
        (refl, refl) (c ∙ a, d ∙ b)

  win_send-SameStartups :
      (t : TcpSocketWin State) (bytes : Bytes) → SameStartups t (win_send ws t bytes).1
  unfolding win_send
  win_send-SameStartups t bytes =
      elim (Bool-cases (is_invalid t.sock || (not t.initialized || is_empty bytes))) [
        | inl idle ↦ rw idle (refl, refl)
        | inr busy ↦ rw busy (elim (Bool-cases (ltb int_max (length bytes))) [
          | inl long ↦ rw long (refl, refl)
          | inr short ↦ rw short (ledger.send_counts t.system t.sock bytes, refl)
        ])
      ]

  win_receive-SameStartups :
      (t : TcpSocketWin State) (n : ℕ) → SameStartups t (win_receive ws t n).1
  unfolding win_receive
  win_receive-SameStartups t n =
      elim (Bool-cases (is_invalid t.sock || (not t.initialized || n == 0))) [
        | inl idle ↦ rw idle (refl, refl)
        | inr busy ↦ rw busy (elim (Bool-cases (ltb int_max n)) [
          | inl long ↦ rw long (refl, refl)
          | inr short ↦ rw short (ledger.recv_counts t.system t.sock n, refl)
        ])
      ]

  win_call-SameStartups :
      (t : TcpSocketWin State) (call : SocketCall ws) → SameStartups t (win_call ws t call)
  unfolding win_call
  win_call-SameStartups t (connects host port) = win_connect-SameStartups t host port
  win_call-SameStartups t (sends bytes) = win_send-SameStartups t bytes
  win_call-SameStartups t (receives n) = win_receive-SameStartups t n
  win_call-SameStartups t closes = win_close-SameStartups t

  pub win_calls-SameStartups :
      (t : TcpSocketWin State) (calls : List (SocketCall ws))
      → SameStartups t (win_calls ws t calls)
  unfolding win_calls
  win_calls-SameStartups t [] = (refl, refl)
  win_calls-SameStartups t (c ∷ cs) =
      let (a, b) = win_call-SameStartups t c in
      let (d, e) = win_calls-SameStartups (win_call ws t c) cs in (d ∙ a, e ∙ b)
