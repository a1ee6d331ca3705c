-- ===== src/Tcp/TcpSocket/Ledger.antt =====
-- A TcpSocketLinux closes every handle that it opens, and no other.
use messenger_cpp_r.Base.{
  ◌≡◌, refl, ◌∙◌, inl, inr, ℕ, Bool, true, false, not, ◌&&◌, ◌||◌, Bool-cases, Option-cases, List,
  [], ◌∷◌, Bytes, if◌then◌else◌, ℤ, minus_one, eqb_ℤ, eqb_ℤ_iff, is_empty, ◌==◌,
}
use messenger_cpp_r.Server.Numbers.{int_text}
use messenger_cpp_r.Tcp.Handles.{
  Handles, AreOpen, Owns, socket-Owns, close-AreOpen, Owns-none, AreOpen-none, Owns-same,
}
use messenger_cpp_r.Tcp.SocketOps.{Os}
use messenger_cpp_r.Tcp.TcpSocket.{is_negative, linux_send, linux_receive, linux_close}
use messenger_cpp_r.Tcp.TcpSocket.Connecting
use messenger_cpp_r.Tcp.TcpSocket.Connecting.{
  Net, connect_any, connect_new, linux_connect, SocketCall, connects, sends, receives, closes,
  linux_call, linux_calls, linux_life,
}

-- Which handles are open. As documented, ::socket gives a handle that was not open, or a negative
-- number, ::close closes the one, and the other calls open and close nothing.
pub record IsLedger (os : Os) (net : Net os) : Type 0 where
  pub is_open : Os.State os → ℤ → Bool
  pub socket_fresh :
      (s : Os.State os)
      → not (is_negative (net.socket s).0) ≡ true
      → is_open s (net.socket s).0 ≡ false
  pub socket_opens :
      (s : Os.State os) (k : ℤ)
      → is_open (net.socket s).1 k ≡ (
          if not (is_negative (net.socket s).0) && eqb_ℤ k (net.socket s).0
          then true
          else is_open s k)
  pub close_closes :
      (s : Os.State os) (h k : ℤ)
      → is_open (os.close s h) k ≡ (if eqb_ℤ k h then false else is_open s k)
  pub shutdown_keeps : (s : Os.State os) (h k : ℤ) → is_open (os.shutdown s h) k ≡ is_open s k
  pub send_keeps :
      (s : Os.State os) (h : ℤ) (bs : Bytes) (k : ℤ) → is_open (os.send s h bs).1 k ≡ is_open s k
  pub recv_keeps :
      (s : Os.State os) (h : ℤ) (n : ℕ) (k : ℤ) → is_open (os.recv s h n).1 k ≡ is_open s k
  pub getaddrinfo_keeps :
      (s : Os.State os) (host service : Bytes) (k : ℤ)
      → is_open (net.getaddrinfo s host service).1 k ≡ is_open s k
  pub connect_keeps :
      (s : Os.State os) (h : ℤ) (address : Bytes) (k : ℤ)
      → is_open (net.connect s h address).1 k ≡ is_open s k

module _ (os : Os) (net : Net os) (ledger : IsLedger os net) (others : ℤ → Bool) where
  open os use {State}

  abbrev system : Handles
  system = record {
    Handle = ℤ;
    State = State;
    same = eqb_ℤ;
    is_valid = λ h. not (is_negative h);
    is_open = ledger.is_open;
    socket = net.socket;
    close = os.close;
    same_iff = eqb_ℤ_iff;
    socket_fresh = ledger.socket_fresh;
    socket_opens = ledger.socket_opens;
    close_closes = ledger.close_closes;
  }

  abbrev Mine : State × ℤ → Type 0
  Mine (s, sockfd) = Owns system others s sockfd

  connect_any-keeps :
      (s : State) (sockfd : ℤ) (addresses : List Bytes) (k : ℤ)
      → ledger.is_open (connect_any os net s sockfd addresses).1 k ≡ ledger.is_open s k
  unfolding connect_any
  connect_any-keeps s sockfd [] k = refl
  connect_any-keeps s sockfd (a ∷ rest) k = elim (Bool-cases (net.connect s sockfd a).0) [
    | inl done ↦ rw done (ledger.connect_keeps s sockfd a k)
    | inr next ↦ rw next (
        connect_any-keeps (net.connect s sockfd a).1 sockfd rest k
        ∙ ledger.connect_keeps s sockfd a k)
  ]

  -- After close() the object has no handle, and the others are as they were.
  linux_close-AreOpen :
      (s : State) (sockfd : ℤ)
      → Mine (s, sockfd)
      → AreOpen system (linux_close os (s, sockfd)).0 others
  unfolding linux_close
  linux_close-AreOpen s sockfd o = elim (Bool-cases (is_negative sockfd)) [
    | inl none_open ↦ rw none_open (AreOpen-none system others s sockfd (rw none_open refl) o)
    | inr one_open ↦ rw one_open (
        close-AreOpen system others (os.shutdown s sockfd) sockfd (rw one_open refl) (
          Owns-same system others s (os.shutdown s sockfd) sockfd (ledger.shutdown_keeps s sockfd)
            o))
  ]

  linux_close-Mine : (t : State × ℤ) → Mine t → Mine (linux_close os t)
  unfolding linux_close
  linux_close-Mine (s, sockfd) o = elim (Bool-cases (is_negative sockfd)) [
    | inl none_open ↦ rw none_open o
    | inr one_open ↦ rw one_open (
        Owns-none system others _ minus_one refl (
          close-AreOpen system others (os.shutdown s sockfd) sockfd (rw one_open refl) (
            Owns-same system others s (os.shutdown s sockfd) sockfd (ledger.shutdown_keeps s sockfd)
              o)))
  ]

  give_up-Mine :
      (s : State) (sockfd : ℤ)
      → is_negative sockfd ≡ false
      → Mine (s, sockfd)
      → Mine (Connecting.give_up os net s sockfd).1
  give_up-Mine s sockfd valid o =
      Owns-none system others _ minus_one refl
        (close-AreOpen system others s sockfd (rw valid refl) o)

  connect_new-Mine :
      (s : State) (host : Bytes) (port : ℤ)
      → AreOpen system s others
      → Mine (connect_new os net s host port).1
  unfolding connect_new
  connect_new-Mine s host port e =
      let (sockfd, s1) = net.socket s in
      let s2 = (net.getaddrinfo s1 host (int_text port)).1 in
      let o1 : Mine (s1, sockfd) = socket-Owns system others s e in
      let o2 : Mine (s2, sockfd) =
        Owns-same system others s1 s2 sockfd (ledger.getaddrinfo_keeps s1 host (int_text port))
          o1 in
      elim (Bool-cases (is_negative sockfd)) [
        | inl failed ↦ rw failed o1
        | inr made ↦ elim (Option-cases (net.getaddrinfo s1 host (int_text port)).0) [
          | inl unknown ↦ rw (made, unknown, connect_new) (give_up-Mine s2 sockfd made o2)
          | inr (addresses, known) ↦
              let o3 : Mine ((connect_any os net s2 sockfd addresses).1, sockfd) =
                Owns-same system others s2 _ sockfd (connect_any-keeps s2 sockfd addresses) o2 in
              rw (made, known, connect_new)
                (elim (Bool-cases (connect_any os net s2 sockfd addresses).0) [
                  | inl connected ↦ rw connected o3
                  | inr refused ↦ rw refused (give_up-Mine _ sockfd made o3)
                ])
        ]
      ]

  freed-AreOpen :
      (s : State) (sockfd : ℤ)
      → Mine (s, sockfd)
      → AreOpen system (if eqb_ℤ sockfd minus_one then s else (linux_close os (s, sockfd)).0) others
  freed-AreOpen s sockfd o = elim (Bool-cases (eqb_ℤ sockfd minus_one)) [
    | inl unset ↦
        rw unset
          (AreOpen-none system others s sockfd (rw ((eqb_ℤ_iff sockfd minus_one).0 unset) refl) o)
    | inr is_set ↦ rw is_set (linux_close-AreOpen s sockfd o)
  ]

  linux_connect-Mine :
      (t : State × ℤ) (host : Bytes) (port : ℤ) → Mine t → Mine (linux_connect os net t host port).1
  unfolding linux_connect
  linux_connect-Mine (s, sockfd) host port o =
      connect_new-Mine _ host port (freed-AreOpen s sockfd o)

  linux_send-Mine : (t : State × ℤ) (bytes : Bytes) → Mine t → Mine (linux_send os t bytes).1
  unfolding linux_send
  linux_send-Mine (s, sockfd) bytes o =
      let sent : Mine ((os.send s sockfd bytes).1, sockfd) =
        Owns-same system others s (os.send s sockfd bytes).1 sockfd
          (ledger.send_keeps s sockfd bytes) o in
      elim (Bool-cases (is_negative sockfd || is_empty bytes)) [
        | inl idle ↦ rw idle o
        | inr busy ↦ rw busy (elim (Bool-cases (is_negative (os.send s sockfd bytes).0)) [
          | inl failed ↦ rw failed sent
          | inr went ↦ rw went sent
        ])
      ]

  linux_receive-Mine : (t : State × ℤ) (n : ℕ) → Mine t → Mine (linux_receive os t n).1
  unfolding linux_receive
  linux_receive-Mine (s, sockfd) n o = elim (Bool-cases (is_negative sockfd || n == 0)) [
    | inl idle ↦ rw idle o
    | inr busy ↦
        rw busy
          (Owns-same system others s (os.recv s sockfd n).1 sockfd (ledger.recv_keeps s sockfd n) o)
  ]

  linux_call-Mine : (t : State × ℤ) (c : SocketCall os net) → Mine t → Mine (linux_call os net t c)
  unfolding linux_call
  linux_call-Mine t (connects host port) o = linux_connect-Mine t host port o
  linux_call-Mine t (sends bytes) o = linux_send-Mine t bytes o
  linux_call-Mine t (receives n) o = linux_receive-Mine t n o
  linux_call-Mine t closes o = linux_close-Mine t o

  linux_calls-Mine :
      (t : State × ℤ) (calls : List (SocketCall os net))
      → Mine t
      → Mine (linux_calls os net t calls)
  unfolding linux_calls
  linux_calls-Mine t [] o = o
  linux_calls-Mine t (c ∷ cs) o =
      linux_calls-Mine (linux_call os net t c) cs (linux_call-Mine t c o)

-- Whatever is called on a TcpSocketLinux and whatever fails, connecting again and again included: once
-- the object is destroyed, the same handles are open as before it was made.
pub linux_life-is_open :
    (os : Os) (net : Net os) (ledger : IsLedger os net) (s : Os.State os)
    (calls : List (SocketCall os net)) (k : ℤ)
    → ledger.is_open (linux_life os net s calls) k ≡ ledger.is_open s k
unfolding linux_life
linux_life-is_open os net ledger s calls k =
    let others = ledger.is_open s in
    let t = linux_calls os net (s, minus_one) calls in
    linux_close-AreOpen os net ledger others t.0 t.1
      (linux_calls-Mine os net ledger others (s, minus_one) calls
        (Owns-none (system os net ledger others) others s minus_one refl (λ j. refl)))
      k
