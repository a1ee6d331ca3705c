-- ===== src/Client/Connecting.antt =====
-- Client::connectToServer: attempts for 60 seconds, one second apart; and the ends of a client, where
-- joining the thread of the receive loop is waiting for its last step.
use messenger_cpp_r.Base.{
  ℕ, zero, suc, ◌+◌, ◌*◌, ◌≤◌, ◌≡◌, refl, inl, inr, Bool, true, false, not, Option, none, some,
  arith, Bytes, ltb, if◌then◌else◌, Bool-cases,
}
use messenger_cpp_r.Client.Session.{ClientState}

-- The steady clock in milliseconds, this_thread::sleep_for, tcp::createSocket (false for a null
-- pointer), ISocket::connect and close, and the destructor of the socket.
pub record Dialer : Type 1 where
  pub State : Type 0
  pub now : State → ℕ × State
  pub sleep_for : State → ℕ → State
  pub create_socket : State → Bool × State
  pub connect : State → Bytes → ℕ → Bool × State
  pub reset : State → State
  pub close : State → State

-- As documented, the clock never goes back, and a sleep takes the time it is asked for at least.
pub record IsSteady (dialer : Dialer) : Type 0 where
  pub time : Dialer.State dialer → ℕ
  pub now_reads : (s : Dialer.State dialer) → (dialer.now s).0 ≡ time s
  pub now_on : (s : Dialer.State dialer) → time s ≤ time (dialer.now s).1
  pub sleep_for_on : (s : Dialer.State dialer) (n : ℕ) → time s + n ≤ time (dialer.sleep_for s n)
  pub create_socket_on : (s : Dialer.State dialer) → time s ≤ time (dialer.create_socket s).1
  pub connect_on :
      (s : Dialer.State dialer) (host : Bytes) (port : ℕ)
      → time s ≤ time (dialer.connect s host port).1
  pub reset_on : (s : Dialer.State dialer) → time s ≤ time (dialer.reset s)

module _ (dialer : Dialer) where
  open dialer use {State}

  -- One attempt: whether `socket_` is connected, and the state after it.
  unfoldable pub attempt : State → Bytes → ℕ → Bool × State
  attempt s host port =
      let (made, s1) = dialer.create_socket s in
      let (done, s2) = dialer.connect s1 host port in
      if not made then (false, s1) else if done then (true, s2) else (false, dialer.reset s2)

  -- The loop up to the deadline; `none` if `fuel` rounds were not enough.
  unfoldable pub connect_until : ℕ → State → ℕ → Bytes → ℕ → Option Bool × State
  unfolding attempt
  connect_until zero s deadline host port = (none, s)
  connect_until (suc fuel) s deadline host port =
      let (t, s1) = dialer.now s in
      let (done, s2) = attempt s1 host port in
      let again = connect_until fuel (dialer.sleep_for s2 1000) deadline host port in
      if not (ltb t deadline) then (some false, s1) else if done then (some true, s2) else again

  -- What `running_` is afterwards.
  unfoldable pub connect_to_server : ℕ → State → Bytes → ℕ → Option Bool × State
  unfolding connect_until
  connect_to_server fuel s host port =
      let (t, s1) = dialer.now s in connect_until fuel s1 (t + 60 * 1000) host port

  -- `socket_` is set where connecting succeeded.
  unfoldable pub close_socket : Bool → State → State
  close_socket is_set s = if is_set then dialer.close s else s

  -- Client::run: `loop` is what the loop beside the receive loop does to the client.
  unfoldable pub run :
      ℕ → State → Bytes → ℕ → (ClientState → ClientState) → ClientState → Option ClientState × State
  unfolding connect_to_server close_socket
  run fuel s host port loop c =
      let (running, s1) = connect_to_server fuel s host port in
      elim running [
        | none ↦ (none, s1)
        | some connected ↦
            if connected
            then (some (loop (record c { running = true })), close_socket true s1)
            else (some c, s1)
      ]

  -- The destructor.
  unfoldable pub destroy : Bool → State → ClientState → ClientState × State
  unfolding close_socket
  destroy is_set s c = (record c { running = false }, close_socket is_set s)

  module _ (steady : IsSteady dialer) (host : Bytes) (port : ℕ) where
    open steady use {time}

    attempt_on : (s : State) → time s ≤ time (attempt s host port).1
    unfolding attempt
    attempt_on s =
        let s1 = (dialer.create_socket s).1 in
        let s2 = (dialer.connect s1 host port).1 in
        elim (Bool-cases (dialer.create_socket s).0) [
          | inr null ↦ rw null (steady.create_socket_on s)
          | inl made ↦ rw made (elim (Bool-cases (dialer.connect s1 host port).0) [
            | inl done ↦
                rw done (omega (arith, steady.create_socket_on s, steady.connect_on s1 host port))
            | inr refused ↦ rw refused (
                omega (
                  arith,
                  steady.create_socket_on s,
                  steady.connect_on s1 host port,
                  steady.reset_on s2,
                ))
          ])
        ]

    -- An answer, and a refusal only once the deadline has come.
    abbrev pub Ends : ℕ → Option Bool × State → Type 0
    Ends deadline r =
        (running : Bool) × (r.0 ≡ some running) × (running ≡ false → deadline ≤ time r.1)

    connect_until-Ends :
        (more : ℕ) (s : State) (deadline : ℕ)
        → deadline ≤ time s + more * 1000
        → Ends deadline (connect_until (suc more) s deadline host port)
    unfolding connect_until
    connect_until-Ends zero s deadline le =
        let s1 = (dialer.now s).1 in
        elim (Bool-cases (ltb (dialer.now s).0 deadline)) [
          | inr late ↦ rw late (false, refl, λ e. omega (arith, le, steady.now_on s))
          | inl early ↦ absurd (ground (arith, early, le, steady.now_reads s))
        ]
    connect_until-Ends (suc more) s deadline le =
        let s1 = (dialer.now s).1 in
        let s2 = (attempt s1 host port).1 in
        elim (Bool-cases (ltb (dialer.now s).0 deadline)) [
          | inr late ↦
              rw late (false, refl, λ e. ground (arith, late, steady.now_reads s, steady.now_on s))
          | inl early ↦ rw early (elim (Bool-cases (attempt s1 host port).0) [
            | inl done ↦ rw done (true, refl, λ e. absurd (cc))
            | inr again ↦ rw again (
                connect_until-Ends more (dialer.sleep_for s2 1000) deadline
                  (omega (arith, le, steady.now_on s, attempt_on s1, steady.sleep_for_on s2 1000)))
          ])
        ]

  -- With a clock that never goes back and sleeps that last, connectToServer ends within 61 rounds of
  -- its loop, whatever the network does, and it gives up only when 60 seconds have passed.
  pub connect_to_server_ends :
      (steady : IsSteady dialer) (s : State) (host : Bytes) (port : ℕ)
      → (running : Bool) × ((connect_to_server 61 s host port).0 ≡ some running)
        × (running ≡ false
            → IsSteady.time steady s + 60 * 1000
              ≤ IsSteady.time steady (connect_to_server 61 s host port).1)
  unfolding connect_to_server
  connect_to_server_ends steady s host port =
      let (t, s1) = dialer.now s in
      let reads = steady.now_reads s in
      let (running, e, late) =
        connect_until-Ends steady host port 60 s1 (t + 60 * 1000)
          (omega (arith, reads, steady.now_on s)) in
      (running, e, λ f. omega (arith, reads, late f))
