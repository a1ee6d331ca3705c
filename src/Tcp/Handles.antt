-- ===== src/Tcp/Handles.antt =====
-- Which handles of the system are open: the ledger that the sockets are checked against.
use messenger_cpp_r.Base.{
  false≢true, ◌≡◌, sym, ap, ◌∙◌, ◌↔◌, inl, inr, Bool, true, false, ◌&&◌, Bool-cases, arith,
  if◌then◌else◌,
}

-- A system whose calls open and close handles. As documented, ::socket gives a handle that was not open,
-- or fails with one that is not valid, and closing a handle leaves the others.
pub record Handles : Type 1 where
  pub Handle : Type 0
  pub State : Type 0
  pub same : Handle → Handle → Bool
  pub is_valid : Handle → Bool
  pub is_open : State → Handle → Bool
  pub socket : State → Handle × State
  pub close : State → Handle → State
  pub same_iff : (h k : Handle) → (same h k ≡ true) ↔ (h ≡ k)
  pub socket_fresh : (s : State) → is_valid (socket s).0 ≡ true → is_open s (socket s).0 ≡ false
  pub socket_opens :
      (s : State) (k : Handle)
      → is_open (socket s).1 k
        ≡ (if is_valid (socket s).0 && same k (socket s).0 then true else is_open s k)
  pub close_closes :
      (s : State) (h k : Handle) → is_open (close s h) k ≡ (if same k h then false else is_open s k)

module _ (sys : Handles) where
  open sys use {Handle, State, same, is_valid, is_open}

  abbrev pub AreOpen : State → (Handle → Bool) → Type 0
  AreOpen s others = (k : Handle) → is_open s k ≡ others k

  -- Of the handles that are open, one is the socket's, if it is valid, and the rest are the `others`.
  pub record Owns (others : Handle → Bool) (s : State) (h : Handle) : Type 0 where
    pub mine : is_valid h ≡ true → others h ≡ false
    pub all : (k : Handle) → is_open s k ≡ (if is_valid h && same k h then true else others k)

  pub socket-Owns :
      (others : Handle → Bool) (s : State)
      → AreOpen s others
      → Owns others (sys.socket s).1 (sys.socket s).0
  socket-Owns others s e = record {
    mine = λ v. sym (e (sys.socket s).0) ∙ sys.socket_fresh s v;
    all = λ k. ground (arith, sys.socket_opens s k, e k);
  }

  pub close-AreOpen :
      (others : Handle → Bool) (s : State) (h : Handle)
      → is_valid h ≡ true
      → Owns others s h
      → AreOpen (sys.close s h) others
  close-AreOpen others s h v o k = elim (Bool-cases (same k h)) [
    | inl e ↦ rw (sys.close_closes s h k, e) (sym (ap others ((sys.same_iff k h).0 e) ∙ o.mine v))
    | inr e ↦ ground (arith, sys.close_closes s h k, o.all k)
  ]

  -- A socket that has none.
  pub Owns-none :
      (others : Handle → Bool) (s : State) (h : Handle)
      → is_valid h ≡ false
      → AreOpen s others
      → Owns others s h
  Owns-none others s h v e = record {
    mine = λ w. absurd (false≢true (sym v ∙ w));
    all = λ k. rw v (e k);
  }

  pub AreOpen-none :
      (others : Handle → Bool) (s : State) (h : Handle)
      → is_valid h ≡ false
      → Owns others s h
      → AreOpen s others
  AreOpen-none others s h v o k = ground (arith, o.all k)

  -- A call that opens and closes nothing.
  pub Owns-same :
      (others : Handle → Bool) (s s' : State) (h : Handle)
      → ((k : Handle) → is_open s' k ≡ is_open s k)
      → Owns others s h
      → Owns others s' h
  Owns-same others s s' h e o = record { mine = o.mine; all = λ k. e k ∙ o.all k }
