-- ===== src/Tcp/Protocol/Sending.antt =====
-- What sendAll and sendFrame put on the wire.
use messenger_cpp_r.Base.{
  ℕ, zero, suc, ◌+◌, ◌≤◌, ◌<◌, ◌≡◌, refl, sym, ap, ◌∙◌, ◌⊎◌, inl, inr, Bool, true, false, Option,
  some, List, [], ◌∷◌, ◌++◌, append-nil, append_assoc, arith, Bytes, length, length-drop, take,
  drop, take-append-drop, ltb, ◌==◌, Bool-cases, ==_iff,
}
use Prim.Native.Nat.add
use messenger_cpp_r.Tcp.Frame.{encode_frame}
use messenger_cpp_r.Tcp.Protocol.{ISocket, send_loop, send_all, send_frame}

-- The bytes that the socket has taken grow by exactly what each `send` reports.
pub record IsSink (sock : ISocket) : Type 1 where
  pub sent : ISocket.State sock → Bytes
  pub send_appends :
      (s : ISocket.State sock) (bs : Bytes)
      → sent (ISocket.send sock s bs).1 ≡ sent s ++ take (ISocket.send sock s bs).0 bs

-- A send of `bs` from `s` ended in the answer `r` and the state `s'`: all was taken, or a proper
-- prefix.
abbrev pub SendsFrom :
    (sock : ISocket)
    → IsSink sock
    → ISocket.State sock
    → Bytes
    → Option Bool × ISocket.State sock
    → Type 0
SendsFrom sock sink s bs (r, s') =
    ((r ≡ some true) × (IsSink.sent sink s' ≡ IsSink.sent sink s ++ bs))
    ⊎ ((k : ℕ) × (k < length bs)
        × (r ≡ some false)
        × (IsSink.sent sink s' ≡ IsSink.sent sink s ++ take k bs))

take_nil {ℓ} : {A : Type ℓ} (n : ℕ) → take {A = A} n [] ≡ []
take_nil zero = refl
take_nil (suc n) = refl

take-take-drop {ℓ} :
    {A : Type ℓ} (m k : ℕ) (xs : List A) → take m xs ++ take k (drop m xs) ≡ take (m + k) xs
take-take-drop zero k xs = rw add.zero
take-take-drop (suc m) k [] = rw (take_nil k, take_nil (suc m + k))
take-take-drop (suc m) k (x ∷ xs) = rw (add.suc) (ap (λ t. x ∷ t) (take-take-drop m k xs))

pub shorter :
    (fuel n : ℕ) (bs : Bytes)
    → (n == 0) ≡ false
    → length bs ≤ suc fuel
    → 0 < length bs
    → length (drop n bs) ≤ fuel
shorter fuel n bs e h lt = ground (arith, length-drop n bs)

module _ (sock : ISocket) (sink : IsSink sock) where
  open sock use {State, send, send_fits}
  open sink use {sent, send_appends}

  after_chunk :
      (s : State) (bs : Bytes) (r : Option Bool × State)
      → SendsFrom sock sink (send s bs).1 (drop (send s bs).0 bs) r
      → SendsFrom sock sink s bs r
  after_chunk s bs (r, s') (inl (e, q)) =
      inl (e, q ∙ rw (send_appends s bs, append_assoc, take-append-drop (send s bs).0 bs))
  after_chunk s bs (r, s') (inr (k, lt, e, q)) = inr (
    (send s bs).0 + k,
    omega (arith, length-drop (send s bs).0 bs, send_fits s bs),
    e,
    q ∙ rw (send_appends s bs, append_assoc, take-take-drop (send s bs).0 k bs),
  )

  send_loop-SendsFrom :
      (fuel : ℕ) (s : State) (bs : Bytes)
      → length bs ≤ fuel
      → SendsFrom sock sink s bs (send_loop sock fuel s bs)
  unfolding send_loop
  send_loop-SendsFrom fuel s [] h = inl (refl, sym (append-nil (sent s)))
  send_loop-SendsFrom zero s (b ∷ bs) h = absurd (omega arith)
  send_loop-SendsFrom (suc fuel) s (b ∷ bs) h = elim (Bool-cases ((send s (b ∷ bs)).0 == 0)) [
    | inl stop ↦ rw stop (
        inr (
          0,
          omega arith,
          refl,
          send_appends s (b ∷ bs) ∙ rw ((==_iff (send s (b ∷ bs)).0 0).0 stop),
        ))
    | inr more ↦ rw more (
        after_chunk s (b ∷ bs) _ (
          send_loop-SendsFrom fuel (send s (b ∷ bs)).1 (drop (send s (b ∷ bs)).0 (b ∷ bs))
            (shorter fuel (send s (b ∷ bs)).0 (b ∷ bs) more h (omega arith))))
  ]

  -- sendAll answers true exactly when the socket has taken every byte, in order; when it answers
  -- false, a proper prefix was taken and nothing else. It always answers, whatever the sizes of the
  -- chunks that the socket takes.
  pub send_all_lem : (s : State) (bs : Bytes) → SendsFrom sock sink s bs (send_all sock s bs)
  unfolding send_all
  send_all_lem s bs = send_loop-SendsFrom (length bs) s bs (omega arith)

  -- sendFrame refuses a payload above the limit and then sends nothing; any other payload goes out as
  -- its encoded frame, whole if the answer is true, a proper prefix if it is false.
  pub send_frame_lem :
      (s : State) (payload : Bytes) (limit : ℕ)
      → ((limit < length payload) × (send_frame sock s payload limit ≡ (some false, s)))
        ⊎ ((length payload ≤ limit)
            × SendsFrom sock sink s (encode_frame payload) (send_frame sock s payload limit))
  unfolding send_frame
  send_frame_lem s payload limit = elim (Bool-cases (ltb limit (length payload))) [
    | inl large ↦ inl (ground arith, rw large)
    | inr small ↦ inr (ground arith, rw small (send_all_lem s (encode_frame payload)))
  ]
