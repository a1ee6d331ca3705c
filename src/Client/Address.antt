-- ===== src/Client/Address.antt =====
-- The command line of the client, root/app/client/src/main.cpp: one argument host:port.
use messenger_cpp_r.Base.{
  ℕ, ◌≤◌, ◌≡◌, ◌≢◌, refl, sym, ap, ◌∙◌, inl, inr, Bool, true, false, ◌||◌, none, some, Option-cases,
  List, [], ◌∷◌, ◌++◌, arith, Bytes, all_of, is_empty, ltb, ◌==◌, if◌then◌else◌, Bool-cases, ℤ, pos,
  negsuc, non_positive, max_zero,
}
use messenger_cpp_r.Server.Numbers.{Parsed, value, failure, invalid_argument, stoi, to_string}
use messenger_cpp_r.Server.Numbers.RoundTrip.{stoi-to_string}
use messenger_cpp_r.Server.Config.{split_at}
use messenger_cpp_r.Server.Config.Bounds.{to_string-some}

-- A client to that host and port, or the complaint before `return 1`.
pub data Address : Type 0 where
  connects : Bytes → ℕ → Address
  usage no_colon no_host no_port not_a_number port_out_of_range : Address
  bad_port : ℤ → Address

unfoldable pub parse_port : Bytes → Bytes → Address
unfolding stoi
parse_port host port_str = elim (stoi port_str) [
  | value p ↦
      if non_positive p || ltb 65535 (max_zero p) then bad_port p else connects host (max_zero p)
  | failure e ↦ elim e [ invalid_argument ↦ not_a_number | _ ↦ port_out_of_range ]
]

-- The checks on what stands on the two sides of the colon.
unfoldable pub parse_sides : Bytes → Bytes → Address
unfolding parse_port
parse_sides host port_str =
    if is_empty host
    then no_host
    else if is_empty port_str
    then no_port
    else parse_port host port_str

-- arg.find(':') takes the first colon.
unfoldable pub parse_address : Bytes → Address
unfolding split_at parse_sides
parse_address arg = elim (split_at b':' arg) [
  | none ↦ no_colon
  | some (host, port_str) ↦ parse_sides host port_str
]

-- argv without the program's name
unfoldable pub parse_arguments : List Bytes → Address
unfolding parse_address
parse_arguments [] = usage
parse_arguments (arg ∷ []) = parse_address arg
parse_arguments (arg ∷ more ∷ rest) = usage

unfoldable pub no_colon_in : ℕ → Bool
no_colon_in c = if c == b':' then false else true

split_at-first :
    (host rest : Bytes)
    → all_of no_colon_in host ≡ true
    → split_at b':' (host ++ b':' ∷ rest) ≡ some (host, rest)
unfolding split_at all_of no_colon_in
split_at-first [] rest h = refl
split_at-first (c ∷ cs) rest h = ground (arith, split_at-first cs rest)

split_at-joins :
    (s front back : Bytes) → split_at b':' s ≡ some (front, back) → s ≡ front ++ b':' ∷ back
unfolding split_at
split_at-joins [] front back h = cc
split_at-joins (c ∷ cs) front back h = elim (Bool-cases (c == b':')) [
  | inl here ↦ ground arith
  | inr there ↦ elim (Option-cases (split_at b':' cs)) [
    | inl e ↦ absurd (ground arith)
    | inr ((f, b), e) ↦ ground (arith, split_at-joins cs f b e)
  ]
]

-- A host without a colon and a port from 1 to 65535 are read back from host:port.
pub parse_arguments-to_string :
    (host : Bytes) (port : ℕ)
    → is_empty host ≡ false
    → all_of no_colon_in host ≡ true
    → 1 ≤ port
    → port ≤ 65535
    → parse_arguments ((host ++ b':' ∷ to_string port) ∷ []) ≡ connects host port
unfolding parse_arguments parse_address parse_sides parse_port
parse_arguments-to_string host port named plain lo hi =
    rw (split_at-first host (to_string port) plain, parse_address)
      (rw named (
        rw (to_string-some port (omega arith))
          (rw (stoi-to_string port (omega arith), parse_port) (ground arith))))

-- What a port that was accepted is.
abbrev pub IsPort : Bytes → ℕ → Type 0
IsPort text port = (stoi text ≡ value (pos port)) × (1 ≤ port) × (port ≤ 65535)

parse_port-connects :
    (host h text : Bytes) (port : ℕ)
    → parse_port host text ≡ connects h port
    → (h ≡ host) × IsPort text port
unfolding parse_port
parse_port-connects host h text port e = go (stoi text) refl
  where
    go : (r : Parsed ℤ) → stoi text ≡ r → (h ≡ host) × IsPort text port
    go (value (pos p)) f = ground (arith, f, e)
    go (value (negsuc p)) f = ground (arith, f, e)
    go (failure x) f = ground (arith, f, e)

parse_sides-connects :
    (host h text : Bytes) (port : ℕ)
    → parse_sides h text ≡ connects host port
    → (host ≡ h) × (h ≢ []) × IsPort text port
unfolding parse_sides
parse_sides-connects host [] text port e = cc
parse_sides-connects host (c ∷ cs) [] port e = cc
parse_sides-connects host (c ∷ cs) (d ∷ ds) port e =
    let (same, ok) = parse_port-connects (c ∷ cs) host (d ∷ ds) port e in (same, (λ f. cc), ok)

-- Whatever the arguments are: a client is made only for one argument of the form host:port, with a
-- host that is not empty and a port that std::stoi reads as a number from 1 to 65535.
pub parse_arguments-connects :
    (args : List Bytes) (host : Bytes) (port : ℕ)
    → parse_arguments args ≡ connects host port
    → (text : Bytes) × (args ≡ (host ++ b':' ∷ text) ∷ []) × (host ≢ []) × IsPort text port
unfolding parse_arguments parse_address
parse_arguments-connects [] host port e = cc
parse_arguments-connects (a ∷ b ∷ rest) host port e = cc
parse_arguments-connects (arg ∷ []) host port e = elim (Option-cases (split_at b':' arg)) [
  | inl f ↦ absurd (ground (arith, e, rw (f, parse_address) at e))
  | inr ((h, text), f) ↦
      let (same, named, ok) = parse_sides-connects host h text port (rw (f, parse_address) at e) in
      (
        text,
        ap (λ x. x ∷ []) (split_at-joins arg h text f ∙ ap (λ x. x ++ b':' ∷ text) (sym same)),
        (λ none_left. named (sym same ∙ none_left)),
        ok,
      )
]
