-- ===== src/Server/Accept.antt =====
-- Server::start: the accept loop, its limit on active clients, and the threads that end.
use messenger_cpp_r.Base.{
  ℕ, ◌+◌, ◌-◌, ◌≤◌, ◌∙◌, ◌≡◌, ◌≢◌, sym, refl, Option-cases, inl, inr, Option, none, some, List, [],
  ◌∷◌, arith, leb, ◌==◌, if◌then◌else◌, length, Bool-cases,
}

-- `active_clients` is the atomic counter, `serving` the sockets of the threads that run a handler,
-- `refused` the sockets that were told ERROR_SERVER_BUSY and closed. max_clients is positive in every
-- configuration that was loaded.
pub record Listener : Type 0 where
  pub max_clients : ℕ
  pub active_clients : ℕ
  pub serving : List ℕ
  pub refused : List ℕ

abbrev pub new_listener : ℕ → Listener
new_listener max_clients = record {
  max_clients = max_clients;
  active_clients = 0;
  serving = [];
  refused = [];
}

-- ::accept answers a socket or fails; the handler of a socket returns or throws.
pub data ServerEvent : Type 0 where
  accept_fails : ServerEvent
  accepts : ℕ → ServerEvent
  ends : ℕ → ServerEvent

-- One round of the loop.
unfoldable pub accept_client : ℕ → Listener → Listener
accept_client socket l =
    if leb l.max_clients l.active_clients
    then record l { refused = socket ∷ l.refused }
    else record l { active_clients = l.active_clients + 1; serving = socket ∷ l.serving }

unfoldable pub without : ℕ → List ℕ → Option (List ℕ)
without socket [] = none
without socket (s ∷ ss) =
    let rest = without socket ss in
    if s == socket then some ss else elim rest [ none ↦ none | some ts ↦ some (s ∷ ts) ]

-- The end of a thread, for a socket that one serves.
unfoldable pub end_client : ℕ → Listener → Listener
end_client socket l = elim (without socket l.serving) [
  | none ↦ l
  | some rest ↦ record l { active_clients = l.active_clients - 1; serving = rest }
]

unfoldable pub server_step : ServerEvent → Listener → Listener
server_step accept_fails l = l
server_step (accepts socket) l = accept_client socket l
server_step (ends socket) l = end_client socket l

unfoldable pub serve_events : List ServerEvent → Listener → Listener
serve_events [] l = l
serve_events (e ∷ es) l = serve_events es (server_step e l)

-- The counter counts the threads, and they are no more than allowed.
pub record IsLimited (l : Listener) : Type 0 where
  pub counted : l.active_clients ≡ length l.serving
  pub limit : length l.serving ≤ l.max_clients

none_list : {xs : List ℕ} → ◌≢◌ {A = Option (List ℕ)} none (some xs)
none_list e = cc

some_list : {xs ys : List ℕ} → ◌≡◌ {A = Option (List ℕ)} (some xs) (some ys) → xs ≡ ys
some_list e = cc

length-without :
    (socket : ℕ) (ss rest : List ℕ) → without socket ss ≡ some rest → length ss ≡ length rest + 1
unfolding without
length-without socket [] rest e = cc
length-without socket (s ∷ ss) rest e = elim (Bool-cases (s == socket)) [
  | inl here ↦ rw (some_list (rw (here, without) at e)) (omega arith)
  | inr there ↦ elim (Option-cases (without socket ss)) [
    | inl f ↦ absurd (none_list (rw (there, f, without) at e))
    | inr (ts, f) ↦
        rw (sym (some_list (rw (there, f, without) at e)))
          (omega (arith, length-without socket ss ts f))
  ]
]

server_step-IsLimited : (e : ServerEvent) (l : Listener) → IsLimited l → IsLimited (server_step e l)
unfolding server_step accept_client end_client
server_step-IsLimited accept_fails l h = h
server_step-IsLimited (accepts socket) l h =
    elim (Bool-cases (leb l.max_clients l.active_clients)) [
      | inl full ↦ rw full (record { counted = h.counted; limit = h.limit })
      | inr room ↦ rw room (record {
        counted = omega (arith, h.counted);
        limit = ground (arith, h.counted, h.limit);
      })
    ]
server_step-IsLimited (ends socket) l h = elim (Option-cases (without socket l.serving)) [
  | inl e ↦ rw (e, end_client) h
  | inr (rest, e) ↦
      let shorter = length-without socket l.serving rest e in
      rw (e, end_client)
        (record {
          counted = omega (arith, h.counted, shorter);
          limit = omega (arith, h.limit, shorter);
        })
]

server_step-max_clients :
    (e : ServerEvent) (l : Listener) → (server_step e l).max_clients ≡ l.max_clients
unfolding server_step accept_client end_client
server_step-max_clients accept_fails l = refl
server_step-max_clients (accepts socket) l = ground arith
server_step-max_clients (ends socket) l = ground arith

serve_events-keeps :
    (es : List ServerEvent) (l : Listener)
    → IsLimited l
    → IsLimited (serve_events es l) × ((serve_events es l).max_clients ≡ l.max_clients)
unfolding serve_events
serve_events-keeps [] l h = (h, refl)
serve_events-keeps (e ∷ es) l h =
    let (limited, same) = serve_events-keeps es (server_step e l) (server_step-IsLimited e l h) in
    (limited, same ∙ server_step-max_clients e l)

-- Whatever comes in and whichever threads end, the counter is the number of the handlers that run, and
-- they are never more than max_clients.
pub serve_events-new_listener :
    (es : List ServerEvent) (max_clients : ℕ)
    → ((serve_events es (new_listener max_clients)).active_clients
        ≡ length (serve_events es (new_listener max_clients)).serving)
      × (length (serve_events es (new_listener max_clients)).serving ≤ max_clients)
serve_events-new_listener es max_clients =
    let (limited, same) =
      serve_events-keeps es (new_listener max_clients)
        (record { counted = refl; limit = omega arith }) in
    (limited.counted, omega (arith, limited.limit, same))
