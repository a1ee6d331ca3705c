-- ===== src/Server/Config/Bounds.antt =====
-- The configurations that loadServerConfig of Config.cpp returns.
use messenger_cpp_r.Base.{
  ◌*◌, ℕ, ◌≤◌, ◌<◌, ◌^◌, ◌≡◌, ◌≢◌, refl, sym, ap, ◌∙◌, subst, ◌⊎◌, inl, inr, false, ◌||◌, Option,
  [], ◌∷◌, arith, Bytes, lit, is_empty, ltb, ◌==◌, Bool-cases, ℤ, pos, negsuc, non_positive,
  max_zero,
}
use messenger_cpp_r.Server.Numbers.{
  Parsed, NumberError, digits, split_sign, to_string, stoi, value, failure,
}
use messenger_cpp_r.Server.Numbers.RoundTrip.{stoi-to_string}
use messenger_cpp_r.Server.Words.{skip_spaces}
use messenger_cpp_r.Server.Config.{
  FileConfig, Loaded, loaded, throws, ◌>>=◌, ServerConfig, check_config, read_settings,
  load_server_config, parse_int, parse_size, setting,
}

-- A positive int, as a number with its bounds.
abbrev pub Between : ℕ → ℕ → ℤ → Type 0
Between lo hi z = (n : ℕ) × (z ≡ pos n) × (lo ≤ n) × (n ≤ hi)

pub record InBounds (c : ServerConfig) : Type 0 where
  pub db_conn : c.db_conn ≢ []
  pub db_pool_size : 1 ≤ c.db_pool_size
  pub port : Between 1 65535 c.port
  pub max_clients : non_positive c.max_clients ≡ false
  pub read_timeout_seconds : non_positive c.read_timeout_seconds ≡ false
  pub max_frame_size : 1024 ≤ c.max_frame_size

port-Between : (z : ℤ) → non_positive z || ltb 65535 (max_zero z) ≡ false → Between 1 65535 z
port-Between (pos n) h = (n, refl, ground arith, ground arith)
port-Between (negsuc n) h = cc

some_text : (s : Bytes) → is_empty s ≡ false → s ≢ []
some_text [] h = λ e. cc
some_text (c ∷ cs) h = λ e. cc

loaded_injective :
    (a c : ServerConfig) → ◌≡◌ {A = Loaded ServerConfig} (loaded a) (loaded c) → a ≡ c
loaded_injective a c e = cc

list_cases : (s : Bytes) → (s ≡ []) ⊎ (is_empty s ≡ false)
list_cases [] = inl refl
list_cases (c ∷ cs) = inr refl

value_failure : {z : ℤ} {e : NumberError} → ◌≢◌ {A = Parsed ℤ} (value z) (failure e)
value_failure h = cc

check_config-InBounds : (a c : ServerConfig) → check_config a ≡ loaded c → (a ≡ c) × InBounds a
unfolding check_config
check_config-InBounds a c = elim (Bool-cases (is_empty a.db_conn)) [
  | inl bad ↦ rw bad (λ e. cc)
  | inr conn ↦ elim (Bool-cases (a.db_pool_size == 0)) [
    | inl bad ↦ rw (conn, bad) (λ e. cc)
    | inr pool ↦ elim (Bool-cases (non_positive a.port || ltb 65535 (max_zero a.port))) [
      | inl bad ↦ rw (conn, pool, bad) (λ e. cc)
      | inr port ↦ elim (Bool-cases (non_positive a.max_clients)) [
        | inl bad ↦ rw (conn, pool, port, bad) (λ e. cc)
        | inr clients ↦ elim (Bool-cases (non_positive a.read_timeout_seconds)) [
          | inl bad ↦ rw (conn, pool, port, clients, bad) (λ e. cc)
          | inr timeout ↦ elim (Bool-cases (ltb a.max_frame_size 1024)) [
            | inl bad ↦ rw (conn, pool, port, clients, timeout, bad) (λ e. cc)
            | inr frame ↦
                rw (conn, pool, port, clients, timeout, frame)
                  (λ e. (
                    loaded_injective a c e,
                    record {
                      db_conn = some_text a.db_conn conn;
                      db_pool_size = ground arith;
                      port = port-Between a.port port;
                      max_clients = clients;
                      read_timeout_seconds = timeout;
                      max_frame_size = ground arith;
                    },
                  ))
          ]
        ]
      ]
    ]
  ]
]

bind_inv :
    {A B : Type 0} (m : Loaded A) (f : A → Loaded B) (b : B)
    → (m >>= f) ≡ loaded b
    → (a : A) × (m ≡ loaded a) × (f a ≡ loaded b)
bind_inv (loaded a) f b h = (a, refl, h)
bind_inv (throws e) f b h = cc

-- A number is not printed as nothing.
pub to_string-some : (n : ℕ) → n < 2 ^ 31 → is_empty (to_string n) ≡ false
unfolding stoi skip_spaces split_sign digits
to_string-some n h = elim (list_cases (to_string n)) [
  | inl e ↦ absurd (value_failure (sym (stoi-to_string n h) ∙ ap stoi e))
  | inr e ↦ e
]

module _ (getenv : Bytes → Bytes) (open_file : Bytes → Option Bytes) where
  -- Whatever the environment and the file hold, a configuration that is loaded names a database, has
  -- a port from 1 to 65535, a pool of one connection at least, positive limits for the clients and
  -- the timeout, and frames of 1024 bytes at least.
  pub load_server_config-InBounds :
      (c : ServerConfig) → load_server_config getenv open_file ≡ loaded c → InBounds c
  unfolding load_server_config
  load_server_config-InBounds c h =
      let (a, read, checked) = bind_inv _ check_config c h in
      let (same, bounds) = check_config-InBounds a c checked in subst InBounds same bounds

  parse_port :
      (file : FileConfig) (n : ℕ)
      → n < 2 ^ 31
      → getenv (lit "CHAT_SERVER_PORT") ≡ to_string n
      → parse_int
          (lit "CHAT_SERVER_PORT")
          (setting getenv open_file file (lit "CHAT_SERVER_PORT") (lit "server_port") [])
          (pos 8080)
        ≡ loaded (pos n)
  unfolding parse_int setting
  parse_port file n small e =
      rw (e, to_string-some n small) (rw (to_string-some n small, stoi-to_string n small))

  read_settings-port :
      (file : FileConfig) (n : ℕ) (a : ServerConfig)
      → n < 2 ^ 31
      → getenv (lit "CHAT_SERVER_PORT") ≡ to_string n
      → read_settings getenv open_file file ≡ loaded a
      → a.port ≡ pos n
  unfolding read_settings
  read_settings-port file n a small e h =
      let int : Bytes → Bytes → ℤ → Loaded ℤ =
        λ name key z. parse_int name (setting getenv open_file file name key []) z in
      let size : Bytes → Bytes → ℕ → Loaded ℕ =
        λ name key k. parse_size name (setting getenv open_file file name key []) k in
      let (port, p, h1) =
        bind_inv (int (lit "CHAT_SERVER_PORT") (lit "server_port") (pos 8080)) _ a h in
      let (pool, q, h2) = bind_inv (size (lit "CHAT_DB_POOL_SIZE") (lit "db_pool_size") 4) _ a h1 in
      let (clients, r, h3) =
        bind_inv (int (lit "CHAT_MAX_CLIENTS") (lit "max_clients") (pos 64)) _ a h2 in
      let (timeout, s, h4) =
        bind_inv (int (lit "CHAT_READ_TIMEOUT_SEC") (lit "read_timeout_sec") (pos 300)) _ a h3 in
      let (frame, t, h5) =
        bind_inv (size (lit "CHAT_MAX_FRAME_SIZE") (lit "max_frame_size") (64 * 1024)) _ a h4 in
      cc (p, parse_port file n small e, h5)

  -- The port of the environment wins: if CHAT_SERVER_PORT prints a number that an int holds, then a
  -- configuration that is loaded has that port, whatever the file says.
  pub load_server_config-port :
      (n : ℕ) (c : ServerConfig)
      → n < 2 ^ 31
      → getenv (lit "CHAT_SERVER_PORT") ≡ to_string n
      → load_server_config getenv open_file ≡ loaded c
      → c.port ≡ pos n
  unfolding load_server_config
  load_server_config-port n c small e h =
      let (a, read, checked) = bind_inv _ check_config c h in
      ap (λ x. ServerConfig.port x) (sym (check_config-InBounds a c checked).0)
      ∙ read_settings-port _ n a small e read
