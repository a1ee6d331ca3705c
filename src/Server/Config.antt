-- ===== src/Server/Config.antt =====
-- Config.cpp. The environment and the file system are parameters: `getenv` (an unset variable reads
-- as empty) and `open_file` (the contents of a file that opens).
pub mod Bounds
use messenger_cpp_r.Base.{
  ◌*◌, ℕ, zero, suc, ◌^◌, Bool, true, false, not, ◌&&◌, ◌||◌, Option, none, some, List, [], ◌∷◌,
  ◌++◌, Bytes, lit, str_eq, is_empty, ltb, ◌==◌, if◌then◌else◌, ℤ, pos, negsuc, non_positive,
  max_zero,
}
use messenger_cpp_r.Server.Numbers.{Parsed, value, failure, NumberError, stoi, stoul}

-- " \t\r\n"
unfoldable pub is_blank_char : ℕ → Bool
is_blank_char c = c == 32 || (c == 9 || (c == 13 || c == 10))

unfoldable pub trim_front : Bytes → Bytes
trim_front [] = []
trim_front (c ∷ cs) = if is_blank_char c then trim_front cs else c ∷ cs

unfoldable pub trim_back : Bytes → Bytes
trim_back [] = []
trim_back (c ∷ cs) =
    let rest = trim_back cs in if is_empty rest && is_blank_char c then [] else c ∷ rest

unfoldable pub trim : Bytes → Bytes
trim text = trim_back (trim_front text)

-- std::getline over a whole stream.
abbrev pub with_char : ℕ → List Bytes → List Bytes
with_char c [] = (c ∷ []) ∷ []
with_char c (l ∷ ls) = (c ∷ l) ∷ ls

unfoldable pub lines : Bytes → List Bytes
lines [] = []
lines (c ∷ cs) = let rest = lines cs in if c == 10 then [] ∷ rest else with_char c rest

-- What stands in front of the first `c`.
unfoldable pub before : ℕ → Bytes → Bytes
before c [] = []
before c (x ∷ xs) = let rest = before c xs in if x == c then [] else x ∷ rest

-- What stands on the two sides of the first `c`, if there is one.
unfoldable pub split_at : ℕ → Bytes → Option (Bytes × Bytes)
split_at c [] = none
split_at c (x ∷ xs) =
    let rest = split_at c xs in
    if x == c
    then some ([], xs)
    else elim rest [ none ↦ none | some (front, back) ↦ some (x ∷ front, back) ]

-- The std::unordered_map; the entry that was set last stands first.
abbrev pub FileConfig : Type 0
FileConfig = List (Bytes × Bytes)

unfoldable pub find_key : Bytes → FileConfig → Option Bytes
find_key key [] = none
find_key key ((k, v) ∷ rest) = if str_eq k key then some v else find_key key rest

unfoldable pub read_lines : List Bytes → FileConfig → FileConfig
read_lines [] result = result
read_lines (line ∷ rest) result = elim (split_at b'=' (before b'#' line)) [
  | none ↦ read_lines rest result
  | some (key, text) ↦ read_lines rest ((trim key, trim text) ∷ result)
]

pub data ConfigError : Type 0 where
  not_an_integer not_a_size : Bytes → NumberError → ConfigError
  no_db_conn no_pool bad_port no_clients bad_timeout small_frame : ConfigError

-- A value, or the std::runtime_error.
pub data Loaded {ℓ} (A : Type ℓ) : Type ℓ where
  loaded : A → Loaded A
  throws : ConfigError → Loaded A

infixl 10 ◌>>=◌
abbrev pub ◌>>=◌ {ℓ κ} : {A : Type ℓ} {B : Type κ} → Loaded A → (A → Loaded B) → Loaded B
loaded a >>= f = f a
throws e >>= f = throws e

unfoldable pub parse_int : Bytes → Bytes → ℤ → Loaded ℤ
parse_int name text fallback =
    if is_empty text
    then loaded fallback
    else elim (stoi text) [ value n ↦ loaded n | failure e ↦ throws (not_an_integer name e) ]

unfoldable pub parse_size : Bytes → Bytes → ℕ → Loaded ℕ
parse_size name text fallback =
    if is_empty text
    then loaded fallback
    else elim (stoul text) [ value n ↦ loaded n | failure e ↦ throws (not_a_size name e) ]

pub record ServerConfig : Type 0 where
  pub port : ℤ
  pub db_conn : Bytes
  pub db_pool_size : ℕ
  pub max_clients : ℤ
  pub read_timeout_seconds : ℤ
  pub max_frame_size : ℕ
  pub log_path : Bytes
  pub tls_enabled : Bool
  pub tls_cert_path : Bytes
  pub tls_key_path : Bytes

-- The default member initializers.
abbrev pub default_config : ServerConfig
default_config = record {
  port = pos 8080;
  db_conn = [];
  db_pool_size = 4;
  max_clients = pos 64;
  read_timeout_seconds = pos 300;
  max_frame_size = 64 * 1024;
  log_path = lit "logs/user_activity.log";
  tls_enabled = false;
  tls_cert_path = [];
  tls_key_path = [];
}

-- The checks at the end of loadServerConfig.
unfoldable pub check_config : ServerConfig → Loaded ServerConfig
check_config config =
    if is_empty config.db_conn
    then throws no_db_conn
    else if config.db_pool_size == 0
    then throws no_pool
    else if non_positive config.port || ltb 65535 (max_zero config.port)
    then throws bad_port
    else if non_positive config.max_clients
    then throws no_clients
    else if non_positive config.read_timeout_seconds
    then throws bad_timeout
    else if ltb config.max_frame_size 1024
    then throws small_frame
    else loaded config

module _ (getenv : Bytes → Bytes) (open_file : Bytes → Option Bytes) where
  unfoldable pub read_config_file : Bytes → FileConfig
  read_config_file path =
      if is_empty path
      then []
      else elim (open_file path) [ none ↦ [] | some text ↦ read_lines (lines text) [] ]

  unfoldable pub setting : FileConfig → Bytes → Bytes → Bytes → Bytes
  setting file_config env_name file_name fallback =
      let env = getenv env_name in
      if not (is_empty env)
      then env
      else elim (find_key file_name file_config) [ none ↦ fallback | some text ↦ text ]

  unfoldable pub read_settings : FileConfig → Loaded ServerConfig
  read_settings file = do
    let db_conn = setting file (lit "CHAT_DB_CONN") (lit "db_conn") []
    port ←
        parse_int (lit "CHAT_SERVER_PORT")
          (setting file (lit "CHAT_SERVER_PORT") (lit "server_port") []) default_config.port
    db_pool_size ←
        parse_size (lit "CHAT_DB_POOL_SIZE")
          (setting file (lit "CHAT_DB_POOL_SIZE") (lit "db_pool_size") [])
          default_config.db_pool_size
    max_clients ←
        parse_int (lit "CHAT_MAX_CLIENTS")
          (setting file (lit "CHAT_MAX_CLIENTS") (lit "max_clients") []) default_config.max_clients
    read_timeout_seconds ←
        parse_int (lit "CHAT_READ_TIMEOUT_SEC")
          (setting file (lit "CHAT_READ_TIMEOUT_SEC") (lit "read_timeout_sec") [])
          default_config.read_timeout_seconds
    max_frame_size ←
        parse_size (lit "CHAT_MAX_FRAME_SIZE")
          (setting file (lit "CHAT_MAX_FRAME_SIZE") (lit "max_frame_size") [])
          default_config.max_frame_size
    loaded (record {
      port = port;
      db_conn = db_conn;
      db_pool_size = db_pool_size;
      max_clients = max_clients;
      read_timeout_seconds = read_timeout_seconds;
      max_frame_size = max_frame_size;
      log_path = setting file (lit "CHAT_LOG_PATH") (lit "log_path") default_config.log_path;
      tls_cert_path = setting file (lit "CHAT_TLS_CERT") (lit "tls_cert") [];
      tls_key_path = setting file (lit "CHAT_TLS_KEY") (lit "tls_key") [];
      tls_enabled = str_eq (setting file (lit "CHAT_ENABLE_TLS") (lit "tls_enabled") []) (lit "1");
    })

  unfoldable pub load_server_config : Loaded ServerConfig
  load_server_config =
      let config_path = getenv (lit "MESSENGER_CONFIG") in
      read_settings
        (read_config_file (if is_empty config_path then lit "config/server.conf" else config_path))
      >>= check_config
