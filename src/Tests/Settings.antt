-- ===== src/Tests/Settings.antt =====
-- A configuration from an environment and a file.
use messenger_cpp_r.Base.{
  Bool, ℕ, arith, true, ◌≡◌, refl, Option, some, [], ◌∷◌, ◌++◌, Bytes, lit, str_eq, if◌then◌else◌,
  pos,
}
use messenger_cpp_r.Server.Auth.{is_digit}
use messenger_cpp_r.Server.Words.{skip_spaces, is_space}
use messenger_cpp_r.Server.Numbers.{stoi, stoul, digits, split_sign}
use messenger_cpp_r.Server.Config.{
  loaded, ServerConfig, default_config, load_server_config, read_settings, read_config_file,
  setting, parse_int, parse_size, check_config, find_key, read_lines, lines, before, split_at, trim,
  trim_front, trim_back, is_blank_char,
}
use messenger_cpp_r.Tcp.SocketOps.{Os, got}
use messenger_cpp_r.Server.Startup.{Listening, IsListening}
use messenger_cpp_r.Server.Config.Bounds.{InBounds, load_server_config-InBounds}

abbrev getenv : Bytes → Bytes
getenv name =
    if str_eq name (lit "CHAT_SERVER_PORT")
    then lit "80"
    else if str_eq name (lit "CHAT_DB_CONN")
    then lit "dbname=chat"
    else []

-- server_port is set by the environment too, max_clients by the file alone.
abbrev open_file : Bytes → Option Bytes
open_file path = some (lit "server_port = 81" ++ 10 ∷ lit " max_clients=7 # few")

abbrev config : ServerConfig
config = record default_config { port = pos 80; db_conn = lit "dbname=chat"; max_clients = pos 7 }

config_loads : load_server_config getenv open_file ≡ loaded config
unfolding load_server_config read_settings read_config_file setting parse_int parse_size
    check_config find_key read_lines lines before split_at trim trim_front trim_back is_blank_char
    str_eq stoi stoul digits split_sign skip_spaces is_space is_digit
config_loads = refl

load_server_config-InBounds_example : InBounds config
load_server_config-InBounds_example =
    load_server_config-InBounds getenv open_file config config_loads

-- A system that keeps the last port bound and whether ::listen was called.
abbrev listening_os : Os
listening_os = record {
  State = Option ℕ × Bool;
  send = λ s h bs. (pos 0, s);
  recv = λ s h n. (got [], s);
  shutdown = λ s h. s;
  close = λ s h. s;
  set_timeout = λ s h seconds. (true, s);
  set_reuse = λ s h. (true, s);
  send_fits = λ s h bs. omega arith;
  recv_fits = λ s h n. omega arith;
}

abbrev listening : Listening listening_os
listening = record {
  socket = λ s. (pos 3, s);
  bind = λ s h port. (true, (some port, s.1));
  listen = λ s h clients. (true, (s.0, true));
}

abbrev system : IsListening listening_os listening
system = record {
  bound_to = λ s h. s.0;
  listens = λ s h. s.1;
  bind_binds = λ s h port e. refl;
  listen_keeps = λ s h clients. refl;
  listen_listens = λ s h clients e. refl;
}
