-- ===== src/Tests/Data.antt =====
-- Tables, handlers and a network for the examples.
use messenger_cpp_r.Base.{
  ℕ, refl, Bool, true, none, some, [], ◌∷◌, lit, arith, ◌==◌, if◌then◌else◌, pos, str_eq, all_of,
}
use messenger_cpp_r.Server.Auth.{is_valid_login, is_login_char, is_alnum, is_alpha, is_digit}
use messenger_cpp_r.Server.Database.{user, moderator, offline, User, Db, Env, find_login, find_id}
use messenger_cpp_r.Server.Database.Credentials.{IsCrypt}
use messenger_cpp_r.Server.Database.Invariant.{IsValid}
use messenger_cpp_r.Server.Handler.{ClientHandler, World, new_handler}

-- A database whose crypt() keeps the password as it is.
abbrev pub env : Env
env = record {
  up = λ n. true;
  now = λ n. n;
  gen_salt = λ n. [];
  is_text = λ s. true;
  crypt = λ p s. p;
  to_char = λ n. n ∷ [];
  login_le = λ a b. true;
}

pub env-IsCrypt : IsCrypt env
env-IsCrypt = record { stable = λ p s. refl }

abbrev pub alice : User
alice = record {
  id = 1;
  login = lit "alice";
  password_hash = lit "Correct123";
  role = moderator;
  status = offline;
  last_seen = none;
}

abbrev pub bob : User
bob = record {
  id = 2;
  login = lit "bob";
  password_hash = lit "Another456";
  role = user;
  status = offline;
  last_seen = none;
}

abbrev pub db : Db
db = record {
  users = alice ∷ bob ∷ [];
  messages = [];
  audits = [];
  next_user_id = 3;
  next_message_id = 1;
  txns = 0;
}

pub db-IsValid : IsValid db
unfolding is_valid_login is_login_char is_alnum is_alpha is_digit all_of find_login find_id str_eq
db-IsValid = record {
  logins = (refl, (refl, tt));
  distinct = (refl, refl, (refl, refl, tt));
  fresh = (omega arith, (omega arith, tt));
  stored = tt;
}

-- Handler 0 is bob's, handler 1 alice's; the others are not logged in.
abbrev pub handlers : ℕ → ClientHandler
handlers i =
    if i == 0
    then record new_handler {
      authed = true;
      user_id = pos 2;
      username = lit "bob";
      role = some user;
    }
    else if i == 1
    then record new_handler {
      authed = true;
      user_id = pos 1;
      username = lit "alice";
      role = some moderator;
    }
    else new_handler

abbrev pub fresh : World
fresh = record { db = db; sessions = []; handlers = λ i. new_handler; attempts = 0 }

abbrev pub world : World
world = record {
  db = db;
  sessions = (pos 2, 0 ∷ []) ∷ (pos 1, 1 ∷ []) ∷ [];
  handlers = handlers;
  attempts = 0;
}

-- The network takes the first frame only.
abbrev pub takes : ℕ → Bool
takes n = n == 0
