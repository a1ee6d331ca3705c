-- ===== src/Tests/Accounts.antt =====
-- The database's theorems on two accounts.
use messenger_cpp_r.Base.{All}
use messenger_cpp_r.Server.Database.{MessageRecord, Db}
use messenger_cpp_r.Tests.Data.{alice, bob}
use messenger_cpp_r.Server.Database.Delivery.{new_record, get_inbox-send_message}
use messenger_cpp_r.Server.Database.Mailbox.{
  get_inbox, get_history, send_message, store_message, is_blank,
}
use messenger_cpp_r.Server.Database.Privacy.{Exchanged, listings_are_private}
use messenger_cpp_r.Base.{
  ◌≡◌, ◌≢◌, refl, ◌↔◌, ◌⊎◌, ◌≤◌, true, some, List, [], ◌∷◌, lit, arith, pos, length, any_of, all_of,
  str_eq,
}
use messenger_cpp_r.Server.Auth.{
  validate_password, is_alpha, is_digit, is_alnum, is_valid_login, is_login_char,
  validate_password_iff, is_valid_login_iff, scan_password,
}
use messenger_cpp_r.Server.Numbers.{stoi, value, to_string}
use messenger_cpp_r.Server.Numbers.RoundTrip.{stoi-to_string}
use messenger_cpp_r.Server.Database.{user, ok, find_login, find_id, runs, audit, update_where}
use messenger_cpp_r.Server.Database.Accounts.{ban_user, login_user, register_user, insert_user}
use messenger_cpp_r.Server.Database.Requests.{
  Request, registers, logs_in, unbans, sends, lifts, serve, serve_all,
}
use messenger_cpp_r.Server.Database.Invariant.{IsValid}
use messenger_cpp_r.Server.Database.Bans.{banned_cannot_login}
use messenger_cpp_r.Server.Database.Roles.{rights, serve_all-rights}
use messenger_cpp_r.Server.Database.Atomic.{SameRows, answer, serve-Atomic}
use messenger_cpp_r.Server.Database.Credentials.{login_user-register_user}
use messenger_cpp_r.Tests.Data.{env, env-IsCrypt, db, db-IsValid}

abbrev requests : List Request
requests =
    logs_in (lit "bob") (lit "Another456")
    ∷ unbans (pos 1) (lit "alice")
    ∷ registers (lit "carol") (lit "Correct123")
    ∷ []

banned_cannot_login_example :
    (login_user env
      (serve_all env (ban_user env db (pos 1) (lit "bob")).1 requests)
      (lit "bob")
      (lit "Another456")).0.status
    ≢ ok
unfolding ban_user runs audit find_login find_id str_eq all_of lifts update_where
banned_cannot_login_example =
    banned_cannot_login env db (pos 1) (lit "bob") (lit "Another456") requests db-IsValid refl
      (refl, (refl, (refl, tt)))

serve_all-rights_example :
    rights (find_id (pos 2) (serve_all env db requests).users) ≡ rights (find_id (pos 2) db.users)
serve_all-rights_example = serve_all-rights env db requests (pos 2)

login_user-register_user_example :
    ((login_user env
        (register_user env db (lit "carol") (lit "Correct123")).1
        (lit "carol")
        (lit "Correct123")).0.status
      ≡ ok)
    × ((login_user env
          (register_user env db (lit "carol") (lit "Correct123")).1
          (lit "carol")
          (lit "Correct123")).0.user_id
        ≡ pos 3)
    × ((login_user env
          (register_user env db (lit "carol") (lit "Correct123")).1
          (lit "carol")
          (lit "Correct123")).0.role
        ≡ some user)
unfolding register_user is_valid_login is_login_char is_alnum is_alpha is_digit validate_password
    scan_password runs audit find_login find_id str_eq all_of insert_user
login_user-register_user_example =
    login_user-register_user env db (lit "carol") (lit "Correct123") env-IsCrypt db-IsValid refl
      refl

serve-Atomic_example :
    (answer env db (sends (pos 1) (lit "nobody") (lit "hi")) ≡ some ok)
    ⊎ SameRows db (serve env db (sends (pos 1) (lit "nobody") (lit "hi")))
serve-Atomic_example = serve-Atomic env db (sends (pos 1) (lit "nobody") (lit "hi"))

validate_password_iff_example : ((validate_password (lit "Correct123")).ok ≡ true) ↔ (
    (10 ≤ length (lit "Correct123"))
    × (any_of is_alpha (lit "Correct123") ≡ true)
    × (any_of is_digit (lit "Correct123") ≡ true))
validate_password_iff_example = validate_password_iff (lit "Correct123")

is_valid_login_iff_example : (is_valid_login (lit "a b") ≡ true) ↔ (
    (3 ≤ length (lit "a b"))
    × (length (lit "a b") ≤ 50)
    × (all_of is_login_char (lit "a b") ≡ true))
is_valid_login_iff_example = is_valid_login_iff (lit "a b")

stoi-to_string_example : stoi (to_string 4050) ≡ value (pos 4050)
stoi-to_string_example = stoi-to_string 4050 (omega arith)

-- Two messages between alice and bob.
abbrev mail : Db
mail = record db {
  messages =
      record { id = 1; sender_id = 1; receiver_id = 2; text = lit "hi"; created_at = 5 }
      ∷ record { id = 2; sender_id = 2; receiver_id = 1; text = lit "hello"; created_at = 6 }
      ∷ [];
  next_message_id = 3;
}

mail-IsValid : IsValid mail
unfolding find_id
mail-IsValid = record {
  logins = db-IsValid.logins;
  distinct = db-IsValid.distinct;
  fresh = db-IsValid.fresh;
  stored = (
    (omega arith, (λ e. cc), (λ e. cc), omega arith, omega arith),
    ((omega arith, (λ e. cc), (λ e. cc), omega arith, omega arith), tt),
  );
}

listings_are_private_example :
    (All (λ r. MessageRecord.receiver r ≡ lit "bob") (get_inbox env mail (pos 2) (pos 50)).0
      × (length (get_inbox env mail (pos 2) (pos 50)).0 ≤ 500))
    × (All
          (Exchanged (lit "bob") (lit "alice"))
          (get_history env mail (pos 2) (lit "alice") (pos 50) (pos 0)).0
        × (length (get_history env mail (pos 2) (lit "alice") (pos 50) (pos 0)).0 ≤ 500))
unfolding find_id
listings_are_private_example =
    listings_are_private env mail bob (lit "alice") (pos 50) (pos 0) mail-IsValid refl

-- The same tables after nine transactions.
abbrev later : Db
later = record mail { txns = 9 }

later-IsValid : IsValid later
later-IsValid = record {
  logins = mail-IsValid.logins;
  distinct = mail-IsValid.distinct;
  fresh = mail-IsValid.fresh;
  stored = mail-IsValid.stored;
}

get_inbox-send_message_example :
    (rest : List MessageRecord) × ((get_inbox env
        (send_message env later (pos 1) (lit "bob") (lit "again")).1
        (pos 2)
        (pos 1)).0
      ≡ new_record env later alice bob (lit "again") ∷ rest)
    × (lit "bob" ≡ lit "bob")
unfolding find_id find_login str_eq send_message store_message runs all_of is_blank
get_inbox-send_message_example =
    get_inbox-send_message env later alice bob (lit "bob") (lit "again") (pos 1) later-IsValid refl
      refl (omega arith, (omega arith, tt)) refl refl
