-- ===== src/Gui/Tables/UserList.antt =====
-- The answer to LIST, from the server's table to the rows of the window.
use messenger_cpp_r.Base.{
  ℕ, ◌+◌, ◌≤◌, ◌<◌, ◌≡◌, refl, ◌∙◌, inl, inr, true, false, Option, none, some, Bool-cases, List, [],
  ◌∷◌, ◌++◌, map, arith, Bytes, lit, str_eq, All, all_of, length, length-append,
}
use messenger_cpp_r.Server.Auth.{is_valid_login}
use messenger_cpp_r.Server.Database.{User, Db, Env, UserSummary, runs}
use messenger_cpp_r.Server.Database.Mailbox.{summary, list_users}
use messenger_cpp_r.Server.Database.Privacy.{All-order_by}
use messenger_cpp_r.Server.Database.Invariant.{IsValid}
use messenger_cpp_r.Server.Handler.Commands.{spaced, user_line}
use messenger_cpp_r.Tcp.Frame.{encode_frame}
use messenger_cpp_r.Tcp.Protocol.Receiving.{IsSource}
use messenger_cpp_r.Gui.Text.{QString, Qt, IsQt}
use messenger_cpp_r.Gui.Text.Lines.{IsPlain, from_utf8-ascii, not-starts}
use messenger_cpp_r.Gui.Frames.{QTcpSocket, max_frame_size}
use messenger_cpp_r.Gui.Frames.Agreement.{as_socket}
use messenger_cpp_r.Gui.Commands.{command_finished, read_response}
use messenger_cpp_r.Gui.Commands.Responses.{wire, read_response-wire}
use messenger_cpp_r.Gui.Tables.{UserRow, collect, update_users, user_row}
use messenger_cpp_r.Gui.Tables.Answers.{
  IsTime, IsLogin-valid, length-status_text, length-role_text, map-All, length-map, collect-lines,
}
use messenger_cpp_r.Gui.Tables.Rows.{row_of, from_utf8-user_line, user_row-user_line}

-- An account as LIST shows it.
record ShownUser (u : UserSummary) : Type 0 where
  login : IsPlain u.login × (length u.login ≤ 50)
  last_seen : IsTime u.last_seen

length-user_line : (u : UserSummary) → ShownUser u → length (user_line u) ≤ max_frame_size
unfolding spaced
length-user_line u h =
    omega (arith, length-append {0}, length-status_text u.status, length-role_text u.role)

module _ (qt : Qt) (laws : IsQt qt) where
  list-finished :
      (line : QString) → command_finished qt (lit "LIST") line ≡ str_eq line (lit "USERS_END")
  unfolding command_finished
  list-finished line = rw ((laws.starts_with_iff (lit "LIST") (lit "LIST")).1 ([], refl)) refl

  user_line-open :
      (u : UserSummary)
      → ShownUser u
      → command_finished qt (lit "LIST") (qt.from_utf8 (user_line u)) ≡ false
  unfolding str_eq spaced
  user_line-open u h =
      list-finished (qt.from_utf8 (user_line u))
      ∙ rw (from_utf8-user_line qt laws u h.login.0 h.last_seen.0) refl

  users_begin :
      (user_row qt (qt.from_utf8 (lit "USERS_BEGIN")) ≡ none)
      × (command_finished qt (lit "LIST") (qt.from_utf8 (lit "USERS_BEGIN")) ≡ false)
  unfolding user_row str_eq
  users_begin =
      rw
        (
          list-finished (qt.from_utf8 (lit "USERS_BEGIN")),
          from_utf8-ascii qt laws 85 (lit "SERS_BEGIN") (omega arith),
          not-starts qt laws (lit "USERS_BEGIN") (lit "USER ") (λ rest e. ground arith),
        )
        (refl, refl)

  users_end :
      (user_row qt (qt.from_utf8 (lit "USERS_END")) ≡ none)
      × (command_finished qt (lit "LIST") (qt.from_utf8 (lit "USERS_END")) ≡ true)
  unfolding user_row str_eq
  users_end =
      rw
        (
          list-finished (qt.from_utf8 (lit "USERS_END")),
          from_utf8-ascii qt laws 85 (lit "SERS_END") (omega arith),
          not-starts qt laws (lit "USERS_END") (lit "USER ") (λ rest e. ground arith),
        )
        (refl, refl)

  summary-ShownUser :
      (env : Env) (u : User)
      → ((t : ℕ) → IsTime (env.to_char t))
      → is_valid_login u.login ≡ true
      → ShownUser (summary env u)
  unfolding all_of
  summary-ShownUser env u times valid = record {
    login = IsLogin-valid u.login valid;
    last_seen = seen u.last_seen;
  }
    where
      seen : (t : Option ℕ) → IsTime (elim t [ none ↦ [] | some x ↦ env.to_char x ])
      seen none = (record { ascii = tt; one_part = refl }, omega arith)
      seen (some x) = times x

  list_users-ShownUser :
      (env : Env) (db : Db)
      → ((t : ℕ) → IsTime (env.to_char t))
      → IsValid db
      → All ShownUser (list_users env db).0
  unfolding list_users
  list_users-ShownUser env db times valid = elim (Bool-cases (runs env db [])) [
    | inr down ↦ rw down tt
    | inl up ↦ rw up (
        map-All (λ u. is_valid_login (User.login u) ≡ true) ShownUser (summary env)
          (λ u. summary-ShownUser env u times) _
          (All-order_by _ (λ u v. env.login_le u.login v.login) db.users valid.logins))
  ]

-- What the window's table of accounts shows after LIST: in valid tables, with times as to_char prints
-- them, when the lines of handleList arrive on the socket as frames, however cut, and as many lines as
-- there are may be read, then the table's rows are exactly the accounts of listUsers, in their order,
-- each with its login, status, role and time, and what follows on the socket is left.
pub update_users-list_users :
    (qt : Qt) (laws : IsQt qt) (sock : QTcpSocket) (source : IsSource (as_socket sock)) (env : Env)
    (db : Db) (rest : Bytes) (fuel : ℕ) (s : QTcpSocket.State sock) (table : List UserRow)
    → ((t : ℕ) → IsTime (env.to_char t))
    → IsValid db
    → length (list_users env db).0 + 1 < fuel
    → IsSource.pending source s
      ≡ wire (lit "USERS_BEGIN" ∷ map user_line (list_users env db).0)
        ++ (encode_frame (lit "USERS_END") ++ rest)
    → (update_users qt (read_response qt sock fuel (lit "LIST") s).0 table
        ≡ map row_of (list_users env db).0)
      × (IsSource.pending source (read_response qt sock fuel (lit "LIST") s).1 ≡ rest)
unfolding update_users
update_users-list_users qt laws sock source env db rest fuel s table times valid enough e =
    let shown = list_users-ShownUser qt laws env db times valid in
    let (skip_begin, begin_open) = users_begin qt laws in
    let (skip_end, end_done) = users_end qt laws in
    let (lines, left) =
      read_response-wire qt sock source (lit "LIST")
        (lit "USERS_BEGIN" ∷ map user_line (list_users env db).0) (lit "USERS_END") rest fuel s
        (omega arith, map-All ShownUser _ user_line length-user_line _ shown) (omega arith)
        (begin_open, map-All ShownUser _ user_line (user_line-open qt laws) _ shown) end_done
        (omega (arith, length-map user_line (list_users env db).0)) e in
    (
      rw lines (
          rw (skip_begin, collect)
            (collect-lines qt (user_row qt) row_of ShownUser user_line (lit "USERS_END")
              (λ u h. user_row-user_line qt laws u h.login.0 h.last_seen.0) skip_end _ shown)),
      left,
    )
