-- ===== src/Gui/Tables/MessageList.antt =====
-- The answer to ALL_MESSAGES, from the server's table to the rows of the window.
use messenger_cpp_r.Base.{
  subst, ℕ, ◌+◌, ◌≤◌, ◌<◌, ◌≡◌, refl, ap, ◌∙◌, inl, inr, true, false, none, some, Bool-cases, List,
  [], ◌∷◌, ◌++◌, map, arith, Bytes, lit, str_eq, All, length, length-append, ℤ, pos, eqb_ℤ,
}
use messenger_cpp_r.Server.Database.{User, Message, Db, Env, MessageRecord, find_id, runs}
use messenger_cpp_r.Server.Database.Mailbox.{get_all_messages, newest_first, clamp_limit}
use messenger_cpp_r.Server.Database.Privacy.{All-take, All-order_by, Shows, join-All}
use messenger_cpp_r.Server.Database.Invariant.{IsValid, Stored}
use messenger_cpp_r.Server.Handler.Commands.{spaced, message_line}
use messenger_cpp_r.Tcp.Frame.{encode_frame}
use messenger_cpp_r.Tcp.Protocol.Receiving.{IsSource}
use messenger_cpp_r.Gui.Text.{QString, Qt, IsQt}
use messenger_cpp_r.Gui.Text.Lines.{IsPlain, from_utf8-ascii, not-starts}
use messenger_cpp_r.Gui.Frames.{QTcpSocket, max_frame_size}
use messenger_cpp_r.Gui.Frames.Agreement.{as_socket}
use messenger_cpp_r.Gui.Commands.{command_finished, read_response}
use messenger_cpp_r.Gui.Commands.Responses.{wire, read_response-wire}
use messenger_cpp_r.Gui.Tables.{MessageRow, collect, update_messages, message_row}
use messenger_cpp_r.Gui.Tables.Answers.{IsTime, IsLogin-valid, map-All, length-map, collect-lines}
use messenger_cpp_r.Gui.Tables.Rows.{
  row_of_message, from_utf8-message_line, message_row-message_line,
}

-- A message as ALL_MESSAGES shows it.
record ShownMessage (m : MessageRecord) : Type 0 where
  sender : IsPlain m.sender × (length m.sender ≤ 50)
  receiver : IsPlain m.receiver × (length m.receiver ≤ 50)
  created_at : IsTime m.created_at
  text : length m.text ≤ 4096

length-message_line :
    (m : MessageRecord) → ShownMessage m → length (message_line m) ≤ max_frame_size
unfolding spaced
length-message_line m h = omega (arith, length-append {0})

find_id-All :
    (P : User → Type 0) (i : ℤ) (us : List User) (u : User) → find_id i us ≡ some u → All P us → P u
unfolding find_id
find_id-All P i [] u e h = absurd (ground arith)
find_id-All P i (v ∷ us) u e (hv, h) = elim (Bool-cases (eqb_ℤ (pos v.id) i)) [
  | inl here ↦ let same : v ≡ u = ground arith in subst P same hv
  | inr there ↦ find_id-All P i us u (rw (there, find_id) at e) h
]

module _ (qt : Qt) (laws : IsQt qt) where
  all_messages-finished :
      (line : QString)
      → command_finished qt (lit "ALL_MESSAGES 200") line ≡ str_eq line (lit "ALL_MESSAGES_END")
  unfolding command_finished
  all_messages-finished line =
      rw
        (
          not-starts qt laws (lit "ALL_MESSAGES 200") (lit "LIST") (λ rest e. ground arith),
          (laws.starts_with_iff (lit "ALL_MESSAGES 200") (lit "ALL_MESSAGES")).1 (lit " 200", refl),
        )
        refl

  message_line-open :
      (m : MessageRecord)
      → ShownMessage m
      → command_finished qt (lit "ALL_MESSAGES 200") (qt.from_utf8 (message_line m)) ≡ false
  unfolding str_eq spaced
  message_line-open m h =
      all_messages-finished (qt.from_utf8 (message_line m))
      ∙ ap (λ x. str_eq x (lit "ALL_MESSAGES_END"))
          (from_utf8-message_line qt laws m h.sender.0 h.receiver.0 h.created_at.0)

  messages_begin :
      (message_row qt (qt.from_utf8 (lit "ALL_MESSAGES_BEGIN")) ≡ none)
      × (command_finished qt (lit "ALL_MESSAGES 200") (qt.from_utf8 (lit "ALL_MESSAGES_BEGIN"))
          ≡ false)
  unfolding message_row str_eq
  messages_begin =
      rw
        (
          all_messages-finished (qt.from_utf8 (lit "ALL_MESSAGES_BEGIN")),
          from_utf8-ascii qt laws 65 (lit "LL_MESSAGES_BEGIN") (omega arith),
          not-starts qt laws (lit "ALL_MESSAGES_BEGIN") (lit "MSG ") (λ rest e. ground arith),
        )
        (refl, refl)

  messages_end :
      (message_row qt (qt.from_utf8 (lit "ALL_MESSAGES_END")) ≡ none)
      × (command_finished qt (lit "ALL_MESSAGES 200") (qt.from_utf8 (lit "ALL_MESSAGES_END"))
          ≡ true)
  unfolding message_row str_eq
  messages_end =
      rw
        (
          all_messages-finished (qt.from_utf8 (lit "ALL_MESSAGES_END")),
          from_utf8-ascii qt laws 65 (lit "LL_MESSAGES_END") (omega arith),
          not-starts qt laws (lit "ALL_MESSAGES_END") (lit "MSG ") (λ rest e. ground arith),
        )
        (refl, refl)

module _ (env : Env) (db : Db) (times : (t : ℕ) → IsTime (env.to_char t)) (valid : IsValid db) where
  joined-ShownMessage :
      (m : Message) (r : MessageRecord)
      → Stored db.users db.next_message_id m
      → Shows env db.users m r
      → ShownMessage r
  joined-ShownMessage m r stored ((s, e, sn), (t, f, tn), text, time) =
      let login : (u : User) (i : ℤ)
          → find_id i db.users ≡ some u
          → IsPlain u.login × (length u.login ≤ 50) =
        λ u i g. IsLogin-valid u.login (find_id-All _ i db.users u g valid.logins) in
      record {
        sender = rw sn (login s (pos m.sender_id) e);
        receiver = rw tn (login t (pos m.receiver_id) f);
        created_at = rw time (times m.created_at);
        text = rw text stored.4;
      }

  get_all_messages-ShownMessage : (limit : ℤ) → All ShownMessage (get_all_messages env db limit).0
  unfolding get_all_messages
  get_all_messages-ShownMessage limit = elim (Bool-cases (runs env db [])) [
    | inr down ↦ rw down tt
    | inl up ↦ rw up (
        All-take ShownMessage (clamp_limit limit) _ (
          join-All env db.users (Stored db.users db.next_message_id) ShownMessage
            joined-ShownMessage _ (All-order_by _ newest_first db.messages valid.stored)))
  ]

-- What the window's table of messages shows after ALL_MESSAGES 200: in valid tables, with times as
-- to_char prints them, when the lines of handleAllMessages arrive on the socket as frames, however cut,
-- and as many lines as there are may be read, then the table's rows are exactly the messages of
-- getAllMessages, in their order, each with its sender, receiver, time and text, spaces included, as
-- fromUtf8 reads it, and what follows on the socket is left.
pub update_messages-get_all_messages :
    (qt : Qt) (laws : IsQt qt) (sock : QTcpSocket) (source : IsSource (as_socket sock)) (env : Env)
    (db : Db) (rest : Bytes) (fuel : ℕ) (s : QTcpSocket.State sock) (table : List MessageRow)
    → ((t : ℕ) → IsTime (env.to_char t))
    → IsValid db
    → length (get_all_messages env db (pos 200)).0 + 1 < fuel
    → IsSource.pending source s
      ≡ wire (lit "ALL_MESSAGES_BEGIN" ∷ map message_line (get_all_messages env db (pos 200)).0)
        ++ (encode_frame (lit "ALL_MESSAGES_END") ++ rest)
    → (update_messages qt (read_response qt sock fuel (lit "ALL_MESSAGES 200") s).0 table
        ≡ map (row_of_message qt) (get_all_messages env db (pos 200)).0)
      × (IsSource.pending source (read_response qt sock fuel (lit "ALL_MESSAGES 200") s).1 ≡ rest)
unfolding update_messages
update_messages-get_all_messages qt laws sock source env db rest fuel s table times valid enough e =
    let shown = get_all_messages-ShownMessage env db times valid (pos 200) in
    let (skip_begin, begin_open) = messages_begin qt laws in
    let (skip_end, end_done) = messages_end qt laws in
    let (lines, left) =
      read_response-wire qt sock source (lit "ALL_MESSAGES 200")
        (lit "ALL_MESSAGES_BEGIN" ∷ map message_line (get_all_messages env db (pos 200)).0)
        (lit "ALL_MESSAGES_END") rest fuel s
        (omega arith, map-All ShownMessage _ message_line length-message_line _ shown) (omega arith)
        (begin_open, map-All ShownMessage _ message_line (message_line-open qt laws) _ shown)
        end_done (omega (arith, length-map message_line (get_all_messages env db (pos 200)).0)) e in
    (
      rw lines (
          rw (skip_begin, collect)
            (collect-lines qt (message_row qt) (row_of_message qt) ShownMessage message_line
              (lit "ALL_MESSAGES_END")
              (λ m h. message_row-message_line qt laws m h.sender.0 h.receiver.0 h.created_at.0)
              skip_end _ shown)),
      left,
    )
