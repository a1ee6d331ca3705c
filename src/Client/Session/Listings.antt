-- ===== src/Client/Session/Listings.antt =====
-- Client::receiveLoop on the answers of ClientHandler::handleInbox and handleHistory.
use messenger_cpp_r.Base.{
  ℕ, ◌+◌, ◌≡◌, refl, sym, Bool, true, ◌&&◌, List, [], ◌∷◌, ◌++◌, map, append-nil, append_assoc,
  arith, Bytes, lit, length, leb, All, all_of, str_eq, ℤ, pos,
}
use messenger_cpp_r.Server.Words.{is_space, read_word, skip_spaces, span_word}
use messenger_cpp_r.Server.Words.Reading.{IsWord, no_newline}
use messenger_cpp_r.Server.Database.{Env, MessageRecord}
use messenger_cpp_r.Server.Database.Mailbox.{get_inbox, get_history}
use messenger_cpp_r.Server.Handler.{
  ClientHandler, World, set_handler, respond, respond_all, send_response, require_auth,
}
use messenger_cpp_r.Server.Handler.Commands.{
  answer_list, inbox_line, history_line, handle_inbox, handle_history,
}
use messenger_cpp_r.Client.Session.{
  Answer, inbox_begin, inbox_end, inbox_msg, history_begin, history_end, hist, parse_answer,
}
use messenger_cpp_r.Client.Session.Answers.{parse_answer-inbox, parse_answer-hist}

-- Sender, receiver and time are single words, and the text has no newline.
pub record IsReadable (m : MessageRecord) : Type 0 where
  pub sender : IsWord m.sender
  pub receiver : IsWord m.receiver
  pub created_at : IsWord m.created_at
  pub text : all_of no_newline m.text ≡ true

-- What the client makes of a message, the text behind one space.
abbrev pub inbox_answer : MessageRecord → Answer
inbox_answer m = inbox_msg m.sender m.created_at (32 ∷ m.text)

abbrev pub history_answer : MessageRecord → Answer
history_answer m = hist m.sender m.receiver m.created_at (32 ∷ m.text)

-- Each line, and the last frame, is read as meant.
read_lines :
    (line : MessageRecord → Bytes) (answer : MessageRecord → Answer)
    → ((m : MessageRecord) → IsReadable m → parse_answer (line m) ≡ answer m)
    → (ms : List MessageRecord) (last : Bytes) → All IsReadable ms
    → map parse_answer (map line ms ++ last ∷ []) ≡ map answer ms ++ parse_answer last ∷ []
read_lines line answer reads [] last h = refl
read_lines line answer reads (m ∷ ms) last (hm, h) =
    rw (reads m hm, read_lines line answer reads ms last h) refl

inbox_line-reads : (m : MessageRecord) → IsReadable m → parse_answer (inbox_line m) ≡ inbox_answer m
inbox_line-reads m h = parse_answer-inbox m.sender m.created_at m.text h.sender h.created_at h.text

history_line-reads :
    (m : MessageRecord) → IsReadable m → parse_answer (history_line m) ≡ history_answer m
history_line-reads m h =
    parse_answer-hist m.sender m.receiver m.created_at m.text h.sender h.receiver h.created_at
      h.text

module _ (i : ℕ) where
  -- The connection stays open and gets these frames.
  abbrev Gets : World → List Bytes → World → Type 0
  Gets w frames w' =
      ((w'.handlers i).connected ≡ true) × ((w'.handlers i).sent ≡ (w.handlers i).sent ++ frames)

  Gets-trans :
      (w v u : World) (xs ys : List Bytes) → Gets w xs v → Gets v ys u → Gets w (xs ++ ys) u
  Gets-trans w v u xs ys (open_v, e) (open_u, f) =
      (open_u, rw (f, e) (append_assoc (w.handlers i).sent xs ys))

  Gets-put :
      (h : ClientHandler) (p : Bytes) (w v : World)
      → h.connected ≡ true
      → h.sent ≡ (w.handlers i).sent ++ p ∷ []
      → v.handlers ≡ (set_handler i h w).handlers
      → Gets w (p ∷ []) v
  Gets-put h p w v open_h e same = rw same (ground arith)

module _ (env : Env) (max_frame_size : ℕ) (takes : ℕ → Bool) (i : ℕ)
    (open_net : (n : ℕ) → takes n ≡ true) where
  -- The frame fits, and the receiver's connection is open.
  abbrev pub Fits : Bytes → Type 0
  Fits p = leb (length p) max_frame_size ≡ true

  say-Gets :
      (p : Bytes) (w : World)
      → Fits p
      → (w.handlers i).connected ≡ true
      → Gets i w (p ∷ []) (respond env max_frame_size takes i p w)
  unfolding send_response
  say-Gets p w fits on =
      let sends : (leb (length p) max_frame_size && ((w.handlers i).connected && takes w.attempts))
          ≡ true =
        rw (fits, on, open_net w.attempts) refl in
      rw (respond, sends)
        (Gets-put i (record (w.handlers i) { sent = (w.handlers i).sent ++ p ∷ [] }) p w
          (record (set_handler i (record (w.handlers i) { sent = (w.handlers i).sent ++ p ∷ [] })
            w) { attempts = w.attempts + 1 })
          on refl refl)

  respond_all-Gets :
      (lines : List Bytes) (w : World)
      → All Fits lines
      → (w.handlers i).connected ≡ true
      → Gets i w lines (respond_all env max_frame_size takes i lines w)
  unfolding respond_all
  respond_all-Gets [] w fits on = (on, sym (append-nil (w.handlers i).sent))
  respond_all-Gets (p ∷ ps) w (fit, fits) on =
      let first = say-Gets p w fit on in
      let w1 = respond env max_frame_size takes i p w in
      Gets-trans i w w1 (respond_all env max_frame_size takes i ps w1) (p ∷ []) ps first
        (respond_all-Gets ps w1 fits first.0)

  answer_list-Gets :
      (first last : Bytes) (lines : List Bytes) (w : World)
      → Fits first
      → All Fits lines
      → Fits last
      → (w.handlers i).connected ≡ true
      → Gets i w
          (first ∷ lines ++ last ∷ [])
          (answer_list env max_frame_size takes i first lines last w)
  answer_list-Gets first last lines w fit fits fit' on =
      let w1 = respond env max_frame_size takes i first w in
      let w2 = respond_all env max_frame_size takes i lines w1 in
      let begun = say-Gets first w fit on in
      let listed = respond_all-Gets lines w1 fits begun.0 in
      let w3 = respond env max_frame_size takes i last w2 in
      let ended = say-Gets last w2 fit' listed.0 in
      Gets-trans i w w1 w3 (first ∷ []) (lines ++ last ∷ []) begun
        (Gets-trans i w1 w2 w3 lines (last ∷ []) listed ended)

  -- The frames that went out, and what the client makes of them.
  abbrev pub Reads : World → World → List Answer → Type 0
  Reads w w' answers =
      (frames : List Bytes) × ((w'.handlers i).sent ≡ (w.handlers i).sent ++ frames)
      × (map parse_answer frames ≡ answers)

  -- The rows that the two requests find.
  abbrev pub inbox_of : World → List MessageRecord
  inbox_of w = (get_inbox env w.db (w.handlers i).user_id (pos 100)).0

  abbrev pub history_of : Bytes → ℤ → ℤ → World → List MessageRecord
  history_of target limit offset w =
      (get_history env w.db (w.handlers i).user_id target limit offset).0

  handle_inbox-Reads :
      (w : World)
      → (w.handlers i).connected ≡ true
      → (w.handlers i).authed ≡ true
      → Fits (lit "INBOX_BEGIN")
      → All Fits (map inbox_line (inbox_of w))
      → Fits (lit "INBOX_END")
      → All IsReadable (inbox_of w)
      → Reads w
          (handle_inbox env max_frame_size takes i w)
          (inbox_begin ∷ map inbox_answer (inbox_of w) ++ inbox_end ∷ [])
  unfolding handle_inbox require_auth parse_answer read_word skip_spaces span_word is_space str_eq
  handle_inbox-Reads w on known begins fits ends readable =
      let (messages, db) = get_inbox env w.db (w.handlers i).user_id (pos 100) in
      let lines = map inbox_line messages in
      let got =
        answer_list-Gets (lit "INBOX_BEGIN") (lit "INBOX_END") lines (record w { db = db }) begins
          fits ends on in
      rw (known, handle_inbox)
        (
          lit "INBOX_BEGIN" ∷ lines ++ lit "INBOX_END" ∷ [],
          got.1,
          rw
              (read_lines inbox_line inbox_answer inbox_line-reads messages (lit "INBOX_END")
                readable)
              refl,
        )

  handle_history-Reads :
      (target : Bytes) (limit offset : ℤ) (w : World)
      → (w.handlers i).connected ≡ true
      → (w.handlers i).authed ≡ true
      → Fits (lit "HISTORY_BEGIN")
      → All Fits (map history_line (history_of target limit offset w))
      → Fits (lit "HISTORY_END")
      → All IsReadable (history_of target limit offset w)
      → Reads w (handle_history env max_frame_size takes i target limit offset w) (
          history_begin ∷ map history_answer (history_of target limit offset w) ++ history_end ∷ [])
  unfolding handle_history require_auth parse_answer read_word skip_spaces span_word is_space str_eq
  handle_history-Reads target limit offset w on known begins fits ends readable =
      let (messages, db) = get_history env w.db (w.handlers i).user_id target limit offset in
      let lines = map history_line messages in
      let got =
        answer_list-Gets (lit "HISTORY_BEGIN") (lit "HISTORY_END") lines (record w { db = db })
          begins fits ends on in
      rw (known, handle_history)
        (
          lit "HISTORY_BEGIN" ∷ lines ++ lit "HISTORY_END" ∷ [],
          got.1,
          rw
              (read_lines history_line history_answer history_line-reads messages
                (lit "HISTORY_END") readable)
              refl,
        )

  -- What handleInbox and handleHistory send to a logged-in user on a working connection is read by the
  -- client as its opening mark, the rows that getInbox or getHistory finds, each in its order with its
  -- sender, receiver (in a history), time and text behind one space, and its closing mark. The lines
  -- and the four marks fit in a frame; names and times are single words and texts have no newline.
  pub listings_are_read :
      (target : Bytes) (limit offset : ℤ) (w : World)
      → (w.handlers i).connected ≡ true
      → (w.handlers i).authed ≡ true
      → All Fits
          (lit "INBOX_BEGIN" ∷ lit "INBOX_END" ∷ lit "HISTORY_BEGIN" ∷ lit "HISTORY_END" ∷ [])
      → All Fits (map inbox_line (inbox_of w))
      → All Fits (map history_line (history_of target limit offset w))
      → All IsReadable (inbox_of w)
      → All IsReadable (history_of target limit offset w)
      → Reads w
          (handle_inbox env max_frame_size takes i w)
          (inbox_begin ∷ map inbox_answer (inbox_of w) ++ inbox_end ∷ [])
        × Reads w (handle_history env max_frame_size takes i target limit offset w) (
            history_begin ∷ map history_answer (history_of target limit offset w)
            ++ history_end ∷ [])
  listings_are_read target limit offset w on known (b, (e, (hb, (he, tt)))) fit_i fit_h read_i
        read_h =
      (
        handle_inbox-Reads w on known b fit_i e read_i,
        handle_history-Reads target limit offset w on known hb fit_h he read_h,
      )
