-- ===== src/Gui/Tables/Rows.antt =====
-- The rows that the window makes of the lines of the server.
use messenger_cpp_r.Base.{
  suc, ◌≡◌, refl, sym, ap, ◌∙◌, true, false, some, List, [], ◌∷◌, ◌++◌, arith, Bytes, lit, All,
  all_of, length, ltb,
}
use messenger_cpp_r.Server.Database.{
  Role, user, moderator, admin, Status, online, offline, banned, role_text, status_text,
  UserSummary, MessageRecord,
}
use messenger_cpp_r.Server.Handler.Commands.{spaced, user_line, message_line}
use messenger_cpp_r.Gui.Text.{QString, Qt, IsQt, not_space}
use messenger_cpp_r.Gui.Text.Lines.{
  IsPlain, starts-with, utf8_tail-ascii, split-spaced, split_some, from_utf8-spaced,
}
use messenger_cpp_r.Gui.Tables.{UserRow, MessageRow, user_row, message_row}

status_text-IsPlain : (x : Status) → IsPlain (status_text x)
unfolding all_of not_space
status_text-IsPlain online = record { ascii = omega arith; one_part = refl }
status_text-IsPlain offline = record { ascii = omega arith; one_part = refl }
status_text-IsPlain banned = record { ascii = omega arith; one_part = refl }

role_text-IsPlain : (x : Role) → IsPlain (role_text x)
unfolding all_of not_space
role_text-IsPlain user = record { ascii = omega arith; one_part = refl }
role_text-IsPlain moderator = record { ascii = omega arith; one_part = refl }
role_text-IsPlain admin = record { ascii = omega arith; one_part = refl }

lit_user-IsPlain : IsPlain (lit "USER")
unfolding all_of not_space
lit_user-IsPlain = record { ascii = omega arith; one_part = refl }

lit_msg-IsPlain : IsPlain (lit "MSG")
unfolding all_of not_space
lit_msg-IsPlain = record { ascii = omega arith; one_part = refl }

-- What the window shows of an account.
abbrev pub row_of : UserSummary → UserRow
row_of u = record {
  login = u.login;
  status = status_text u.status;
  role = role_text u.role;
  last_seen = u.last_seen;
}

-- What the window shows of a message; the text may lose what is not UTF-8.
abbrev pub row_of_message : Qt → MessageRecord → MessageRow
row_of_message qt m = record {
  sender = m.sender;
  recipient = m.receiver;
  text = qt.utf8_tail m.text;
  timestamp = m.created_at;
}

module _ (qt : Qt) (laws : IsQt qt) where
  abbrev user_words : UserSummary → List Bytes
  user_words u = u.login ∷ status_text u.status ∷ role_text u.role ∷ []

  user_words-IsPlain : (u : UserSummary) → IsPlain u.login → All IsPlain (lit "USER" ∷ user_words u)
  user_words-IsPlain u l =
      (lit_user-IsPlain, (l, (status_text-IsPlain u.status, (role_text-IsPlain u.role, tt))))

  pub from_utf8-user_line :
      (u : UserSummary)
      → IsPlain u.login
      → IsPlain u.last_seen
      → qt.from_utf8 (user_line u) ≡ user_line u
  from_utf8-user_line u l t =
      from_utf8-spaced qt laws 85 (lit "SER") (user_words u) u.last_seen (user_words-IsPlain u l)
      ∙ ap (λ x. spaced (lit "USER" ∷ user_words u ++ x ∷ []))
          (utf8_tail-ascii qt laws u.last_seen t.ascii)

  user_line-starts : (u : UserSummary) → qt.starts_with (user_line u) (lit "USER ") ≡ true
  unfolding spaced
  user_line-starts u =
      starts-with qt laws (lit "USER ")
        (u.login ++ 32 ∷ (status_text u.status ++ 32 ∷ (role_text u.role ++ 32 ∷ u.last_seen)))

  -- The line of an account, with a plain login and time, becomes its row.
  pub user_row-user_line :
      (u : UserSummary)
      → IsPlain u.login
      → IsPlain u.last_seen
      → user_row qt (qt.from_utf8 (user_line u)) ≡ some (row_of u)
  unfolding user_row
  user_row-user_line u l t =
      rw
        (
          from_utf8-user_line u l t,
          user_line-starts u,
          split-spaced qt laws (lit "USER" ∷ user_words u) u.last_seen (user_words-IsPlain u l),
          laws.split_last u.last_seen t.one_part,
        )
        refl

  abbrev message_words : MessageRecord → List Bytes
  message_words m = m.sender ∷ m.receiver ∷ m.created_at ∷ []

  message_line-starts :
      (m : MessageRecord) (t : QString)
      → qt.starts_with (spaced (lit "MSG" ∷ message_words m ++ t ∷ [])) (lit "MSG ") ≡ true
  unfolding spaced
  message_line-starts m t =
      starts-with qt laws (lit "MSG ")
        (m.sender ++ 32 ∷ (m.receiver ++ 32 ∷ (m.created_at ++ 32 ∷ t)))

  pub from_utf8-message_line :
      (m : MessageRecord)
      → IsPlain m.sender
      → IsPlain m.receiver
      → IsPlain m.created_at
      → qt.from_utf8 (message_line m)
        ≡ spaced (lit "MSG" ∷ message_words m ++ qt.utf8_tail m.text ∷ [])
  from_utf8-message_line m s r c =
      from_utf8-spaced qt laws 77 (lit "SG") (message_words m) m.text
        (lit_msg-IsPlain, (s, (r, (c, tt))))

  -- The line of a message, with plain logins and a plain time, becomes its row, spaces in the text
  -- included.
  pub message_row-message_line :
      (m : MessageRecord)
      → IsPlain m.sender
      → IsPlain m.receiver
      → IsPlain m.created_at
      → message_row qt (qt.from_utf8 (message_line m)) ≡ some (row_of_message qt m)
  unfolding message_row
  message_row-message_line m s r c =
      let words : All IsPlain (lit "MSG" ∷ message_words m) =
        (lit_msg-IsPlain, (s, (r, (c, tt)))) in
      let (p, ps, parts) = split_some qt laws (qt.utf8_tail m.text) in
      let joined : qt.join (p ∷ ps) ≡ qt.utf8_tail m.text =
        ap qt.join (sym parts) ∙ laws.join-split (qt.utf8_tail m.text) in
      let long : ltb (suc (suc (suc (suc (suc (length ps)))))) 5 ≡ false = ground arith in
      rw
        (
          from_utf8-message_line m s r c,
          message_line-starts m (qt.utf8_tail m.text),
          split-spaced qt laws (lit "MSG" ∷ message_words m) (qt.utf8_tail m.text) words,
          parts,
        )
        (rw (joined, long) refl)
