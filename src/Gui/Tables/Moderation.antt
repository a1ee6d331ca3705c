-- ===== src/Gui/Tables/Moderation.antt =====
-- The buttons for a ban against the server's handlers.
use messenger_cpp_r.Base.{
  false≢true, ℕ, ◌≡◌, refl, sym, ◌∙◌, inl, inr, Bool, true, false, some, List, [], ◌∷◌, ◌++◌, map,
  append-nil, arith, Bytes, lit, str_eq, All, all_of,
}
use mathlib.Core.List.{append_cancel_left}
use messenger_cpp_r.Server.Words.{no_space}
use messenger_cpp_r.Server.Words.Reading.{IsWord, read_word-space, read_word-last}
use messenger_cpp_r.Client.Parsing.{parse_named}
use messenger_cpp_r.Server.Command.{Command, ban, parse_command, one_word}
use messenger_cpp_r.Server.Database.{Env}
use messenger_cpp_r.Server.Database.Bans.{HasBan}
use messenger_cpp_r.Server.Handler.{World}
use messenger_cpp_r.Server.Handler.Commands.{handle_frame}
use messenger_cpp_r.Server.Handler.Moderation.{Complains, handle_ban-answer}
use messenger_cpp_r.Gui.Text.{Qt, IsQt, IsAscii}
use messenger_cpp_r.Gui.Tables.{UserRow, is_banned, toggle_command, succeeded}

one_word-last :
    (login : Bytes) (make : Bytes → Command)
    → IsWord login
    → one_word (32 ∷ login) make ≡ make login
one_word-last login make w = rw (read_word-space login, read_word-last login w) refl

parse_command-ban : (login : Bytes) → IsWord login → parse_command (lit "BAN " ++ login) ≡ ban login
unfolding all_of no_space str_eq
parse_command-ban login w =
    parse_named (lit "BAN") login (record { plain = refl; some_char = omega arith })
    ∙ one_word-last login ban w

module _ (qt : Qt) (laws : IsQt qt) where
  complaint-fails :
      (old new lines : List Bytes)
      → Complains old new
      → new ≡ old ++ lines
      → succeeded qt (some (map qt.from_utf8 lines)) ≡ false
  unfolding succeeded str_eq
  complaint-fails old new lines (inl same) e =
      let none_left : lines ≡ [] =
        append_cancel_left old lines [] (sym e ∙ same ∙ sym (append-nil old)) in
      rw none_left refl
  complaint-fails old new lines (inr (m, told)) e =
      let one : lines ≡ (b'E' ∷ m) ∷ [] = append_cancel_left old lines _ (sym e ∙ told) in
      rw one (rw (laws.from_utf8_ascii b'E' m (omega arith)) refl)

  -- The window takes a ban that it asked for as done only if the table of the server has the account
  -- banned. The response are the frames that the handler of its connection sent for the command,
  -- and the login of the row is one word of ASCII characters.
  pub toggle_ban-HasBan :
      (env : Env) (max_frame_size : ℕ) (takes : ℕ → Bool) (i : ℕ) (w : World) (row : UserRow)
      (lines : List Bytes)
      → IsWord row.login
      → All IsAscii row.login
      → is_banned qt row ≡ false
      → ((handle_frame env max_frame_size takes i (qt.to_utf8 (toggle_command qt row)) w).handlers
          i).sent
        ≡ (w.handlers i).sent ++ lines
      → succeeded qt (some (map qt.from_utf8 lines)) ≡ true
      → HasBan row.login
          (handle_frame env max_frame_size takes i (qt.to_utf8 (toggle_command qt row)) w).db.users
  unfolding handle_frame toggle_command
  toggle_ban-HasBan env max_frame_size takes i w row lines word ascii free =
      let line : qt.to_utf8 (toggle_command qt row) ≡ lit "BAN " ++ row.login = rw free (
        laws.to_utf8_ascii (lit "BAN " ++ row.login)
          (omega arith, (omega arith, (omega arith, (omega arith, ascii))))) in
      rw (line, parse_command-ban row.login word)
        (λ e done. elim (handle_ban-answer env max_frame_size takes i row.login w) [
          | inl banned_now ↦ banned_now
          | inr told ↦ absurd (false≢true (sym (complaint-fails _ _ lines told e) ∙ done))
        ])
