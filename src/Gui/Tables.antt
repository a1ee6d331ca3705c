-- ===== src/Gui/Tables.antt =====
-- The two tables of the window: how the answers fill them, what the filters hide, and what the buttons
-- for a ban and a kick do to a row.
pub mod Rows
pub mod Answers
pub mod UserList
pub mod MessageList
pub mod Moderation
use messenger_cpp_r.Base.{
  ℕ, zero, suc, Bool, true, false, not, ◌&&◌, Option, none, some, List, [], ◌∷◌, ◌++◌, lit, str_eq,
  length, drop, ltb, if◌then◌else◌,
}
use messenger_cpp_r.Gui.Text.{QString, Qt}

pub record UserRow : Type 0 where
  pub login : QString
  pub status : QString
  pub role : QString
  pub last_seen : QString

pub record MessageRow : Type 0 where
  pub sender : QString
  pub recipient : QString
  pub text : QString
  pub timestamp : QString

-- QStringList::value, empty out of range
abbrev pub value : List QString → ℕ → QString
value [] n = []
value (p ∷ ps) zero = p
value (p ∷ ps) (suc n) = value ps n

abbrev pub collect {ℓ} : {A : Type ℓ} → (QString → Option A) → List QString → List A
collect row [] = []
collect row (line ∷ lines) = elim (row line) [
  | none ↦ collect row lines
  | some r ↦ r ∷ collect row lines
]

module _ (qt : Qt) where
  unfoldable pub user_row : QString → Option UserRow
  user_row line =
      let parts = qt.split line in
      if not (qt.starts_with line (lit "USER "))
      then none
      else if ltb (length parts) 4
      then none
      else some (record {
        login = value parts 1;
        status = value parts 2;
        role = value parts 3;
        last_seen = value parts 4;
      })

  unfoldable pub message_row : QString → Option MessageRow
  message_row line =
      let parts = qt.split line in
      if not (qt.starts_with line (lit "MSG "))
      then none
      else if ltb (length parts) 5
      then none
      else some (record {
        sender = value parts 1;
        recipient = value parts 2;
        text = qt.join (drop 4 parts);
        timestamp = value parts 3;
      })

  -- The tables after a refresh, whose command gave these lines, or failed.
  unfoldable pub update_users : Option (List QString) → List UserRow → List UserRow
  update_users none table = table
  update_users (some lines) table = collect user_row lines

  unfoldable pub update_messages : Option (List QString) → List MessageRow → List MessageRow
  update_messages none table = table
  update_messages (some lines) table = collect message_row lines

  -- Whether the filter leaves a row visible; setRowHidden takes the negation.
  unfoldable pub shows_user : QString → QString → UserRow → Bool
  shows_user login_text status_text row =
      let login_filter = qt.to_lower (qt.trimmed login_text) in
      let status_filter = qt.to_lower status_text in
      let matches_status =
        if str_eq status_filter (lit "all")
        then true
        else str_eq (qt.to_lower row.status) status_filter in
      qt.contains (qt.to_lower row.login) login_filter && matches_status

  unfoldable pub matches_date : QString → QString → Bool
  matches_date date_filter timestamp =
      if str_eq date_filter (lit "All") then true else elim (qt.plain_date date_filter) [
        | none ↦ false
        | some filter_date ↦ elim (qt.iso_date timestamp) [
          | none ↦ false
          | some message_date ↦ str_eq filter_date message_date
        ]
      ]

  unfoldable pub shows_message : QString → QString → QString → QString → MessageRow → Bool
  shows_message sender_text receiver_text text date_filter row =
      qt.contains (qt.to_lower row.sender) (qt.to_lower (qt.trimmed sender_text))
      && (qt.contains (qt.to_lower row.recipient) (qt.to_lower (qt.trimmed receiver_text))
          && (qt.contains (qt.to_lower row.text) (qt.to_lower (qt.trimmed text))
              && matches_date date_filter row.timestamp))

  -- response[0] == "OK"
  unfoldable pub succeeded : Option (List QString) → Bool
  succeeded none = false
  succeeded (some []) = false
  succeeded (some (line ∷ lines)) = str_eq line (lit "OK")

  unfoldable pub is_banned : UserRow → Bool
  is_banned row = str_eq (qt.to_lower row.status) (lit "banned")

  unfoldable pub toggle_command : UserRow → QString
  unfolding is_banned
  toggle_command row = (if is_banned row then lit "UNBAN " else lit "BAN ") ++ row.login

  -- The row after the response to its command.
  unfoldable pub toggle_ban : Option (List QString) → UserRow → UserRow
  unfolding is_banned succeeded
  toggle_ban response row =
      if succeeded response
      then record row { status = if is_banned row then lit "offline" else lit "banned" }
      else row

  unfoldable pub kick_command : UserRow → QString
  kick_command row = lit "KICK " ++ row.login

  unfoldable pub kick_user : Option (List QString) → UserRow → UserRow
  unfolding succeeded
  kick_user response row = if succeeded response then record row { status = lit "offline" } else row
