-- ===== src/Gui/Commands.antt =====
-- loginForCommand and sendCommandToServer of mainwindowserver.cpp: one connection for each command.
pub mod Responses
use messenger_cpp_r.Base.{
  ℕ, zero, suc, Bool, true, false, not, ◌||◌, Option, none, some, List, [], ◌∷◌, ◌++◌, lit, str_eq,
  is_empty, if◌then◌else◌,
}
use messenger_cpp_r.Gui.Text.{QString, Qt}
use messenger_cpp_r.Gui.Frames.{
  QTcpSocket, ReadFrame, frame, no_frame, stuck, send_frame, read_frame,
}

-- The login of the window and what its status line shows; the texts are those of updateServerStatus.
pub record Window : Type 0 where
  pub admin_login : QString
  pub admin_password : QString
  pub server_status : QString

module _ (qt : Qt) where
  unfoldable pub command_finished : QString → QString → Bool
  command_finished command line =
      if qt.starts_with command (lit "LIST")
      then str_eq line (lit "USERS_END")
      else if qt.starts_with command (lit "ALL_MESSAGES")
      then str_eq line (lit "ALL_MESSAGES_END")
      else str_eq line (lit "OK")
        || (qt.starts_with line (lit "ERROR_") || qt.starts_with line (lit "UNKNOWN_CMD"))

  module _ (sock : QTcpSocket) where
    open sock use {State}

    abbrev pub login_frame : Window → QString
    login_frame w = lit "LOGIN " ++ w.admin_login ++ 32 ∷ w.admin_password

    -- What the answer to the login says. No frame leaves the status as it was.
    unfoldable pub check_login : Window → ReadFrame → Bool × Window
    check_login w (frame response) =
        if qt.starts_with response (lit "LOGIN_OK")
        then (true, w)
        else (false, record w { server_status = lit "Admin login failed: " ++ response })
    check_login w no_frame = (false, w)
    check_login w stuck = (false, w)

    unfoldable pub login_for_command : Window → State → Bool × Window × State
    login_for_command w s =
        if is_empty w.admin_login || is_empty w.admin_password
        then (
          false,
          record w { server_status = lit "Missing CHAT_GUI_ADMIN_LOGIN/CHAT_GUI_ADMIN_PASSWORD" },
          s,
        )
        else let (sent, s1) = send_frame sock qt s (login_frame w) in
          let (answer, s2) = read_frame sock qt s1 in
          let (ok, w') = check_login w answer in if not sent then (false, w, s1) else (ok, w', s2)

    -- The lines up to the one that finishes the command, or to the first frame that does not come; `none`
    -- if `fuel` lines were not enough.
    unfoldable pub read_response : ℕ → QString → State → Option (List QString) × State
    read_response zero cmd s = (none, s)
    read_response (suc fuel) cmd s =
        let (answer, s1) = read_frame sock qt s in
        let (rest, s2) = read_response fuel cmd s1 in
        elim answer [
          | frame line ↦
              if command_finished cmd line
              then (some (line ∷ []), s1)
              else (elim rest [ none ↦ none | some lines ↦ some (line ∷ lines) ], s2)
          | no_frame ↦ (some [], s1)
          | stuck ↦ (none, s1)
        ]

    -- Behind a login that succeeded: the command, its response, LOGOUT.
    unfoldable pub converse : ℕ → QString → Window → State → Option (List QString) × Window × State
    converse fuel cmd w s =
        let (sent, s1) = send_frame sock qt s cmd in
        let (response, s2) = read_response fuel cmd s1 in
        if not sent
        then (none, record w { server_status = lit "Send failed" }, sock.disconnect_from_host s1)
        else (response, w, sock.disconnect_from_host (send_frame sock qt s2 (lit "LOGOUT")).1)

    -- `none` where the source returns false (or the fuel ran out), otherwise the response.
    unfoldable pub send_command_to_server :
        ℕ → QString → Window → State → Option (List QString) × Window × State
    send_command_to_server fuel cmd w s =
        let (connected, s1) = sock.wait_for_connected (sock.connect_to_host s) in
        let w1 = record w { server_status = lit "Connected" } in
        let (logged_in, w2, s2) = login_for_command w1 s1 in
        if not connected
        then (none, record w { server_status = lit "Disconnected" }, s1)
        else if not logged_in
        then (none, w2, sock.disconnect_from_host s2)
        else converse fuel cmd w2 s2
