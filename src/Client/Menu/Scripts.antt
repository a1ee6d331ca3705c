-- ===== src/Client/Menu/Scripts.antt =====
-- Sessions of Client::run: what is typed, the frames that go out, and what the server is asked.
use messenger_cpp_r.Base.{
  ◌≡◌, refl, sym, subst, ap, ◌∙◌, true, List, [], ◌∷◌, ◌++◌, map, append-nil, append_assoc, arith,
  Bytes, is_empty,
}
use messenger_cpp_r.Server.Command.{parse_command}
use messenger_cpp_r.Tcp.Protocol
use messenger_cpp_r.Client.Session.{ClientState, receive_turn, send_command, log_in}
use messenger_cpp_r.Client.Session
use messenger_cpp_r.Client.Menu.{Console, ClientEvent, main_goes_on, receives, client_step, run}
use messenger_cpp_r.Client.Menu.Dialogs.{
  Dialog, typed, asked, before_login, IsTyped, frame, frame-asked, console, after, dialog-after,
  after-sent,
}
use messenger_cpp_r.Tcp.Protocol.{ReceiveFrameStatus}
use messenger_cpp_r.Client.Session.{receive_answer, update_user, parse_answer}

-- A dialog, and the frames of the server before the next.
abbrev pub Exchange : Type 0
Exchange = Dialog × List Bytes

-- What is typed, and what happens.
abbrev pub script : List Exchange → Bytes → Bytes
script [] rest = rest
script ((d, lines) ∷ ts) rest = typed d (script ts rest)

abbrev pub events : List Exchange → List ClientEvent
events [] = []
events ((d, lines) ∷ ts) =
    main_goes_on true ∷ main_goes_on true ∷ map (receives Protocol.ok) lines ++ events ts

-- The client runs whenever a dialog begins, and is logged in exactly where the dialog needs it.
abbrev pub Suits : List Exchange → Console → Type 0
Suits [] c = Unit
Suits ((d, lines) ∷ ts) c =
    IsTyped d
    × (c.client.running ≡ true)
    × (is_empty c.client.current_user ≡ before_login d)
    × Suits ts (run (events ((d, lines) ∷ [])) c)

run-append : (xs ys : List ClientEvent) (c : Console) → run (xs ++ ys) c ≡ run ys (run xs c)
unfolding run
run-append [] ys c = refl
run-append (x ∷ xs) ys c = run-append xs ys (client_step x c)

receive_turn-sent :
    (status : ReceiveFrameStatus) (line : Bytes) (c : ClientState)
    → (receive_turn status line c).sent ≡ c.sent
unfolding receive_turn receive_answer update_user Session.set_current_user
    Session.clear_current_user
receive_turn-sent Protocol.ok line c = answered (parse_answer line)
  where
    answered : (a : Session.Answer) → (receive_answer a c).sent ≡ c.sent
    answered a = ground arith
receive_turn-sent Protocol.closed line c = refl
receive_turn-sent Protocol.error line c = refl
receive_turn-sent Protocol.too_large line c = refl
receive_turn-sent Protocol.invalid line c = refl

hears : List Bytes → ClientState → ClientState
hears [] s = s
hears (l ∷ ls) s = hears ls (receive_turn Protocol.ok l s)

run-hears :
    (lines : List Bytes) (rest : Bytes) (s : ClientState)
    → run (map (receives Protocol.ok) lines) (console rest s) ≡ console rest (hears lines s)
unfolding run client_step hears
run-hears [] rest s = refl
run-hears (l ∷ ls) rest s = run-hears ls rest (receive_turn Protocol.ok l s)

hears-sent : (lines : List Bytes) (s : ClientState) → (hears lines s).sent ≡ s.sent
unfolding hears
hears-sent [] s = refl
hears-sent (l ∷ ls) s =
    hears-sent ls (receive_turn Protocol.ok l s) ∙ receive_turn-sent Protocol.ok l s

-- One dialog and the answers to it.
run-exchange :
    (d : Dialog) (lines : List Bytes) (es : List ClientEvent) (rest : Bytes) (s : ClientState)
    → IsTyped d
    → s.running ≡ true
    → is_empty s.current_user ≡ before_login d
    → run
        (main_goes_on true ∷ main_goes_on true ∷ map (receives Protocol.ok) lines ++ es)
        (console (typed d rest) s)
      ≡ run es (console rest (hears lines (after d s)))
unfolding run client_step
run-exchange d lines es rest s h on user =
    ap (run (map (receives Protocol.ok) lines ++ es)) (dialog-after d rest s h on user)
    ∙ run-append (map (receives Protocol.ok) lines) es (console rest (after d s))
    ∙ ap (run es) (run-hears lines rest (after d s))

-- What the server is asked in a session, and what is left of the input.
abbrev pub Asks : List Exchange → Bytes → List Bytes → Console → Type 0
Asks ts rest old c =
    (frames : List Bytes) × (c.client.sent ≡ old ++ frames)
    × (map parse_command frames ≡ map (λ t. asked t.0) ts)
    × (c.input.rest ≡ rest)

-- Whatever dialogs a user types, one after the other, and whatever frames the server sends after each:
-- when the names and passwords are single words, each message is a line that is not empty, every frame
-- goes out, and each dialog finds a client that runs and is logged in exactly where its menu needs it,
-- the client sends exactly one frame per dialog, the server reads these frames as the login,
-- registration, list, inbox, message with its receiver and text, history or logout that was typed, in
-- this order, and the client leaves unread just what was typed after the dialogs.
pub run-script :
    (ts : List Exchange) (rest : Bytes) (s : ClientState)
    → Suits ts (console (script ts rest) s)
    → Asks ts rest s.sent (run (events ts) (console (script ts rest) s))
unfolding run
run-script [] rest s h = ([], sym (append-nil s.sent), refl, refl)
run-script ((d, lines) ∷ ts) rest s (typed_well, on, user, later) =
    let s' = hears lines (after d s) in
    let (frames, sent, asks, left) =
      run-script ts rest s'
        (subst (Suits ts) (run-exchange d lines [] (script ts rest) s typed_well on user) later) in
    let same = run-exchange d lines (events ts) (script ts rest) s typed_well on user in
    subst (Asks ((d, lines) ∷ ts) rest s.sent) (sym same) (
      frame d ∷ frames,
      sent
          ∙ ap (λ t. t ++ frames) (hears-sent lines (after d s) ∙ after-sent d s)
          ∙ append_assoc s.sent (frame d ∷ []) frames,
      rw (frame-asked d typed_well, asks) refl,
      left,
    )
