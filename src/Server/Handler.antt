-- ===== src/Server/Handler.antt =====
-- ClientHandler.cpp: one handler for each connection, on the database, the session registry and the
-- other handlers. What the network takes is the parameter `takes`, asked once for each frame that is
-- sent. A step runs one frame to its end: the interleavings are those of whole frames.
pub mod Commands
pub mod Access
pub mod Effects
pub mod Guards
pub mod Turns
pub mod Consistency
pub mod Requested
pub mod Banning
pub mod Moderation
pub mod Identity
use messenger_cpp_r.Base.{
  ℕ, zero, suc, ◌+◌, Bool, true, false, not, ◌&&◌, ◌||◌, Option, none, some, List, [], ◌∷◌, ◌++◌,
  Bytes, lit, length, leb, ◌==◌, if◌then◌else◌, ℤ, pos, minus_one,
}
use messenger_cpp_r.Server.Database.{
  Role, role_text, is_moderator, Db, Env, DbStatus, ok, validation_error, unauthorized, forbidden,
  not_found, duplicate, banned_status, error,
}
use messenger_cpp_r.Server.Database.Accounts.{has_moderator_rights, logout_user}
use messenger_cpp_r.Server.Sessions.{Sessions, handlers_of, remove_session}

-- `connected` is that the socket is not kInvalidSocket; `sent` are the frames that went out.
pub record ClientHandler : Type 0 where
  pub connected : Bool
  pub authed : Bool
  pub user_id : ℤ
  pub username : Bytes
  pub role : Option Role
  pub sent : List Bytes

pub record World : Type 0 where
  pub db : Db
  pub sessions : Sessions
  pub handlers : ℕ → ClientHandler
  pub attempts : ℕ

-- The constructor.
abbrev pub new_handler : ClientHandler
new_handler = record {
  connected = true;
  authed = false;
  user_id = minus_one;
  username = [];
  role = none;
  sent = [];
}

abbrev pub set_handler : ℕ → ClientHandler → World → World
set_handler i h w = record w { handlers = λ j. if j == i then h else w.handlers j }

unfoldable pub status_to_text : DbStatus → Bytes
status_to_text ok = lit "OK"
status_to_text validation_error = lit "VALIDATION"
status_to_text unauthorized = lit "UNAUTHORIZED"
status_to_text forbidden = lit "FORBIDDEN"
status_to_text not_found = lit "NOT_FOUND"
status_to_text duplicate = lit "DUPLICATE"
status_to_text banned_status = lit "BANNED"
status_to_text error = lit "DB"

abbrev pub role_name : Option Role → Bytes
role_name none = []
role_name (some r) = role_text r

-- role_ == "admin" || role_ == "moderator"
abbrev pub moderator_role : Option Role → Bool
moderator_role none = false
moderator_role (some r) = is_moderator r

abbrev pub moderator_required : Bytes
moderator_required = lit "ERROR_FORBIDDEN moderator role required"

module _ (env : Env) (max_frame_size : ℕ) (takes : ℕ → Bool) where
  -- tcp::sendFrame on the handler's socket: false for a payload that is too large, for a closed
  -- socket, and when the network does not take it. The frame, or nothing, is counted as sent.
  unfoldable pub send_response : ℕ → Bytes → World → Bool × World
  send_response i payload w =
      let h = w.handlers i in
      if leb (length payload) max_frame_size && (h.connected && takes w.attempts)
      then (
        true,
        record (set_handler i (record h { sent = h.sent ++ payload ∷ [] }) w) {
          attempts = w.attempts + 1;
        },
      )
      else (false, record w { attempts = w.attempts + 1 })

  -- sendResponse where the result is not looked at.
  abbrev pub respond : ℕ → Bytes → World → World
  respond i payload w = (send_response i payload w).1

  unfoldable pub respond_all : ℕ → List Bytes → World → World
  respond_all i [] w = w
  respond_all i (p ∷ ps) w = respond_all i ps (respond i p w)

  -- deliverToUser, over the handlers that were copied under the lock.
  unfoldable pub deliver : List ℕ → Bytes → World → ℕ × World
  deliver [] payload w = (0, w)
  deliver (h ∷ hs) payload w =
      let (taken, w') = send_response h payload w in
      let (n, w'') = deliver hs payload w' in (if taken then n + 1 else n, w'')

  unfoldable pub deliver_to_user : ℤ → Bytes → World → ℕ × World
  deliver_to_user user payload w = deliver (handlers_of user w.sessions) payload w

  unfoldable pub disconnect_from_admin : ℕ → World → World
  disconnect_from_admin i w =
      let w' = respond i (lit "KICKED") w in
      set_handler i (record (w'.handlers i) { connected = false }) w'

  unfoldable pub disconnect_all : List ℕ → World → World
  disconnect_all [] w = w
  disconnect_all (h ∷ hs) w = disconnect_all hs (disconnect_from_admin h w)

  unfoldable pub disconnect_user : ℤ → World → ℕ × World
  disconnect_user user w = let hs = handlers_of user w.sessions in (length hs, disconnect_all hs w)

  unfoldable pub cleanup_session : ℕ → World → World
  cleanup_session i w =
      let h = w.handlers i in
      if not h.authed
      then w
      else set_handler i
          (record h { authed = false; user_id = minus_one; username = []; role = none })
          (record w {
            sessions = remove_session h.user_id i w.sessions;
            db = (logout_user env w.db h.user_id).1;
          })

  unfoldable pub require_auth : ℕ → World → Bool × World
  require_auth i w =
      if not (w.handlers i).authed then (false, respond i (lit "ERROR_NOT_AUTH") w) else (true, w)

  unfoldable pub require_moderator : ℕ → World → Bool × World
  require_moderator i w =
      let (allowed, w1) = require_auth i w in
      if not allowed
      then (false, w1)
      else if not (moderator_role (w1.handlers i).role)
      then (false, respond i moderator_required w1)
      else let (rights, db) = has_moderator_rights env w1.db (w1.handlers i).user_id in
        let w2 = record w1 { db = db } in
        if not rights then (false, respond i moderator_required w2) else (true, w2)
