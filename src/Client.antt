-- ===== src/Client.antt =====
-- The command frames that Client.cpp builds from what UI.cpp asks for.
pub mod Parsing
pub mod Session
pub mod Console
pub mod Menu
pub mod Address
pub mod Connecting
use messenger_cpp_r.Base.{Bool, List, [], ◌∷◌, ◌++◌, Bytes, lit}

-- UI::promptRegistration and UI::promptLogin
abbrev pub credentials : Bytes → Bytes → Bytes
credentials login password = login ++ 32 ∷ password

unfoldable pub register_user : Bytes → Bytes
register_user creds = lit "REGISTER " ++ creds

unfoldable pub login : Bytes → Bytes
login creds = lit "LOGIN " ++ creds

unfoldable pub send_message : Bytes → Bytes → Bytes
send_message to msg = lit "MESSAGE " ++ to ++ 32 ∷ msg

unfoldable pub history : Bytes → Bytes
history to = lit "HISTORY " ++ to ++ lit " 50 0"
