-- ===== src/Server/Sessions.antt =====
-- SessionRegistry.cpp: which handlers serve a user. A handler is named by a number, and the map by
-- its entries; a key that is not there has no handlers.
pub mod Counts
use messenger_cpp_r.Base.{ℕ, Bool, true, false, List, [], ◌∷◌, ◌++◌, ◌==◌, if◌then◌else◌, ℤ, eqb_ℤ}

abbrev pub Sessions : Type 0
Sessions = List (ℤ × List ℕ)

-- sessions_.find
unfoldable pub handlers_of : ℤ → Sessions → List ℕ
handlers_of user [] = []
handlers_of user ((u, hs) ∷ rest) = if eqb_ℤ u user then hs else handlers_of user rest

-- addSession: sessions_[userId].push_back(handler)
unfoldable pub add_session : ℤ → ℕ → Sessions → Sessions
add_session user h [] = (user, h ∷ []) ∷ []
add_session user h ((u, hs) ∷ rest) =
    if eqb_ℤ u user then (u, hs ++ h ∷ []) ∷ rest else (u, hs) ∷ add_session user h rest

-- std::remove
unfoldable pub remove : ℕ → List ℕ → List ℕ
remove h [] = []
remove h (x ∷ xs) = let rest = remove h xs in if x == h then rest else x ∷ rest

-- An entry is erased when nothing is left in it.
abbrev pub with_entry : ℤ → List ℕ → Sessions → Sessions
with_entry u [] rest = rest
with_entry u (h ∷ hs) rest = (u, h ∷ hs) ∷ rest

-- removeSession
unfoldable pub remove_session : ℤ → ℕ → Sessions → Sessions
unfolding remove
remove_session user h [] = []
remove_session user h ((u, hs) ∷ rest) =
    if eqb_ℤ u user then with_entry u (remove h hs) rest else (u, hs) ∷ remove_session user h rest
