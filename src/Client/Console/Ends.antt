-- ===== src/Client/Console/Ends.antt =====
-- The menus of UI.cpp at the end of std::cin.
use messenger_cpp_r.Base.{◌≡◌, refl, Bool, true, false, [], Bytes}
use messenger_cpp_r.Server.Words.{skip_spaces}
use messenger_cpp_r.Client.Console.{
  after_newline, read_char, ignore_line, show_initial_menu, show_user_menu, Input,
}

menu-end :
    (rest : Bytes) (failed : Bool)
    → rest ≡ []
    → ((show_initial_menu (record { rest = rest; failed = failed })).0 ≡ 0)
      × ((show_initial_menu (record { rest = rest; failed = failed })).1.rest ≡ [])
unfolding show_initial_menu read_char ignore_line after_newline skip_spaces
menu-end rest true e = rw e (refl, refl)
menu-end rest false e = rw e (refl, refl)

-- At the end of the input a menu has no key, and stays there.
pub show_initial_menu-end :
    (i : Input) → i.rest ≡ [] → ((show_initial_menu i).0 ≡ 0) × ((show_initial_menu i).1.rest ≡ [])
show_initial_menu-end i e = menu-end i.rest i.failed e

pub show_user_menu-end :
    (i : Input) → i.rest ≡ [] → ((show_user_menu i).0 ≡ 0) × ((show_user_menu i).1.rest ≡ [])
unfolding show_user_menu show_initial_menu
show_user_menu-end i e = show_initial_menu-end i e
