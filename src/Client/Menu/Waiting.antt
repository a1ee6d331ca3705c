-- ===== src/Client/Menu/Waiting.antt =====
-- Client::run when std::cin is at its end.
use messenger_cpp_r.Base.{
  ◌≡◌, refl, ◌∙◌, inl, inr, Bool, Option-cases, Bool-cases, List, [], ◌∷◌, map,
}
use messenger_cpp_r.Client.Console.Ends.{show_initial_menu-end, show_user_menu-end}
use messenger_cpp_r.Client.Menu
use messenger_cpp_r.Client.Menu.{
  Menu, initial, signed_in, Console, main_goes_on, choose, main_step, client_step, run,
}

-- Half a round changes neither the client nor the end of the input.
abbrev Idle : Console → Console → Type 0
Idle c d = (d.client ≡ c.client) × (d.input.rest ≡ [])

answer_menu-Idle :
    (delivered : Bool) (m : Menu) (c : Console)
    → c.input.rest ≡ []
    → Idle c (Menu.answer_menu delivered m c)
unfolding choose
answer_menu-Idle delivered initial c e =
    let (no_key, at_end) = show_initial_menu-end c.input e in rw no_key (refl, at_end)
answer_menu-Idle delivered signed_in c e =
    let (no_key, at_end) = show_user_menu-end c.input e in rw no_key (refl, at_end)

main_step-Idle :
    (delivered : Bool) (c : Console) → c.input.rest ≡ [] → Idle c (main_step delivered c)
unfolding main_step
main_step-Idle delivered c at_end = elim (Option-cases c.waits_in) [
  | inl e ↦ elim (Bool-cases c.client.running) [
    | inl on ↦ rw (e, on, main_step) (refl, at_end)
    | inr off ↦ rw (e, off, main_step) (refl, at_end)
  ]
  | inr (m, e) ↦ rw (e, main_step) (answer_menu-Idle delivered m c at_end)
]

-- At the end of std::cin the loop of `run` neither ends nor does anything: after any number of its
-- rounds, without a frame of the server in between, the client is as it was, and runs if it did.
pub run-end_of_input :
    (rounds : List Bool) (c : Console)
    → c.input.rest ≡ []
    → (run (map main_goes_on rounds) c).client ≡ c.client
unfolding run client_step
run-end_of_input [] c e = refl
run-end_of_input (d ∷ ds) c e =
    let (same, at_end) = main_step-Idle d c e in run-end_of_input ds (main_step d c) at_end ∙ same
