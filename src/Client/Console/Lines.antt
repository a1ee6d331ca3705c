-- ===== src/Client/Console/Lines.antt =====
-- What the prompts of UI.cpp return for answers that stand on lines of their own.
use messenger_cpp_r.Base.{
  ◌≡◌, refl, ap, ◌∙◌, true, false, [], ◌∷◌, ◌++◌, if◌then◌else◌, arith, Bytes, all_of, is_empty,
}
use messenger_cpp_r.Server.Words.{is_space, skip_spaces, span_word, read_word, no_space}
use messenger_cpp_r.Server.Words.Reading.{IsWord, skip_spaces-word, no_newline}
use messenger_cpp_r.Client
use messenger_cpp_r.Client.Console.{
  Input, after_newline, up_to_newline, read_string, ignore_line, get_line, prompt_login,
  prompt_target_user, prompt_message,
}

span_word-newline :
    (w rest : Bytes) → all_of no_space w ≡ true → span_word (w ++ 10 ∷ rest) ≡ (w, 10 ∷ rest)
unfolding span_word all_of no_space is_space
span_word-newline [] rest h = refl
span_word-newline (c ∷ cs) rest h = ground (arith, span_word-newline cs rest)

-- A word that stands on a line of its own.
read_word-line : (w rest : Bytes) → IsWord w → read_word (w ++ 10 ∷ rest) ≡ (w, 10 ∷ rest)
unfolding read_word
read_word-line w rest h =
    ap span_word (skip_spaces-word w (10 ∷ rest) h) ∙ span_word-newline w rest h.plain

pub word_typed : (w : Bytes) → IsWord w → is_empty w ≡ false
word_typed [] h = absurd (omega (arith, h.some_char))
word_typed (c ∷ cs) h = refl

abbrev pub typed_in : Bytes → Input
typed_in rest = record { rest = rest; failed = false }

pub read_string-line :
    (w rest : Bytes)
    → IsWord w
    → read_string (typed_in (w ++ 10 ∷ rest)) ≡ (w, typed_in (10 ∷ rest))
unfolding read_string
read_string-line w rest h = rw (read_word-line w rest h) (rw (word_typed w h) refl)

pub read_string-next :
    (w rest : Bytes)
    → IsWord w
    → read_string (typed_in (10 ∷ w ++ 10 ∷ rest)) ≡ (w, typed_in (10 ∷ rest))
unfolding read_string read_word skip_spaces is_space
read_string-next w rest h = read_string-line w rest h

pub prompt_target_user-typed :
    (to rest : Bytes)
    → IsWord to
    → prompt_target_user (typed_in (to ++ 10 ∷ rest)) ≡ (to, typed_in rest)
unfolding prompt_target_user ignore_line after_newline
prompt_target_user-typed to rest h =
    ap (λ r. if is_empty r.0 then ([], r.1) else (r.0, ignore_line r.1))
      (read_string-line to rest h)
    ∙ ap (λ b. if b then ([], typed_in (10 ∷ rest)) else (to, typed_in rest)) (word_typed to h)

pub prompt_login-typed :
    (l password rest : Bytes)
    → IsWord l
    → IsWord password
    → prompt_login (typed_in (l ++ 10 ∷ (password ++ 10 ∷ rest)))
      ≡ (Client.credentials l password, typed_in rest)
unfolding prompt_login ignore_line after_newline
prompt_login-typed l password rest wl wp =
    ap with_login (read_string-line l (password ++ 10 ∷ rest) wl)
    ∙ ap (λ b. if b then ([], j) else with_password (read_string j)) (word_typed l wl)
    ∙ ap with_password (read_string-next password rest wp)
    ∙ ap
        (λ b.
          if b then ([], typed_in (10 ∷ rest)) else (Client.credentials l password, typed_in rest))
        (word_typed password wp)
  where
    j : Input
    j = typed_in (10 ∷ password ++ 10 ∷ rest)

    with_password : Bytes × Input → Bytes × Input
    with_password (p, k) = if is_empty p then ([], k) else (Client.credentials l p, ignore_line k)

    with_login : Bytes × Input → Bytes × Input
    with_login (name, k) =
        if is_empty name
        then ([], k)
        else let (p, k') = read_string k in
          if is_empty p then ([], k') else (Client.credentials name p, ignore_line k')

up_to_newline-line :
    (msg rest : Bytes) → all_of no_newline msg ≡ true → up_to_newline (msg ++ 10 ∷ rest) ≡ msg
unfolding up_to_newline all_of no_newline
up_to_newline-line [] rest h = refl
up_to_newline-line (c ∷ cs) rest h = ground (arith, up_to_newline-line cs rest)

after_newline-line :
    (msg rest : Bytes) → all_of no_newline msg ≡ true → after_newline (msg ++ 10 ∷ rest) ≡ rest
unfolding after_newline all_of no_newline
after_newline-line [] rest h = refl
after_newline-line (c ∷ cs) rest h = ground (arith, after_newline-line cs rest)

pub prompt_message-typed :
    (msg rest : Bytes)
    → all_of no_newline msg ≡ true
    → prompt_message (typed_in (msg ++ 10 ∷ rest)) ≡ (msg, typed_in rest)
unfolding prompt_message get_line
prompt_message-typed [] rest h = refl
prompt_message-typed (c ∷ cs) rest h =
    rw (up_to_newline-line (c ∷ cs) rest h, after_newline-line (c ∷ cs) rest h) refl
