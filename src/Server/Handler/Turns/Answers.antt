-- ===== src/Server/Handler/Turns/Answers.antt =====
-- The listings, messages and moderation of ClientHandler.cpp as steps.
use messenger_cpp_r.Base.{
  ℕ, ◌≡◌, refl, inl, inr, Bool, true, false, Option-cases, Bytes, str_eq, if◌then◌else◌, ℤ, pos,
  negsuc,
}
use messenger_cpp_r.Server.Database.{Env}
use messenger_cpp_r.Server.Database.Mailbox.{get_user_by_login}
use messenger_cpp_r.Server.Database.Requests.{
  lifts, serve, bans, unbans, kicks, finds_user, sends, lists, reads_inbox, reads_history,
  reads_all,
}
use messenger_cpp_r.Server.Handler.{World, require_auth, require_moderator}
use messenger_cpp_r.Server.Handler.Commands.{
  disconnect_if, forward, handle_list, handle_inbox, handle_message, handle_history,
  handle_all_messages, handle_ban, handle_unban, handle_kick,
}
use messenger_cpp_r.Server.Handler.Effects.{
  Talks-refl, disconnect_user-Talks, deliver_to_user-Talks, talks, serves, after,
}
use messenger_cpp_r.Server.Handler.Guards.{
  Goes, says, answer_list-Effect, guarded_auth, guarded_moderator,
}

module _ (env : Env) (max_frame_size : ℕ) (takes : ℕ → Bool) (k : Bytes → Bool) (i : ℕ) where
  pub handle_list-Effect :
      (w : World) → Goes env max_frame_size takes k i w (handle_list env max_frame_size takes i w)
  unfolding handle_list serve lifts
  handle_list-Effect w = guarded_auth env max_frame_size takes k i w _ (
      after (serves (require_auth env max_frame_size takes i w).1 lists (λ x h. refl))
        (answer_list-Effect env max_frame_size takes k i _ _ _ _))

  pub handle_inbox-Effect :
      (w : World) → Goes env max_frame_size takes k i w (handle_inbox env max_frame_size takes i w)
  unfolding handle_inbox serve lifts
  handle_inbox-Effect w =
      let w1 = (require_auth env max_frame_size takes i w).1 in
      guarded_auth env max_frame_size takes k i w _ (
        after (serves w1 (reads_inbox (w1.handlers i).user_id (pos 100)) (λ x h. refl))
          (answer_list-Effect env max_frame_size takes k i _ _ _ _))

  pub handle_history-Effect :
      (t : Bytes) (l o : ℤ) (w : World)
      → Goes env max_frame_size takes k i w (handle_history env max_frame_size takes i t l o w)
  unfolding handle_history serve lifts
  handle_history-Effect t l o w =
      let w1 = (require_auth env max_frame_size takes i w).1 in
      guarded_auth env max_frame_size takes k i w _ (
        after (serves w1 (reads_history (w1.handlers i).user_id t l o) (λ x h. refl))
          (answer_list-Effect env max_frame_size takes k i _ _ _ _))

  pub handle_all_messages-Effect :
      (l : ℤ) (w : World)
      → Goes env max_frame_size takes k i w (handle_all_messages env max_frame_size takes i l w)
  unfolding handle_all_messages serve lifts
  handle_all_messages-Effect l w = guarded_moderator env max_frame_size takes k i w _ (
      after (serves (require_moderator env max_frame_size takes i w).1 (reads_all l) (λ x h. refl))
        (answer_list-Effect env max_frame_size takes k i _ _ _ _))

  forward-Effect :
      (to text : Bytes) (w : World)
      → Goes env max_frame_size takes k i w (forward env max_frame_size takes i to text w)
  unfolding forward serve lifts
  forward-Effect to text w = elim (Option-cases (get_user_by_login env w.db to).0) [
    | inl e ↦ rw (e, forward) (serves w (finds_user to) (λ x h. refl))
    | inr (u, e) ↦
        rw (e, forward)
          (after (serves w (finds_user to) (λ x h. refl))
            (talks (deliver_to_user-Talks env max_frame_size takes _ _ _)))
  ]

  -- What follows a request, by its status.
  either :
      (b : Bool) (w a c : World)
      → Goes env max_frame_size takes k i w a
      → Goes env max_frame_size takes k i w c
      → Goes env max_frame_size takes k i w (if b then a else c)
  either true w a c g h = g
  either false w a c g h = h

  pub handle_message-Effect :
      (to text : Bytes) (w : World)
      → Goes env max_frame_size takes k i w (handle_message env max_frame_size takes i to text w)
  unfolding handle_message serve lifts
  handle_message-Effect to text w =
      let w1 = (require_auth env max_frame_size takes i w).1 in
      guarded_auth env max_frame_size takes k i w _ (
        after (serves w1 (sends (w1.handlers i).user_id to text) (λ x h. refl)) (
          either _ _ _ _ (says env max_frame_size takes k i _ _)
            (after (says env max_frame_size takes k i _ _) (forward-Effect to text _))))

  disconnect_if-Effect :
      (id : ℤ) (w : World)
      → Goes env max_frame_size takes k i w (disconnect_if env max_frame_size takes i id w)
  disconnect_if-Effect (pos id) w =
      talks (disconnect_user-Talks env max_frame_size takes (pos id) w)
  disconnect_if-Effect (negsuc n) w = talks (Talks-refl w)

  pub handle_ban-Effect :
      (l : Bytes) (w : World)
      → Goes env max_frame_size takes k i w (handle_ban env max_frame_size takes i l w)
  unfolding handle_ban serve lifts
  handle_ban-Effect l w =
      let w1 = (require_moderator env max_frame_size takes i w).1 in
      guarded_moderator env max_frame_size takes k i w _ (
        after (serves w1 (bans (w1.handlers i).user_id l) (λ x h. refl)) (
          either _ _ _ _ (after (disconnect_if-Effect _ _) (says env max_frame_size takes k i _ _))
            (says env max_frame_size takes k i _ _)))

  pub handle_unban-Effect :
      (l : Bytes) (w : World)
      → ((x : Bytes) → k x ≡ false → str_eq l x ≡ false)
      → Goes env max_frame_size takes k i w (handle_unban env max_frame_size takes i l w)
  unfolding handle_unban serve lifts
  handle_unban-Effect l w may =
      let w1 = (require_moderator env max_frame_size takes i w).1 in
      guarded_moderator env max_frame_size takes k i w _ (
        after (serves w1 (unbans (w1.handlers i).user_id l) may)
          (says env max_frame_size takes k i _ _))

  pub handle_kick-Effect :
      (l : Bytes) (w : World)
      → Goes env max_frame_size takes k i w (handle_kick env max_frame_size takes i l w)
  unfolding handle_kick serve lifts
  handle_kick-Effect l w =
      let w1 = (require_moderator env max_frame_size takes i w).1 in
      guarded_moderator env max_frame_size takes k i w _ (
        after (serves w1 (kicks (w1.handlers i).user_id l) (λ x h. refl)) (
          either _ _ _ _ (says env max_frame_size takes k i _ _) (
            after (talks (disconnect_user-Talks env max_frame_size takes _ _))
              (says env max_frame_size takes k i _ _))))
