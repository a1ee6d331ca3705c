-- ===== src/Server/Database/Change/Moderation.antt =====
-- The changes that ban, unban, kick, logout and markUserOffline make.
use messenger_cpp_r.Base.{
  ◌≡◌, refl, inl, inr, Bool, true, false, not, ◌&&◌, Option-cases, [], ◌∷◌, arith, Bytes, str_eq,
  str_eq_refl, Bool-cases, ℤ, pos, eqb_ℤ,
}
use messenger_cpp_r.Server.Database.{
  offline, banned, is_banned, User, Db, Env, find_login, find_id, update_where, runs, seen_as,
}
use messenger_cpp_r.Server.Database.Accounts.{
  logout_user, has_moderator_rights, ban_user, unban_user, kick_user, mark_user_offline,
}
use messenger_cpp_r.Server.Database.Change.{
  Change, SameMessages, touched, unbanned, set_status, set_status-KeepsIdentity,
  seen_as-KeepsIdentity, begin-Change, commit_audited-Change,
}

module _ (env : Env) where
  pub ban_user-Change :
      {lifts : Bytes → Bool} (db : Db) (actor : ℤ) (login : Bytes)
      → Change lifts db (ban_user env db actor login).1
  unfolding ban_user
  ban_user-Change db actor login = elim (Bool-cases (runs env db (login ∷ []))) [
    | inr down ↦ rw down (begin-Change env db)
    | inl up ↦ elim (Option-cases (find_login login db.users)) [
      | inl e ↦ rw (up, e, ban_user) (begin-Change env db)
      | inr (u, e) ↦
          rw (up, e, ban_user)
            (commit_audited-Change env db _ actor _ login _ _ λ a.
              touched (λ v. str_eq v.login login && true) (set_status banned)
                (set_status-KeepsIdentity banned) (λ v b. ground arith) refl (refl, refl) refl)
    ]
  ]

  pub unban_user-Change :
      (db : Db) (actor : ℤ) (login : Bytes)
      → Change (str_eq login) db (unban_user env db actor login).1
  unfolding unban_user
  unban_user-Change db actor login = elim (Bool-cases (runs env db (login ∷ []))) [
    | inr down ↦ rw down (begin-Change env db)
    | inl up ↦ elim (Option-cases (find_login login db.users)) [
      | inl e ↦ rw (up, e, unban_user) (begin-Change env db)
      | inr (u, e) ↦ elim (Bool-cases (is_banned u.status)) [
        | inr free ↦ rw (up, e, unban_user) (rw (free, unban_user) (begin-Change env db))
        | inl b ↦
            rw (up, e, unban_user)
              (rw (b, unban_user)
                (commit_audited-Change env db _ actor _ login _ _
                  λ a. unbanned login (str_eq_refl login) refl (refl, refl) refl))
      ]
    ]
  ]

  offline-Change :
      {lifts : Bytes → Bool} (db d : Db) (p : User → Bool)
      → d.users ≡ update_where p (seen_as env db offline) db.users
      → ((v : User) → is_banned v.status ≡ true → p v ≡ false)
      → SameMessages db d
      → d.next_user_id ≡ db.next_user_id
      → Change lifts db d
  offline-Change db d p e free m n =
      touched p (seen_as env db offline) (seen_as-KeepsIdentity env db offline)
        (λ v b. rw (free v b) b) e m n

  pub kick_user-Change :
      {lifts : Bytes → Bool} (db : Db) (actor : ℤ) (login : Bytes)
      → Change lifts db (kick_user env db actor login).1
  unfolding kick_user
  kick_user-Change db actor login = elim (Bool-cases (runs env db (login ∷ []))) [
    | inr down ↦ rw down (begin-Change env db)
    | inl up ↦ elim (Option-cases (find_login login db.users)) [
      | inl e ↦ rw (up, e, kick_user) (begin-Change env db)
      | inr (u, e) ↦ elim (Bool-cases (is_banned u.status)) [
        | inl b ↦ rw (up, e, kick_user) (rw (b, kick_user) (begin-Change env db))
        | inr free ↦
            rw (up, e, kick_user)
              (rw (free, kick_user)
                (commit_audited-Change env db _ actor _ login _ _ λ a.
                  offline-Change db _ (λ v. str_eq v.login login && not (is_banned v.status)) refl
                    (λ v b. ground arith) (refl, refl) refl))
      ]
    ]
  ]

  pub mark_user_offline-Change :
      {lifts : Bytes → Bool} (db : Db) (login : Bytes)
      → Change lifts db (mark_user_offline env db login).1
  unfolding mark_user_offline
  mark_user_offline-Change db login = elim (Bool-cases (runs env db (login ∷ []))) [
    | inr down ↦ rw down (begin-Change env db)
    | inl up ↦ elim (Option-cases (find_login login db.users)) [
      | inl e ↦ rw (up, e, mark_user_offline) (begin-Change env db)
      | inr (u, e) ↦ elim (Bool-cases (is_banned u.status)) [
        | inl b ↦ rw (up, e, mark_user_offline) (rw (b, mark_user_offline) (begin-Change env db))
        | inr free ↦
            rw (up, e, mark_user_offline)
              (rw (free, mark_user_offline)
                (offline-Change db _ (λ v. str_eq v.login login && not (is_banned v.status)) refl
                  (λ v b. ground arith) (refl, refl) refl))
      ]
    ]
  ]

  pub logout_user-Change :
      {lifts : Bytes → Bool} (db : Db) (id : ℤ) → Change lifts db (logout_user env db id).1
  unfolding logout_user
  logout_user-Change db id = elim (Bool-cases (runs env db [])) [
    | inr down ↦ rw down (begin-Change env db)
    | inl up ↦ rw up (
        offline-Change db _ (λ v. eqb_ℤ (pos v.id) id && not (is_banned v.status)) refl
          (λ v b. ground arith) (refl, refl) refl)
  ]

  pub has_moderator_rights-Change :
      {lifts : Bytes → Bool} (db : Db) (id : ℤ) → Change lifts db (has_moderator_rights env db id).1
  unfolding has_moderator_rights
  has_moderator_rights-Change db id = elim (Bool-cases (runs env db [])) [
    | inr down ↦ rw down (begin-Change env db)
    | inl up ↦ elim (Option-cases (find_id id db.users)) [
      | inl e ↦ rw (up, e, has_moderator_rights) (begin-Change env db)
      | inr (u, e) ↦ rw (up, e, has_moderator_rights) (begin-Change env db)
    ]
  ]
