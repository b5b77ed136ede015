-- ===== src/Server/EmergencyAccess/Lifecycle/Requests.antt =====
-- Every request of a user moves the row of an emergency access as the state machine allows.
use nad_safe_password_manage.Prelude.{
  ℕ, ◌≡◌, refl, sym, ap, true, ◌||◌, &&-true, Option, some, ◌==◌, ==_iff, Bool-cases, inl, inr, ◌⊎◌,
}
use nad_safe_password_manage.Server.EmergencyAccess.Model.{
  EmergencyAccess, EmergencyAccessType, EmergencyAccessStatus, find_by_uuid_and_grantor_uuid,
  find_by_uuid_and_grantee_uuid, WaitTime, User, Db, Env, find_ea, opt_eq, is_status,
}
use nad_safe_password_manage.Server.EmergencyAccess.Recovery.{
  initiate_emergency_access, approve_emergency_access, reject_emergency_access,
}
use nad_safe_password_manage.Server.EmergencyAccess.Invite.{
  post_emergency_access, confirm_emergency_access,
}
use nad_safe_password_manage.Server.EmergencyAccess.Lifecycle.{
  by, edits, confirms, initiates, approves, rejects, updates,
}
use nad_safe_password_manage.Server.EmergencyAccess.Lifecycle.Rules.{
  Lawful, after_require, after_some_or, after_gets, after_write, last_pure, last_mail, saved,
  checked, opt_eq-some, status_is,
}

module _ (id u : ℕ) (db : Db) (r : EmergencyAccess) where
  pub as_grantor :
      find_by_uuid_and_grantor_uuid id u db ≡ some r
      → (find_ea r.uuid db.emergency_access ≡ some r) × (by u ≡ by r.grantor_uuid)
  as_grantor e =
      let (found, owns) = checked id (λ x. x.grantor_uuid == u) db.emergency_access r e in
      (found, ap by (sym ((==_iff r.grantor_uuid u).0 owns)))

  pub as_grantee :
      find_by_uuid_and_grantee_uuid id u db ≡ some r
      → (find_ea r.uuid db.emergency_access ≡ some r) × (r.grantee_uuid ≡ some u)
  as_grantee e =
      let (found, named) = checked id (λ x. opt_eq x.grantee_uuid u) db.emergency_access r e in
      (found, opt_eq-some r.grantee_uuid u named)

either_status :
    (s a b : EmergencyAccessStatus) → (is_status s a || is_status s b) ≡ true → (s ≡ a) ⊎ (s ≡ b)
either_status s a b h = elim (Bool-cases (is_status s a)) [
  | inl one ↦ inl (status_is s a one)
  | inr other ↦ inr (status_is s b (rw other at h))
]

module _ (env : Env) (user : User) (j id : ℕ) (db : Db) where
  pub approve-Lawful : Lawful env (by user.uuid) j (approve_emergency_access env user id) db
  unfolding approve_emergency_access
  approve-Lawful = after_require _ _ _ _ λ enabled. after_gets _ _ _ (
      after_some_or _ _ _ _ λ r found. after_require _ _ _ _ λ pending. after_gets _ _ _ (
        after_some_or _ _ _ _ λ grantor _. after_some_or _ _ _ _ λ contact is_contact.
          after_gets _ _ _ (
            after_some_or _ _ _ _ λ grantee _.
              let (is_row, owns) = as_grantor id user.uuid db r found in
              after_write _ _ _
                (saved j (some r) _ db is_row
                  (updates (approves owns (status_is _ _ pending) refl)))
                (last_mail _ _ _ _))))

  pub reject-Lawful : Lawful env (by user.uuid) j (reject_emergency_access env user id) db
  unfolding reject_emergency_access
  reject-Lawful = after_require _ _ _ _ λ enabled. after_gets _ _ _ (
      after_some_or _ _ _ _ λ r found. after_require _ _ _ _ λ pending.
        after_some_or _ _ _ _ λ contact is_contact. after_gets _ _ _ (
          after_some_or _ _ _ _ λ grantee _.
            let (is_row, owns) = as_grantor id user.uuid db r found in
            after_write _ _ _
              (saved j (some r) _ db is_row
                (updates (rejects owns (either_status _ _ _ pending) refl)))
              (last_mail _ _ _ _)))

  pub initiate-Lawful : Lawful env (by user.uuid) j (initiate_emergency_access env user id) db
  unfolding initiate_emergency_access
  initiate-Lawful = after_require _ _ _ _ λ enabled. after_gets _ _ _ (
      after_some_or _ _ _ _ λ r found. after_require _ _ _ _ λ ready. after_gets _ _ _ (
        after_some_or _ _ _ _ λ grantor _.
          let (is_row, named) = as_grantee id user.uuid db r found in
          after_write _ _ _
            (saved j (some r) _ db is_row
              (updates (initiates user.uuid refl named (status_is _ _ ready) refl)))
            (last_mail _ _ _ _)))

  pub confirm-Lawful :
      (key : ℕ) → Lawful env (by user.uuid) j (confirm_emergency_access env user id key) db
  unfolding confirm_emergency_access
  confirm-Lawful key = after_require _ _ _ _ λ enabled. after_gets _ _ _ (
      after_some_or _ _ _ _ λ r found. after_require _ _ _ _ λ ready. after_gets _ _ _ (
        after_some_or _ _ _ _ λ grantor _. after_some_or _ _ _ _ λ contact is_contact.
          after_gets _ _ _ (
            after_some_or _ _ _ _ λ grantee _.
              let (is_row, owns) = as_grantor id user.uuid db r found in
              let is_accepted = status_is _ _ (&&-true _ _ ready).0 in
              after_write _ _ _
                (saved j (some r) _ db is_row
                  (updates (confirms contact key owns is_accepted is_contact refl)))
                (last_mail _ _ _ _))))

  pub post-Lawful :
      (atype : Option EmergencyAccessType) (wait : WaitTime) (key : Option ℕ)
      → Lawful env (by user.uuid) j (post_emergency_access env user id atype wait key) db
  unfolding post_emergency_access
  post-Lawful atype wait key = after_require _ _ _ _ λ enabled. after_gets _ _ _ (
      after_some_or _ _ _ _ λ r found. after_some_or _ _ _ _ λ t is_type.
        let (is_row, owns) = as_grantor id user.uuid db r found in
        after_write _ _ _ (saved j (some r) _ db is_row (updates (edits t wait key owns refl)))
          (last_pure _ _))
