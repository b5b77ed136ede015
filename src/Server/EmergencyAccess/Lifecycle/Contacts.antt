-- ===== src/Server/EmergencyAccess/Lifecycle/Contacts.antt =====
-- Inviting, accepting and deleting, and the uses of an approved access, as the state machine allows.
use nad_safe_password_manage.Prelude.{
  ℕ, ◌≡◌, refl, ap, ◌∙◌, Option, none, some, arith, ◌==◌, ==_iff, ==_refl, inl, inr, ◌⊎◌,
}
use nad_safe_password_manage.Server.Handler.{◌>>=◌, ◌>>◌, gets, require, when, write, pure}
use nad_safe_password_manage.Server.Table.{find-put}
use nad_safe_password_manage.Server.EmergencyAccess.Model.{
  EmergencyAccess, EmergencyAccessType, InviteMail, find_by_uuid_and_grantor_uuid,
  find_by_uuid_and_grantee_uuid, find_owned_by_user, WaitTime, User, Db, Env, find_ea,
  accept_invite, save, new,
}
use nad_safe_password_manage.Server.EmergencyAccess.Recovery.{
  view_emergency_access, takeover_emergency_access, password_emergency_access, set_password,
  rotate_refresh_tokens, save_user, drop_factors_and_memberships, policies_emergency_access,
}
use nad_safe_password_manage.Server.EmergencyAccess.Vault.{ciphers_json-quiet}
use nad_safe_password_manage.Server.EmergencyAccess.Invite.{
  delete_emergency_access, one_of, save_invitation, take_invitation, create_user,
  find_or_create_grantee, send_invite, resend_invite, invite_again, accept_emergency_invite,
}
use nad_safe_password_manage.Server.EmergencyAccess.Lifecycle.{
  Actor, by, accepts, creates, updates, deletes,
}
use nad_safe_password_manage.Server.EmergencyAccess.Lifecycle.Rules.{
  Lawful, kept, after_require, after_some_or, after_gets, after_write, last_write, last_pure,
  last_send, after_quiet, after_then, in_either, in_when, saved, deleted, checked, opt_eq-some,
}
use nad_safe_password_manage.Server.EmergencyAccess.Lifecycle.Requests.{as_grantor, as_grantee}

accept_invite-Lawful :
    (env : Env) (who : Actor) (j : ℕ) (r : EmergencyAccess) (contact email : ℕ) (db : Db)
    → find_ea r.uuid db.emergency_access ≡ some r
    → Lawful env who j (accept_invite env r contact email) db
unfolding accept_invite
accept_invite-Lawful env who j r contact email db is_row = after_require _ _ _ _ λ matches.
    after_require _ _ _ _ λ fresh. last_write _ _ (
      saved j (some r) _ db is_row (updates (accepts contact email (opt_eq-some _ _ matches) refl)))

save_invitation-Lawful :
    (env : Env) (who : Actor) (j mail : ℕ) (db : Db)
    → Lawful env who j (save_invitation env mail) db
unfolding save_invitation
save_invitation-Lawful env who j mail db = after_require _ _ _ _ λ valid. last_write _ _ (kept refl)

find_or_create-quiet :
    (env : Env) (mail : ℕ) (db : Db)
    → (find_or_create_grantee env mail db).1.emergency_access ≡ db.emergency_access
unfolding find_or_create_grantee ◌>>◌ ◌>>=◌ require write pure gets when create_user save_invitation
find_or_create-quiet env mail db = ground arith

pub find_saved :
    (env : Env) (r : EmergencyAccess) (db : Db)
    → find_ea r.uuid (save env r db).emergency_access ≡ some (record r { updated_at = env.now })
unfolding save
find_saved env r db =
    find-put (λ x. x.uuid) r.uuid (record r { updated_at = env.now }) db.emergency_access
    ∙ rw (==_refl r.uuid)

set_password-Lawful :
    (env : Env) (who : Actor) (j hash key : ℕ) (u : User) (db : Db)
    → Lawful env who j (set_password env hash key u) db
unfolding set_password rotate_refresh_tokens save_user
set_password-Lawful env who j hash key u db =
    after_write _ _ _ (kept refl) (after_require _ _ _ _ λ valid. last_write _ _ (kept refl))

one_of-cases :
    (o p : Option EmergencyAccess) (r : EmergencyAccess)
    → one_of o p ≡ some r
    → (o ≡ some r) ⊎ (p ≡ some r)
one_of-cases (some x) none r e = inl e
one_of-cases none (some x) r e = inr e
one_of-cases none none r e = cc
one_of-cases (some x) (some y) r e = cc

-- a row that is found for deletion is the user's, on one side or the other
a_party :
    (id u : ℕ) (db : Db) (r : EmergencyAccess)
    → one_of (find_by_uuid_and_grantor_uuid id u db) (find_by_uuid_and_grantee_uuid id u db)
      ≡ some r
    → (find_ea r.uuid db.emergency_access ≡ some r)
      × ((r.grantor_uuid ≡ u) ⊎ (r.grantee_uuid ≡ some u))
a_party id u db r e =
    elim (one_of-cases (find_by_uuid_and_grantor_uuid id u db)
      (find_by_uuid_and_grantee_uuid id u db) r e) [
        | inl grantor ↦
            let (found, owns) =
              checked id (λ x. x.grantor_uuid == u) db.emergency_access r grantor in
            (found, inl ((==_iff r.grantor_uuid u).0 owns))
        | inr grantee ↦ let (found, named) = as_grantee id u db r grantee in (found, inr named)
      ]

module _ (env : Env) (user : User) (j : ℕ) (db : Db) where
  -- the new row's identifier is not taken
  pub send_invite-Lawful :
      (email : ℕ) (atype : Option EmergencyAccessType) (wait : WaitTime)
      → find_ea env.fresh_uuid db.emergency_access ≡ none
      → Lawful env (by user.uuid) j (send_invite env user email atype wait) db
  unfolding send_invite
  send_invite-Lawful email atype wait free = after_require _ _ _ _ λ enabled.
      after_some_or _ _ _ _ λ t is_type. after_require _ _ _ _ λ other.
        after_quiet _ _ _ (find_or_create-quiet env _ db) λ grantee db' same. after_gets _ _ _ (
          after_require _ _ _ _ λ unknown.
            let r = new env user.uuid grantee.0.email t wait in
            after_write _ _ _
              (saved j none r db' (ap (find_ea env.fresh_uuid) same ∙ free)
                (creates _ grantee.0.email refl refl refl refl))
              (in_either _ _ _ _ (last_send _ _)
                (in_when _ _ _ (accept_invite-Lawful env _ j r _ _ _ (find_saved env r db')))))

  pub resend_invite-Lawful : (id : ℕ) → Lawful env (by user.uuid) j (resend_invite env user id) db
  unfolding resend_invite invite_again
  resend_invite-Lawful id = after_require _ _ _ _ λ enabled. after_gets _ _ _ (
      after_some_or _ _ _ _ λ r found. after_require _ _ _ _ λ open_invite.
        after_some_or _ _ _ _ λ email is_email. after_gets _ _ _ (
          after_some_or _ _ _ _ λ grantee _. in_either _ _ _ _ (last_send _ _) (
            in_either _ _ _ _
              (accept_invite-Lawful env _ j r _ _ _ (as_grantor id user.uuid db r found).0)
              (after_gets _ _ _ (in_when _ _ _ (save_invitation-Lawful env _ j _ _))))))

  pub accept-Lawful :
      (id : ℕ) (token : Option InviteMail)
      → Lawful env (by user.uuid) j (accept_emergency_invite env user id token) db
  unfolding accept_emergency_invite take_invitation
  accept-Lawful id token = after_require _ _ _ _ λ enabled.
      after_some_or _ _ _ _ λ claims is_claims. after_require _ _ _ _ λ addressed.
        after_gets _ _ _ (
          after_some_or _ _ _ _ λ grantee _. after_write _ _ _ (kept refl) (
            after_gets _ _ _ (
              after_some_or _ _ _ _ λ r found. after_gets _ _ _ (
                after_some_or _ _ _ _ λ grantor _. after_require _ _ _ _ λ genuine.
                  after_then _ _ _ (accept_invite-Lawful env _ j r _ _ _ (checked id _ _ r found).0)
                    (in_when _ _ _ (last_send _ _))))))

  pub delete-Lawful :
      (id : ℕ) → Lawful env (by user.uuid) j (delete_emergency_access env user id) db
  unfolding delete_emergency_access
  delete-Lawful id = after_require _ _ _ _ λ enabled. after_gets _ _ _ (
      after_gets _ _ _ (
        after_some_or _ _ _ _ λ r found.
          let (is_row, party) = a_party id user.uuid db r found in
          last_write _ _ (deleted j r db is_row (deletes r user.uuid refl party))))

  pub view-Lawful : (id : ℕ) → Lawful env (by user.uuid) j (view_emergency_access env user id) db
  unfolding view_emergency_access
  view-Lawful id = after_require _ _ _ _ λ enabled. after_gets _ _ _ (
      after_some_or _ _ _ _ λ r found. after_require _ _ _ _ λ valid. after_gets _ _ _ (
        after_quiet _ _ _
          (ap (λ d. d.emergency_access)
            (ciphers_json-quiet env r.grantor_uuid (find_owned_by_user r.grantor_uuid db) db))
          (λ vault db' _. last_pure _ _)))

  pub takeover-Lawful :
      (id : ℕ) → Lawful env (by user.uuid) j (takeover_emergency_access env user id) db
  unfolding takeover_emergency_access
  takeover-Lawful id = after_require _ _ _ _ λ enabled. after_gets _ _ _ (
      after_some_or _ _ _ _ λ r found.
        after_require _ _ _ _
          λ valid. after_gets _ _ _ (after_some_or _ _ _ _ λ grantor _. last_pure _ _))

  pub password-Lawful :
      (id hash key : ℕ)
      → Lawful env (by user.uuid) j (password_emergency_access env user id hash key) db
  unfolding password_emergency_access drop_factors_and_memberships
  password-Lawful id hash key = after_require _ _ _ _ λ enabled. after_gets _ _ _ (
      after_some_or _ _ _ _ λ r found. after_require _ _ _ _ λ valid. after_gets _ _ _ (
        after_some_or _ _ _ _ λ grantor _.
          after_then _ _ _ (set_password-Lawful env _ j hash key grantor db)
            (last_write _ _ (kept refl))))

  pub policies-Lawful :
      (id : ℕ) → Lawful env (by user.uuid) j (policies_emergency_access user id) db
  unfolding policies_emergency_access
  policies-Lawful id = after_gets _ _ _ (
      after_some_or _ _ _ _ λ r found.
        after_require _ _ _ _
          λ valid. after_gets _ _ _ (after_some_or _ _ _ _ λ grantor _. last_pure _ _))
