-- ===== src/Server/Organization/Invariant.antt =====
-- The invariant, through every request.
use nad_safe_password_manage.Prelude.{
  Option, ℕ, ◌≤◌, ◌≡◌, refl, true, ◌&&◌, some, List, ◌==◌, &&-true,
}
use nad_safe_password_manage.Server.Handler.{◌>>=◌, ◌>>◌}
use nad_safe_password_manage.Server.Handler.Ends.{
  Ends, after_require, after_some_or, after_gets, after_pure, in_bulk, in_turn, last_write,
}
use nad_safe_password_manage.Server.Table.{find-first}
use nad_safe_password_manage.Server.Table.Count.{every-find}
use nad_safe_password_manage.Server.EmergencyAccess.Model.{owner}
use nad_safe_password_manage.Server.Organization.Roles.{Membership, restore, revoke}
use nad_safe_password_manage.Server.Organization.Model.{
  User, Db, Env, find_membership, count_confirmed_by_org_and_type,
}
use nad_safe_password_manage.Server.Organization.Members.{
  AdminHeaders, org_headers, org_member_headers, admin_headers, leave_organization,
  bulk_delete_member, bulk_revoke_members, bulk_restore_members,
}
use nad_safe_password_manage.Server.Organization.Invitations.{
  reinvite_member, bulk_reinvite_members,
}
use nad_safe_password_manage.Server.Organization.Bulk.{
  bulk_confirm_invite, ConfirmData, some_keys, in_confirm_all,
}
use nad_safe_password_manage.Server.Organization.Sound.{Sound, Sound-Quiet, is_valid}
use nad_safe_password_manage.Server.Organization.Silent.{
  Silent, then-Silent, bind-Silent, gets-Silent, some_or-Silent, require-Silent, pure-Silent,
}
use nad_safe_password_manage.Server.Organization.Owners.{
  quietly, revoke-is_valid, restore-is_valid, leave_organization-Sound, delete_member_impl-Sound,
  revoke_member_impl-Sound, restore_member_impl-Sound,
}
use nad_safe_password_manage.Server.Organization.Owners.Edit.{edit_member-Sound}
use nad_safe_password_manage.Server.Organization.Owners.Invite.{
  confirm_invite_impl-Sound, reinvite_member_impl-Sound, accept_invite-Sound,
}
use nad_safe_password_manage.Server.Organization.Owners.Send.{send_invite-Sound}
use nad_safe_password_manage.Server.Organization.Owners.Policies.{
  put_policy-Sound, create_organization-Sound,
}
use nad_safe_password_manage.Server.Organization.Requests.{
  AdminRequest, edits, deletes, revokes, restores, reinvites, deletes_all, revokes_all,
  restores_all, reinvites_all, invites, confirms, confirms_all, sets_policy, Request, creates,
  leaves, accepts, with_rights, is_invitation, serve, guarded, run, Reaches, here, next,
}

org_headers-Silent : (env : Env) (who : User) (org_id : ℕ) → Silent (org_headers env who org_id)
unfolding org_headers
org_headers-Silent env who org_id = then-Silent (require-Silent _ _) (
    bind-Silent (gets-Silent _) (λ row. bind-Silent (some_or-Silent _ row) (λ m.
      bind-Silent (some_or-Silent _ _)
        (λ t. bind-Silent (some_or-Silent _ _) (λ s. pure-Silent _)))))

admin_headers-Silent : (env : Env) (who : User) (org_id : ℕ) → Silent (admin_headers env who org_id)
unfolding admin_headers
admin_headers-Silent env who org_id =
    bind-Silent (org_headers-Silent env who org_id)
      (λ h. then-Silent (require-Silent _ _) (pure-Silent _))

module _ {o : ℕ} (env : Env) (db : Db) (s : Sound o db) where
  -- the guard of `leave_organization` answers a row of the account in that organization
  leaves-Sound :
      (who : User) (org_id : ℕ)
      → Ends (Sound o) (org_member_headers env who org_id >>= leave_organization env org_id) db
  unfolding org_member_headers org_headers ◌>>◌
  leaves-Sound who org_id = in_turn _ _ _ db (
      in_turn _ _ _ db (
        after_require _ _ _ db s (λ _. in_turn _ _ _ db (
          after_gets _ _ db (
            in_turn _ _ _ db (
              after_some_or _ _ _ db s (λ m e.
                let (found, test) =
                  find-first (λ x. x.uuid) (λ x. x.user_uuid == who.uuid && x.org_uuid == org_id)
                    db.memberships s.unique e in
                in_turn _ _ _ db (
                  after_some_or _ _ _ db s (λ t _. in_turn _ _ _ db (
                    after_some_or _ _ _ db s (λ st _. after_pure _ _ db (
                      in_turn _ _ _ db (
                        after_require _ _ _ db s (λ _. after_pure _ _ db (
                          leave_organization-Sound env db s org_id m found
                            (&&-true (m.user_uuid == who.uuid) (m.org_uuid == org_id)
                              test).1)))))))))))))))

  module _ (h : AdminHeaders) (org_id : ℕ) where
    reinvite_member-Sound : (id : ℕ) → Ends (Sound o) (reinvite_member env h org_id id) db
    unfolding reinvite_member
    reinvite_member-Sound id =
        after_require _ _ _ db s (λ _. reinvite_member_impl-Sound env db s org_id id)

    bulk_delete-Sound : (ids : List ℕ) → Ends (Sound o) (bulk_delete_member env h org_id ids) db
    unfolding bulk_delete_member
    bulk_delete-Sound ids =
        after_require _ _ _ db s
          (λ _. in_bulk _ ids db s (λ id d s'. delete_member_impl-Sound env d s' h org_id id))

    bulk_revoke-Sound : (ids : List ℕ) → Ends (Sound o) (bulk_revoke_members env h org_id ids) db
    unfolding bulk_revoke_members
    bulk_revoke-Sound ids =
        after_require _ _ _ db s
          (λ _. in_bulk _ ids db s (λ id d s'. revoke_member_impl-Sound env d s' h org_id id))

    bulk_restore-Sound : (ids : List ℕ) → Ends (Sound o) (bulk_restore_members env h org_id ids) db
    unfolding bulk_restore_members
    bulk_restore-Sound ids =
        after_require _ _ _ db s
          (λ _. in_bulk _ ids db s (λ id d s'. restore_member_impl-Sound env d s' h org_id id))

    bulk_reinvite-Sound :
        (ids : List ℕ) → Ends (Sound o) (bulk_reinvite_members env h org_id ids) db
    unfolding bulk_reinvite_members
    bulk_reinvite-Sound ids =
        after_require _ _ _ db s
          (λ _. in_bulk _ ids db s (λ id d s'. reinvite_member_impl-Sound env d s' org_id id))

    bulk_confirm-Sound :
        (keys : Option (List ConfirmData))
        → Ends (Sound o) (bulk_confirm_invite env h org_id keys) db
    unfolding bulk_confirm_invite
    bulk_confirm-Sound keys = after_require _ _ _ db s (λ _.
        in_confirm_all env h org_id
          (λ id key d s'. confirm_invite_impl-Sound env d s' h org_id id key) (some_keys keys) db s)

    serve-Sound :
        (who : User) (request : AdminRequest)
        → (is_invitation (with_rights who org_id request) ≡ true
            → (address : ℕ) → env.mail_accepted address ≡ true)
        → Sound o (serve env h org_id request db)
    serve-Sound who (edits id request) ok = (edit_member-Sound env db s h org_id id request).holds
    serve-Sound who (deletes id) ok = (delete_member_impl-Sound env db s h org_id id).holds
    serve-Sound who (revokes id) ok = (revoke_member_impl-Sound env db s h org_id id).holds
    serve-Sound who (restores id) ok = (restore_member_impl-Sound env db s h org_id id).holds
    serve-Sound who (reinvites id) ok = (reinvite_member-Sound id).holds
    serve-Sound who (deletes_all ids) ok = (bulk_delete-Sound ids).holds
    serve-Sound who (revokes_all ids) ok = (bulk_revoke-Sound ids).holds
    serve-Sound who (restores_all ids) ok = (bulk_restore-Sound ids).holds
    serve-Sound who (reinvites_all ids) ok = (bulk_reinvite-Sound ids).holds
    serve-Sound who (invites request) ok =
        (send_invite-Sound env (ok refl) db s h org_id request).holds
    serve-Sound who (confirms id key) ok =
        (confirm_invite_impl-Sound env db s h org_id id key).holds
    serve-Sound who (confirms_all keys) ok = (bulk_confirm-Sound keys).holds
    serve-Sound who (sets_policy t enabled text) ok =
        (put_policy-Sound env db s h org_id t enabled text).holds

module _ {o : ℕ} (env : Env) (db : Db) (s : Sound o db) where
  guarded-Sound :
      (who : User) (org_id : ℕ) (request : AdminRequest)
      → (is_invitation (with_rights who org_id request) ≡ true
          → (address : ℕ) → env.mail_accepted address ≡ true)
      → Ends (Sound o) (guarded env who org_id request) db
  unfolding guarded
  guarded-Sound who org_id request ok =
      quietly s _ (admin_headers-Silent env who org_id)
        (λ h d q. last_write _ d (serve-Sound env d (Sound-Quiet q s) h org_id who request ok))

  pub run-Sound :
      (request : Request)
      → (is_invitation request ≡ true → (address : ℕ) → env.mail_accepted address ≡ true)
      → Sound o (run env request db)
  unfolding run
  run-Sound (creates who request) ok = (create_organization-Sound env db s who request).holds
  run-Sound (leaves who org_id) ok = (leaves-Sound env db s who org_id).holds
  run-Sound (accepts fake_admin org_name who org_id member_id token key) ok =
      (accept_invite-Sound env db s fake_admin org_name who org_id member_id token key).holds
  run-Sound (with_rights who org_id request) ok = (guarded-Sound who org_id request ok).holds

pub Reaches-Sound : (o : ℕ) {a b : Db} → Sound o a → Reaches a b → Sound o b
Reaches-Sound o s here = s
Reaches-Sound o s (next env request ok path) = run-Sound env _ (Reaches-Sound o s path) request ok

-- Through any requests that organizations and memberships get - creating, leaving, editing,
-- deleting, revoking, restoring, inviting, accepting, confirming, setting a policy, one by one or
-- in bulk - an organization keeps at least one confirmed owner. At the start it has one, the
-- memberships have distinct keys and known codes, and the generator of identifiers answers none
-- twice and none that a membership has; the mail server takes every mail of an invitation by
-- address.
pub confirmed_owner_remains :
    (o : ℕ) {a b : Db} → Sound o a → Reaches a b → 1 ≤ count_confirmed_by_org_and_type o owner b
confirmed_owner_remains o s path = (Reaches-Sound o s path).owned

-- Under the same conditions every membership that such requests lead to has a known type, and a
-- status from -128 to -126 or from 0 to 2; and so have the rows that revoking and restoring it
-- answer, so that the sum and the difference with 128 stay far within an `i32`.
pub statuses_in_range :
    (o : ℕ) {a b : Db} (id : ℕ) (m : Membership)
    → Sound o a
    → Reaches a b
    → find_membership id b.memberships ≡ some m
    → (is_valid m ≡ true) × (is_valid (revoke m).0 ≡ true) × (is_valid (restore m).0 ≡ true)
statuses_in_range o {a} {b} id m s path found =
    let ok =
      every-find (λ x. x.uuid) is_valid id b.memberships (Reaches-Sound o s path).valid found in
    (ok, (revoke-is_valid m ok).0, (restore-is_valid m ok).0)
