-- ===== src/Server/Organization/Requests.antt =====
-- The requests about memberships, each through the guard of its route, and the states they lead to.
use nad_safe_password_manage.Prelude.{ℕ, ◌≡◌, Bool, true, false, Option, List}
use nad_safe_password_manage.Server.Handler.{write, ◌>>=◌}
use nad_safe_password_manage.Server.Organization.Model.{User, Db, Env, M}
use nad_safe_password_manage.Server.Organization.Members.{
  AdminHeaders, EditUserData, org_member_headers, admin_headers, leave_organization, edit_member,
  delete_member_impl, revoke_member_impl, restore_member_impl, bulk_delete_member,
  bulk_revoke_members, bulk_restore_members,
}
use nad_safe_password_manage.Server.Organization.Invitations.{
  InviteData, InviteClaims, send_invite, reinvite_member, accept_invite, confirm_invite_impl,
  bulk_reinvite_members,
}
use nad_safe_password_manage.Server.Organization.Bulk.{ConfirmData, bulk_confirm_invite}
use nad_safe_password_manage.Server.Organization.Settings.{OrgData, create_organization, put_policy}

-- what an admin or owner asks for
pub data AdminRequest : Type 0 where
  edits : ℕ → EditUserData → AdminRequest
  deletes revokes restores reinvites : ℕ → AdminRequest
  deletes_all revokes_all restores_all reinvites_all : List ℕ → AdminRequest
  invites : InviteData → AdminRequest
  confirms : ℕ → ℕ → AdminRequest
  confirms_all : Option (List ConfirmData) → AdminRequest
  sets_policy : ℕ → Bool → ℕ → AdminRequest

-- An account's request; `with_rights` is about the organization of its path.
pub data Request : Type 0 where
  creates : User → OrgData → Request
  leaves : User → ℕ → Request
  accepts : ℕ → ℕ → User → ℕ → ℕ → Option InviteClaims → Option ℕ → Request
  with_rights : User → ℕ → AdminRequest → Request

abbrev left : {A : Type 0} → M A → Db → Db
left m db = (m db).1

abbrev pub serve : Env → AdminHeaders → ℕ → AdminRequest → Db → Db
serve env h org_id (edits id request) = left (edit_member env h org_id id request)
serve env h org_id (deletes id) = left (delete_member_impl env h org_id id)
serve env h org_id (revokes id) = left (revoke_member_impl env h org_id id)
serve env h org_id (restores id) = left (restore_member_impl env h org_id id)
serve env h org_id (reinvites id) = left (reinvite_member env h org_id id)
serve env h org_id (deletes_all ids) = left (bulk_delete_member env h org_id ids)
serve env h org_id (revokes_all ids) = left (bulk_revoke_members env h org_id ids)
serve env h org_id (restores_all ids) = left (bulk_restore_members env h org_id ids)
serve env h org_id (reinvites_all ids) = left (bulk_reinvite_members env h org_id ids)
serve env h org_id (invites request) = left (send_invite env h org_id request)
serve env h org_id (confirms id key) = left (confirm_invite_impl env h org_id id key)
serve env h org_id (confirms_all keys) = left (bulk_confirm_invite env h org_id keys)
serve env h org_id (sets_policy t enabled text) = left (put_policy env h org_id t enabled text)

-- a route whose guard is `AdminHeaders`
unfoldable pub guarded : Env → User → ℕ → AdminRequest → M (Unit {0})
guarded env who org_id request = do
  h ← admin_headers env who org_id
  write (serve env h org_id request)

unfoldable pub run : Env → Request → Db → Db
run env (creates who request) = left (create_organization env who request)
run env (leaves who org_id) =
    left (org_member_headers env who org_id >>= leave_organization env org_id)
run env (accepts fake_admin org_name who org_id member_id token key) =
    left (accept_invite env fake_admin org_name who org_id member_id token key)
run env (with_rights who org_id request) = left (guarded env who org_id request)

abbrev pub is_invitation : Request → Bool
is_invitation (with_rights who org_id (invites request)) = true
is_invitation _ = false

-- States that requests lead to. The mail server takes every mail of an invitation by address.
pub data Reaches (a : Db) : Db → Type 0 where
  here : Reaches a a
  next :
      {b : Db} (env : Env) (request : Request)
      → (is_invitation request ≡ true → (address : ℕ) → env.mail_accepted address ≡ true)
      → Reaches a b
      → Reaches a (run env request b)
