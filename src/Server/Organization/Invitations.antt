-- ===== src/Server/Organization/Invitations.antt =====
-- server/src/api/core/organizations.rs and mod.rs: inviting members, and their way to a confirmed
-- membership.
use nad_safe_password_manage.Prelude.{
  ℕ, Bool, true, false, not, ◌&&◌, ◌||◌, Option, none, some, List, [], ◌∷◌, ◌==◌, every, exists,
  keep_if, if◌then◌else◌,
}
use nad_safe_password_manage.Server.Handler.{
  pure, fail, gets, some_or, write, require, when, for_each, attempt, bulk, ◌>>=◌, ◌>>◌,
}
use nad_safe_password_manage.Server.Table.{remove}
use nad_safe_password_manage.Server.EmergencyAccess.Model.{
  is_some, or_else, MembershipType, owner, admin, user,
}
use nad_safe_password_manage.Server.Organization.Roles.{
  Membership, invited, accepted, confirmed, status_code, type_code, RawType, from_str, type_eq,
  has_status, has_type, at_least, new,
}
use nad_safe_password_manage.Server.Organization.Model.{
  User, Db, Env, Error, ids_do_not_match, no_such_membership, only_owners, invalid_type,
  invalid_collection, invalid_group, user_does_not_exist, domain_not_eligible,
  already_in_organization, invite_not_sent, already_accepted, user_not_found,
  invitations_not_allowed, invalid_token, different_account, invalid_claim,
  reset_password_key_required, key_not_set, invalid_state, not_found, invite, invite_accepted,
  invite_confirmed, M, get_uuid, find_user, find_by_mail, find_organization, find_by_uuid_and_org,
  find_by_user_and_org, find_any_state_by_user, find_confirmed_by_user, save, delete, send,
  take_invitation, save_invitation, create_user, is_collection_of,
}
use nad_safe_password_manage.Server.Organization.Policy.{
  check_user_allowed, org_is_reset_password_auto_enroll,
}
use nad_safe_password_manage.Server.Organization.Members.{
  AdminHeaders, CollectionData, Permissions, grants_all, keep_an_owner, add_collection, add_group,
}

-- `User::delete`, less the tables that are not part of this database
unfoldable pub delete_user : Env → User → M (Unit {0})
delete_user env account = do
  confirmed_in ← gets (find_confirmed_by_user account.uuid)
  for_each confirmed_in (λ m. keep_an_owner (has_type owner m) m.org_uuid)
  rows ← gets (find_any_state_by_user account.uuid)
  for_each rows (λ m. write (delete env m))
  write (λ db. record db { twofactors = keep_if (λ id. not (id == account.uuid)) db.twofactors })
  write (take_invitation env account.email)
  write (λ db. record db { users = remove (λ u. u.uuid) account.uuid db.users })

pub record InviteData : Type 0 where
  pub emails : List ℕ
  pub groups : List ℕ
  pub raw_type : RawType
  pub collections : List CollectionData
  pub permissions : Permissions

abbrev is_group_of : ℕ → ℕ → Db → Bool
is_group_of org_id id db = exists (λ g. g.uuid == id && g.organizations_uuid == org_id) db.groups

-- `InviteData::validate`
unfoldable pub validate : ℕ → InviteData → M (Unit {0})
validate org_id request = do
  known_collections ← gets (λ db. every (λ c. is_collection_of org_id c.id db) request.collections)
  require known_collections invalid_collection
  known_groups ← gets (λ db. every (λ g. is_group_of org_id g db) request.groups)
  require known_groups invalid_group

-- whom an invitation is for, whether it starts accepted, and whether an account was made
pub record Invitee : Type 0 where
  pub account : User
  pub is_accepted : Bool
  pub created : Bool

abbrev pub known_invitee : Env → ℕ → ℕ → Option User → M Invitee
known_invitee env org_id email none = do
  require env.invitations_allowed user_does_not_exist
  require (env.is_email_domain_allowed email) domain_not_eligible
  when (not env.mail_enabled) (save_invitation env email)
  u ← create_user env email
  pure (record { account = u; is_accepted = false; created = true })
known_invitee env org_id email (some u) = do
  row ← gets (find_by_user_and_org u.uuid org_id)
  require (not (is_some row)) already_in_organization
  pure (record {
    account = u;
    is_accepted = not env.mail_enabled && is_some u.password_hash;
    created = false;
  })

unfoldable pub find_or_create_invitee : Env → ℕ → ℕ → M Invitee
find_or_create_invitee env org_id email = do
  known ← gets (find_by_mail env email)
  known_invitee env org_id email known

abbrev pub mail_result : Env → Bool → User → Membership → Option Error → M (Unit {0})
mail_result env user_created u m none = pure tt
mail_result env user_created u m (some error) = do
  if user_created then delete_user env u else write (delete env m)
  fail invite_not_sent

-- `mail::send_invite`, and what is taken back where it fails
unfoldable pub mail_or_undo : Env → ℕ → Bool → User → Membership → M (Unit {0})
mail_or_undo env org_id user_created u m = do
  organization ← gets (find_organization org_id)
  org ← some_or not_found organization
  error ← attempt (send env (invite u.email org.name))
  mail_result env user_created u m error

-- One address of the list. `user_created` is the flag before it, which is answered as it is after.
unfoldable pub invite_one :
    Env → AdminHeaders → ℕ → InviteData → MembershipType → Bool → Bool → ℕ → M Bool
invite_one env headers org_id request new_type access_all user_created email = do
  invitee ← find_or_create_invitee env org_id email
  let user_created' = user_created || invitee.created
  id ← get_uuid
  let m = record (new id invitee.account.uuid org_id (some headers.who.email)) {
    access_all = access_all;
    atype = type_code new_type;
    status = status_code (if invitee.is_accepted then accepted else invited);
  }
  write (save env m)
  when env.mail_enabled (mail_or_undo env org_id user_created' invitee.account m)
  when (not access_all)
      (for_each request.collections (add_collection env org_id invitee.account.uuid))
  for_each request.groups (add_group env m.uuid)
  pure user_created'

abbrev pub invite_all :
    Env → AdminHeaders → ℕ → InviteData → MembershipType → Bool → Bool → List ℕ → M (Unit {0})
invite_all env headers org_id request new_type access_all user_created [] = pure tt
invite_all env headers org_id request new_type access_all user_created (email ∷ emails) = do
  user_created' ← invite_one env headers org_id request new_type access_all user_created email
  invite_all env headers org_id request new_type access_all user_created' emails

unfoldable pub send_invite : Env → AdminHeaders → ℕ → InviteData → M (Unit {0})
send_invite env headers org_id request = do
  require (org_id == headers.org_id) ids_do_not_match
  validate org_id request
  new_type ← some_or invalid_type (from_str request.raw_type)
  require (not (not (type_eq new_type user) && not (type_eq headers.membership_type owner)))
      only_owners
  let access_all = at_least new_type admin || grants_all request.raw_type request.permissions
  invite_all env headers org_id request new_type access_all false request.emails

unfoldable pub reinvite_member_impl : Env → ℕ → ℕ → M (Unit {0})
reinvite_member_impl env org_id member_id = do
  found ← gets (find_by_uuid_and_org member_id org_id)
  m ← some_or no_such_membership found
  require (has_status invited m) already_accepted
  known ← gets (find_user m.user_uuid)
  account ← some_or user_not_found known
  require (not (not env.invitations_allowed && not (is_some account.password_hash)))
      invitations_not_allowed
  organization ← gets (find_organization org_id)
  org ← some_or not_found organization
  if env.mail_enabled
      then send env (invite account.email org.name)
      else if not (is_some account.password_hash)
      then save_invitation env account.email
      else (do
        write (take_invitation env account.email)
        write (save env (record m { status = status_code accepted })))

-- the claims of an invitation's token
pub record InviteClaims : Type 0 where
  pub email : ℕ
  pub org_id : ℕ
  pub member_id : ℕ
  pub invited_by_email : Option ℕ

abbrev pub unwrap_or : Option ℕ → ℕ → ℕ
unwrap_or none d = d
unwrap_or (some a) d = a

-- api/core/mod.rs
unfoldable pub accept_org_invite : Env → User → Membership → Option ℕ → M (Unit {0})
accept_org_invite env who m key = do
  require (has_status invited m) already_accepted
  let m' = record m { status = status_code accepted; reset_password_key = key }
  check_user_allowed env m'
  write (save env m')
  organization ← gets (find_organization m.org_uuid)
  when env.mail_enabled (do
    org ← some_or not_found organization
    send env (invite_accepted (unwrap_or m.invited_by_email org.billing_email) org.name))

-- the part of `accept_invite` for an invitation that is not the admin panel's
unfoldable pub accept_as_member : Env → User → InviteClaims → Option ℕ → M (Unit {0})
accept_as_member env who claims key = do
  found ← gets (find_by_uuid_and_org claims.member_id claims.org_id)
  m ← some_or no_such_membership found
  enroll ← gets (org_is_reset_password_auto_enroll env m.org_uuid)
  require (not (enroll && not (is_some key))) reset_password_key_required
  let m' = record m { invited_by_email = or_else m.invited_by_email claims.invited_by_email }
  accept_org_invite env who m' (if enroll then key else none)

-- `fake_admin` is `FAKE_ADMIN_UUID`, and `org_name` `invitation_org_name`
unfoldable pub accept_invite :
    Env → ℕ → ℕ → User → ℕ → ℕ → Option InviteClaims → Option ℕ → M (Unit {0})
accept_invite env fake_admin org_name who org_id member_id token key = do
  claims ← some_or invalid_token token
  require (claims.email == who.email) different_account
  require (claims.org_id == org_id) invalid_claim
  require (claims.member_id == member_id) invalid_claim
  write (take_invitation env claims.email)
  if claims.member_id == fake_admin
      then when env.mail_enabled (send env (invite_confirmed claims.email org_name))
      else accept_as_member env who claims key

unfoldable pub mail_confirmed : Env → ℕ → Membership → M (Unit {0})
mail_confirmed env org_id m = do
  organization ← gets (find_organization org_id)
  org ← some_or not_found organization
  known ← gets (find_user m.user_uuid)
  account ← some_or user_not_found known
  send env (invite_confirmed account.email org.name)

unfoldable pub confirm_invite_impl : Env → AdminHeaders → ℕ → ℕ → ℕ → M (Unit {0})
confirm_invite_impl env headers org_id member_id key = do
  require (org_id == headers.org_id) ids_do_not_match
  require (not (key == 0 || member_id == 0)) key_not_set
  found ← gets (find_by_uuid_and_org member_id org_id)
  m ← some_or no_such_membership found
  require (not (not (has_type user m) && not (type_eq headers.membership_type owner))) only_owners
  require (has_status accepted m) invalid_state
  let m' = record m { status = status_code confirmed; akey = key }
  check_user_allowed env m'
  when env.mail_enabled (mail_confirmed env org_id m')
  write (save env m')

unfoldable pub reinvite_member : Env → AdminHeaders → ℕ → ℕ → M (Unit {0})
reinvite_member env headers org_id member_id = do
  require (org_id == headers.org_id) ids_do_not_match
  reinvite_member_impl env org_id member_id

unfoldable pub bulk_reinvite_members : Env → AdminHeaders → ℕ → List ℕ → M (List (ℕ × Option Error))
bulk_reinvite_members env headers org_id ids = do
  require (org_id == headers.org_id) ids_do_not_match
  bulk (reinvite_member_impl env org_id) ids
