-- ===== src/Server/Organization/Members.antt =====
-- server/src/api/core/organizations.rs: the guards, and leaving, editing, deleting, revoking and
-- restoring. `who` is the account of the request's token. Events and notifications are left out.
use nad_safe_password_manage.Prelude.{
  ℕ, Bool, not, ◌&&◌, ◌||◌, Option, List, ◌==◌, leb, ltb_ℤ, ◌==ℤ◌,
}
use nad_safe_password_manage.Server.Handler.{
  pure, gets, some_or, write, require, when, for_each, bulk, ◌>>=◌, ◌>>◌,
}
use nad_safe_password_manage.Server.EmergencyAccess.Model.{MembershipType, owner, admin, user}
use nad_safe_password_manage.Server.Organization.Roles.{
  Membership, MembershipStatus, revoked, accepted, confirmed, status_code, status_from_i32,
  type_from_i32, type_code, RawType, from_str, is_custom, at_least, type_eq, has_status, has_type,
  type_ge, restore, revoke,
}
use nad_safe_password_manage.Server.Organization.Model.{
  User, Db, Env, Error, ids_do_not_match, not_a_member, last_owner, no_such_membership, only_owners,
  invalid_type, invalid_collection, yourself, already_revoked, already_active, unauthorized, M,
  find_by_uuid_and_org, find_by_user_and_org, count_confirmed_by_org_and_type, is_collection_of,
  save, delete, delete_collections_of, delete_groups_of, save_collection_user, save_group_user,
}
use nad_safe_password_manage.Server.Organization.Policy.{check_user_allowed}

pub record OrgHeaders : Type 0 where
  pub who : User
  pub membership_type : MembershipType
  pub membership_status : MembershipStatus
  pub membership : Membership

pub record AdminHeaders : Type 0 where
  pub who : User
  pub membership_type : MembershipType
  pub org_id : ℕ

-- the guard `OrgHeaders`, whose organization is the one of the path
unfoldable pub org_headers : Env → User → ℕ → M OrgHeaders
org_headers env who org_id = do
  require (env.is_uuid org_id) unauthorized
  row ← gets (find_by_user_and_org who.uuid org_id)
  m ← some_or unauthorized row
  t ← some_or unauthorized (type_from_i32 m.atype)
  s ← some_or unauthorized (status_from_i32 m.status)
  pure (record { who = who; membership_type = t; membership_status = s; membership = m })

abbrev status_eq : MembershipStatus → MembershipStatus → Bool
status_eq a b = status_code a ==ℤ status_code b

-- the guard `OrgMemberHeaders`
unfoldable pub org_member_headers : Env → User → ℕ → M Membership
org_member_headers env who org_id = do
  h ← org_headers env who org_id
  require (not (status_eq h.membership_status revoked) && at_least h.membership_type user)
      unauthorized
  pure h.membership

-- the guard `AdminHeaders`
unfoldable pub admin_headers : Env → User → ℕ → M AdminHeaders
admin_headers env who org_id = do
  h ← org_headers env who org_id
  require (status_eq h.membership_status confirmed && at_least h.membership_type admin) unauthorized
  pure (record { who = who; membership_type = h.membership_type; org_id = h.membership.org_uuid })

-- the guard `OwnerHeaders`, and the organization it names
unfoldable pub owner_headers : Env → User → ℕ → M ℕ
owner_headers env who org_id = do
  h ← org_headers env who org_id
  require (status_eq h.membership_status confirmed && type_eq h.membership_type owner) unauthorized
  pure h.membership.org_uuid

-- `count_confirmed_by_org_and_type(org_id, Owner) <= 1`
abbrev pub is_last_owner : ℕ → Db → Bool
is_last_owner org_id db = leb (count_confirmed_by_org_and_type org_id owner db) 1

-- `if test && count <= 1 { err! }`
unfoldable pub keep_an_owner : Bool → ℕ → M (Unit {0})
keep_an_owner test org_id = do
  last ← gets (is_last_owner org_id)
  require (not (test && last)) last_owner

unfoldable pub leave_organization : Env → ℕ → Membership → M (Unit {0})
leave_organization env org_id m = do
  require (has_status confirmed m) not_a_member
  keep_an_owner (has_type owner m) org_id
  write (delete env m)

-- a collection of a request, with its rights
pub record CollectionData : Type 0 where
  pub id : ℕ
  pub read_only : Bool
  pub hide_passwords : Bool
  pub manage : Bool

-- the three child boxes of `Manage all collections`
pub record Permissions : Type 0 where
  pub edit_any_collection : Bool
  pub delete_any_collection : Bool
  pub create_new_collections : Bool

pub record EditUserData : Type 0 where
  pub raw_type : RawType
  pub collections : List CollectionData
  pub groups : List ℕ
  pub permissions : Permissions

abbrev pub grants_all : RawType → Permissions → Bool
grants_all raw p =
    is_custom raw && p.edit_any_collection && p.delete_any_collection && p.create_new_collections

-- one collection of the list, for the account
unfoldable pub add_collection : Env → ℕ → ℕ → CollectionData → M (Unit {0})
add_collection env org_id user_id c = do
  known ← gets (is_collection_of org_id c.id)
  require known invalid_collection
  write (
      save_collection_user env (record {
        user_uuid = user_id;
        collection_uuid = c.id;
        read_only = c.read_only;
        hide_passwords = c.hide_passwords;
        manage = c.manage;
      }))

unfoldable pub add_group : Env → ℕ → ℕ → M (Unit {0})
add_group env member_id group_id =
    write (
      save_group_user env (record { groups_uuid = group_id; users_organizations_uuid = member_id }))

-- `T != i32`
abbrev is_other_type : MembershipType → Membership → Bool
is_other_type t m = not (has_type t m)

unfoldable pub edit_member : Env → AdminHeaders → ℕ → ℕ → EditUserData → M (Unit {0})
edit_member env headers org_id member_id request = do
  require (org_id == headers.org_id) ids_do_not_match
  new_type ← some_or invalid_type (from_str request.raw_type)
  let access_all = at_least new_type admin || grants_all request.raw_type request.permissions
  found ← gets (find_by_uuid_and_org member_id org_id)
  m ← some_or no_such_membership found
  require
      (not (
        is_other_type new_type m
        && (type_ge m.atype admin || at_least new_type admin)
        && not (type_eq headers.membership_type owner)))
      only_owners
  require (not (has_type owner m && not (type_eq headers.membership_type owner))) only_owners
  keep_an_owner (has_type owner m && not (type_eq new_type owner) && has_status confirmed m) org_id
  let m' = record m { access_all = access_all; atype = type_code new_type }
  check_user_allowed env m'
  write (delete_collections_of m.user_uuid org_id)
  when (not access_all) (for_each request.collections (add_collection env org_id m.user_uuid))
  write (delete_groups_of env m.uuid)
  for_each request.groups (add_group env m.uuid)
  write (save env m')

unfoldable pub delete_member_impl : Env → AdminHeaders → ℕ → ℕ → M (Unit {0})
delete_member_impl env headers org_id member_id = do
  require (org_id == headers.org_id) ids_do_not_match
  found ← gets (find_by_uuid_and_org member_id org_id)
  m ← some_or no_such_membership found
  require (not (is_other_type user m && not (type_eq headers.membership_type owner))) only_owners
  keep_an_owner (has_type owner m && has_status confirmed m) org_id
  write (delete env m)

unfoldable pub revoke_member_impl : Env → AdminHeaders → ℕ → ℕ → M (Unit {0})
revoke_member_impl env headers org_id member_id = do
  require (org_id == headers.org_id) ids_do_not_match
  found ← gets (find_by_uuid_and_org member_id org_id)
  m ← some_or no_such_membership found
  require (ltb_ℤ (status_code revoked) m.status) already_revoked
  require (not (m.user_uuid == headers.who.uuid)) yourself
  require (not (has_type owner m && not (type_eq headers.membership_type owner))) only_owners
  keep_an_owner (has_type owner m) org_id
  write (save env (revoke m).0)

unfoldable pub restore_member_impl : Env → AdminHeaders → ℕ → ℕ → M (Unit {0})
restore_member_impl env headers org_id member_id = do
  require (org_id == headers.org_id) ids_do_not_match
  found ← gets (find_by_uuid_and_org member_id org_id)
  m ← some_or no_such_membership found
  require (ltb_ℤ m.status (status_code accepted)) already_active
  require (not (m.user_uuid == headers.who.uuid)) yourself
  require (not (has_type owner m && not (type_eq headers.membership_type owner))) only_owners
  check_user_allowed env (restore m).0
  write (save env (restore m).0)

-- The bulk requests go on after an error, and answer with it.
module _ (env : Env) (headers : AdminHeaders) (org_id : ℕ) (ids : List ℕ) where
  unfoldable pub bulk_delete_member : M (List (ℕ × Option Error))
  bulk_delete_member = do
    require (org_id == headers.org_id) ids_do_not_match
    bulk (delete_member_impl env headers org_id) ids

  unfoldable pub bulk_revoke_members : M (List (ℕ × Option Error))
  bulk_revoke_members = do
    require (org_id == headers.org_id) ids_do_not_match
    bulk (revoke_member_impl env headers org_id) ids

  unfoldable pub bulk_restore_members : M (List (ℕ × Option Error))
  bulk_restore_members = do
    require (org_id == headers.org_id) ids_do_not_match
    bulk (restore_member_impl env headers org_id) ids
