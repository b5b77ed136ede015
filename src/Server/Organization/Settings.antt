-- ===== src/Server/Organization/Settings.antt =====
-- server/src/api/core/organizations.rs and two_factor/mod.rs: creating an organization, and setting
-- its policies, which revokes members. Where the code panics, the handler stops with an error.
use nad_safe_password_manage.Prelude.{
  ℕ, Bool, true, false, not, ◌&&◌, Option, none, some, ◌==◌, ltb,
}
use nad_safe_password_manage.Server.Handler.{
  pure, gets, some_or, write, require, when, for_each, ◌>>=◌, ◌>>◌,
}
use nad_safe_password_manage.Server.Table.{put}
use nad_safe_password_manage.Server.EmergencyAccess.Model.{owner, admin}
use nad_safe_password_manage.Server.Organization.Roles.{
  Membership, invited, confirmed, status_code, type_code, has_status, type_lt, new, revoke,
}
use nad_safe_password_manage.Server.Organization.Model.{
  User, Organization, Collection, OrgPolicy, Db, Env, not_allowed_to_create, single_org_forbids,
  ids_do_not_match, not_found, user_not_found, invalid_policy_type, invalid_email, needs_single_org,
  needed_by_reset_password, single_org_removed, two_factor_removed, M, get_uuid, find_user,
  find_organization, find_by_org, find_confirmed_by_org, count_accepted_and_confirmed_by_user, save,
  send,
}
use nad_safe_password_manage.Server.Organization.Policy.{
  OrgPolicyType, two_factor_authentication, single_org, reset_password, policy_code,
  policy_from_i32, is_policy, find_by_org_and_type, is_enabled, is_applicable_to_user,
  has_no_twofactor, save_policy,
}
use nad_safe_password_manage.Server.Organization.Members.{AdminHeaders}

pub record OrgData : Type 0 where
  pub name : ℕ
  pub billing_email : ℕ
  pub key : ℕ
  pub private_key : Option ℕ
  pub public_key : Option ℕ

-- the row of the organization's creator
abbrev pub first_owner : ℕ → ℕ → ℕ → ℕ → Membership
first_owner id user_id org_id key = record (new id user_id org_id none) {
  akey = key;
  access_all = true;
  atype = type_code owner;
  status = status_code confirmed;
}

-- An organization that is new has no members or collections whose revision dates would change.
unfoldable pub create_organization : Env → User → OrgData → M Organization
create_organization env who request = do
  require (env.is_org_creation_allowed who.email) not_allowed_to_create
  forbidden ← gets (is_applicable_to_user who.uuid single_org none)
  require (not forbidden) single_org_forbids
  org_id ← get_uuid
  let org : Organization = record {
    uuid = org_id;
    name = request.name;
    billing_email = env.to_lowercase request.billing_email;
    private_key = request.private_key;
    public_key = request.public_key;
  }
  member_id ← get_uuid
  collection_id ← get_uuid
  let collection : Collection = record { uuid = collection_id; org_uuid = org_id }
  require (env.is_valid_email org.billing_email) invalid_email
  write (λ db. record db { organizations = put (λ o. o.uuid) org db.organizations })
  write (save env (first_owner member_id who.uuid org_id request.key))
  write (λ db. record db { collections = put (λ c. c.uuid) collection db.collections })
  pure org

-- one member whom the policy on two-factor login shuts out
unfoldable pub enforce_2fa_on : Env → Organization → Membership → M (Unit {0})
enforce_2fa_on env org m = do
  lacking ← gets (has_no_twofactor m.user_uuid)
  when (type_lt m.atype admin && lacking) (do
    known ← gets (find_user m.user_uuid)
    when env.mail_enabled (do
      account ← some_or user_not_found known
      send env (two_factor_removed account.email org.name))
    write (save env (revoke m).0))

unfoldable pub enforce_2fa_policy_for_org : Env → ℕ → M (Unit {0})
enforce_2fa_policy_for_org env org_id = do
  organization ← gets (find_organization org_id)
  org ← some_or not_found organization
  members ← gets (find_confirmed_by_org org_id)
  for_each members (enforce_2fa_on env org)

abbrev pub is_in_others : Membership → Db → Bool
is_in_others m db = ltb 0 (count_accepted_and_confirmed_by_user m.user_uuid m.org_uuid db)

unfoldable pub mail_single_org : Env → Membership → M (Unit {0})
mail_single_org env m = do
  organization ← gets (find_organization m.org_uuid)
  org ← some_or not_found organization
  known ← gets (find_user m.user_uuid)
  account ← some_or user_not_found known
  send env (single_org_removed account.email org.name)

-- one member whom the policy on a single organization shuts out
unfoldable pub enforce_single_org_on : Env → Membership → M (Unit {0})
enforce_single_org_on env m = do
  elsewhere ← gets (is_in_others m)
  when (type_lt m.atype admin && not (has_status invited m) && elsewhere)
      (do when env.mail_enabled (mail_single_org env m); write (save env (revoke m).0))

unfoldable pub enforce_single_org : Env → ℕ → M (Unit {0})
enforce_single_org env org_id = do
  members ← gets (find_by_org org_id)
  for_each members (enforce_single_org_on env)

-- the two tests under `enforce_single_org_with_reset_pw_policy`
unfoldable pub check_dependent_policy : ℕ → OrgPolicyType → Bool → M (Unit {0})
check_dependent_policy org_id t enabled = do
  has_single_org ← gets (λ db. is_enabled (find_by_org_and_type org_id single_org db))
  require (not (is_policy t reset_password && enabled && not has_single_org)) needs_single_org
  has_reset ← gets (λ db. is_enabled (find_by_org_and_type org_id reset_password db))
  require (not (is_policy t single_org && not enabled && has_reset)) needed_by_reset_password

abbrev pub or_new : ℕ → ℕ → OrgPolicyType → Option OrgPolicy → OrgPolicy
or_new id org_id t (some p) = p
or_new id org_id t none = record {
  uuid = id;
  org_uuid = org_id;
  atype = policy_code t;
  enabled = false;
  data_text = 0;
}

-- An identifier is drawn whether or not the policy is new.
unfoldable pub put_policy : Env → AdminHeaders → ℕ → ℕ → Bool → ℕ → M OrgPolicy
put_policy env headers org_id pol_type enabled text = do
  require (org_id == headers.org_id) ids_do_not_match
  t ← some_or invalid_policy_type (policy_from_i32 pol_type)
  when env.enforce_single_org_with_reset_pw_policy (check_dependent_policy org_id t enabled)
  when (is_policy t two_factor_authentication && enabled) (enforce_2fa_policy_for_org env org_id)
  when (is_policy t single_org && enabled) (enforce_single_org env org_id)
  id ← get_uuid
  known ← gets (find_by_org_and_type org_id t)
  let p = record (or_new id org_id t known) { enabled = enabled; data_text = text }
  write (save_policy p)
  pure p
