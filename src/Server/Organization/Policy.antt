-- ===== src/Server/Organization/Policy.antt =====
-- server/src/db/models/org_policy.rs: policies, and who may join an organization under them.
use nad_safe_password_manage.Prelude.{
  ℕ, Bool, false, not, ◌&&◌, Option, none, some, List, [], ◌∷◌, ◌==◌, ltb, exists, keep_if,
  if◌then◌else◌, ltb_ℤ,
}
use nad_safe_password_manage.Server.Handler.{fail, gets, some_or, write, require, when, ◌>>=◌, ◌>>◌}
use nad_safe_password_manage.Server.Table.{put, first}
use nad_safe_password_manage.Server.EmergencyAccess.Model.{is_some, admin}
use nad_safe_password_manage.Server.Organization.Roles.{Membership, invited, status_code, type_lt}
use nad_safe_password_manage.Server.Organization.Model.{
  User, OrgPolicy, Db, Env, requires_2fa, email_not_verified, other_org_forbids, org_forbids_others,
  user_not_found, M, find_user, find_confirmed_by_user_and_org, is_joined,
  count_accepted_and_confirmed_by_user,
}

pub data OrgPolicyType : Type 0 where
  two_factor_authentication master_password password_generator single_org : OrgPolicyType
  personal_ownership disable_send send_options reset_password : OrgPolicyType
  remove_unlock_with_pin restricted_item_types uri_match_defaults : OrgPolicyType

abbrev pub policy_code : OrgPolicyType → ℕ
policy_code two_factor_authentication = 0
policy_code master_password = 1
policy_code password_generator = 2
policy_code single_org = 3
policy_code personal_ownership = 5
policy_code disable_send = 6
policy_code send_options = 7
policy_code reset_password = 8
policy_code remove_unlock_with_pin = 14
policy_code restricted_item_types = 15
policy_code uri_match_defaults = 16

abbrev pub policy_types : List OrgPolicyType
policy_types =
    two_factor_authentication ∷ master_password ∷ password_generator ∷ single_org
    ∷ personal_ownership ∷ disable_send ∷ send_options ∷ reset_password ∷ remove_unlock_with_pin
    ∷ restricted_item_types ∷ uri_match_defaults ∷ []

-- `OrgPolicyType::from_i32`
abbrev pub policy_from_i32 : ℕ → Option OrgPolicyType
policy_from_i32 n = first (keep_if (λ t. policy_code t == n) policy_types)

abbrev pub is_policy : OrgPolicyType → OrgPolicyType → Bool
is_policy a b = policy_code a == policy_code b

-- `OrgPolicy::find_by_org_and_type`
abbrev pub find_by_org_and_type : ℕ → OrgPolicyType → Db → Option OrgPolicy
find_by_org_and_type org_id t db =
    first (keep_if (λ p. p.org_uuid == org_id && p.atype == policy_code t) db.policies)

abbrev pub is_enabled : Option OrgPolicy → Bool
is_enabled none = false
is_enabled (some p) = p.enabled

-- `find_accepted_and_confirmed_by_user_and_active_policy`: the policies joined with the rows of
-- the user, and one answer for each pair
abbrev pub find_accepted_and_confirmed_by_user_and_active_policy :
    ℕ → OrgPolicyType → Db → List OrgPolicy
find_accepted_and_confirmed_by_user_and_active_policy user_id t db =
    keep_if
      (λ p.
        p.atype == policy_code t
        && p.enabled
        && exists (λ m. m.user_uuid == user_id && m.org_uuid == p.org_uuid && is_joined m)
            db.memberships)
      db.policies

abbrev is_excluded : Option ℕ → ℕ → Bool
is_excluded none org_id = false
is_excluded (some excluded) org_id = excluded == org_id

abbrev pub is_below_admin : Option Membership → Bool
is_below_admin none = false
is_below_admin (some m) = type_lt m.atype admin

-- `OrgPolicy::is_applicable_to_user`
unfoldable pub is_applicable_to_user : ℕ → OrgPolicyType → Option ℕ → Db → Bool
is_applicable_to_user user_id t excluded db =
    exists
      (λ p.
        not (is_excluded excluded p.org_uuid)
        && is_below_admin (find_confirmed_by_user_and_org user_id p.org_uuid db))
      (find_accepted_and_confirmed_by_user_and_active_policy user_id t db)

-- `TwoFactor::find_by_user(..).is_empty()`
abbrev pub has_no_twofactor : ℕ → Db → Bool
has_no_twofactor user_id db = not (exists (λ id. id == user_id) db.twofactors)

unfoldable pub activate_email_2fa : User → M (Unit {0})
activate_email_2fa account = do
  require (is_some account.verified_at) email_not_verified
  write (λ db. record db { twofactors = account.uuid ∷ db.twofactors })

unfoldable pub find_and_activate_email_2fa : ℕ → M (Unit {0})
find_and_activate_email_2fa user_id = do
  known ← gets (find_user user_id)
  account ← some_or user_not_found known
  activate_email_2fa account

abbrev pub lacks_2fa : Membership → Db → Bool
lacks_2fa m db =
    is_enabled (find_by_org_and_type m.org_uuid two_factor_authentication db)
    && has_no_twofactor m.user_uuid db

abbrev pub is_in_other_org : Membership → Db → Bool
is_in_other_org m db =
    is_enabled (find_by_org_and_type m.org_uuid single_org db)
    && ltb 0 (count_accepted_and_confirmed_by_user m.user_uuid m.org_uuid db)

unfoldable pub enforce_policies : Env → Membership → M (Unit {0})
enforce_policies env m = do
  lacking ← gets (lacks_2fa m)
  when lacking (
      if env.email_2fa_auto_fallback
      then find_and_activate_email_2fa m.user_uuid
      else fail requires_2fa)
  forbidden ← gets (is_applicable_to_user m.user_uuid single_org (some m.org_uuid))
  require (not forbidden) other_org_forbids
  elsewhere ← gets (is_in_other_org m)
  require (not elsewhere) org_forbids_others

-- `OrgPolicy::check_user_allowed`
unfoldable pub check_user_allowed : Env → Membership → M (Unit {0})
check_user_allowed env m =
    when (type_lt m.atype admin && ltb_ℤ (status_code invited) m.status) (enforce_policies env m)

-- `OrgPolicy::org_is_reset_password_auto_enroll`; data that serde refuses counts as off
abbrev is_auto_enroll : Env → Option OrgPolicy → Bool
is_auto_enroll env none = false
is_auto_enroll env (some p) = elim (env.auto_enroll_enabled p.data_text) [
  | none ↦ false
  | some enroll ↦ p.enabled && enroll
]

unfoldable pub org_is_reset_password_auto_enroll : Env → ℕ → Db → Bool
org_is_reset_password_auto_enroll env org_id db =
    is_auto_enroll env (find_by_org_and_type org_id reset_password db)

-- `OrgPolicy::save`: the uuid is the key, and an organization has one policy of a type
unfoldable pub save_policy : OrgPolicy → Db → Db
save_policy p db = record db {
  policies =
      put (λ x. x.uuid) p
        (keep_if
          (λ x. not (x.org_uuid == p.org_uuid && x.atype == p.atype && not (x.uuid == p.uuid)))
          db.policies);
}
