-- ===== src/Server/Organization/Tests.antt =====
-- Concrete runs of the requests about memberships, at an organization with an owner, an
-- administrator and a new member.
use nad_safe_password_manage.Prelude.{
  ℕ, ◌+◌, ◌≤◌, ◌≡◌, refl, true, false, not, ◌&&◌, ◌||◌, none, some, List, [], ◌∷◌, ◌==◌, ok, arith,
  pos, negsuc,
}
use nad_safe_password_manage.Server.Handler.{
  pure, fail, gets, some_or, write, require, when, attempt, ◌>>=◌, ◌>>◌,
}
use nad_safe_password_manage.Server.Table.{find, put, modify, remove, Unique}
use nad_safe_password_manage.Server.EmergencyAccess.Model.{MembershipType, owner, admin, user}
use nad_safe_password_manage.Server.Organization.Roles.{
  Membership, MembershipStatus, accepted, confirmed, status_code, type_code, digit, new, restore,
  revoke, get_unrevoked_status, has_status, has_type, type_lt, type_eq,
}
use nad_safe_password_manage.Server.Organization.Model.{
  User, Db, invite_confirmed, create_user, Env, get_uuid, find_membership, find_by_uuid_and_org,
  find_user, save, delete, send, count_confirmed_by_org_and_type, take_invitation,
}
use nad_safe_password_manage.Server.Organization.Policy.{
  single_org, is_applicable_to_user, is_in_other_org, lacks_2fa, enforce_policies,
  check_user_allowed,
}
use nad_safe_password_manage.Server.Organization.Members.{
  AdminHeaders, keep_an_owner, org_headers, admin_headers, revoke_member_impl,
}
use nad_safe_password_manage.Server.Organization.Invitations.{
  InviteData, confirm_invite_impl, mail_confirmed, delete_user, validate, find_or_create_invitee,
  mail_or_undo, invite_one, send_invite,
}
use nad_safe_password_manage.Server.Organization.Sound.{Sound, is_valid}
use nad_safe_password_manage.Server.Organization.Requests.{
  AdminRequest, guarded, revokes, deletes, with_rights, run, serve, Reaches, here, next,
}
use nad_safe_password_manage.Server.Organization.Invariant.{
  confirmed_owner_remains, statuses_in_range,
}
use nad_safe_password_manage.Server.Organization.Revocation.{restore-revoke}
use nad_safe_password_manage.Server.Organization.Rights.{SameOwners}
use nad_safe_password_manage.Server.Organization.Rights.Handlers.{owners_untouched}
use nad_safe_password_manage.Server.Organization.Admission.{confirm_invite_impl-ok, confirmed_row}

abbrev account : ℕ → User
account id = record {
  uuid = id;
  email = 1000 + id;
  password_hash = some 1;
  verified_at = some 1;
  updated_at = 0;
}

abbrev row : ℕ → ℕ → MembershipType → MembershipStatus → Membership
row id user_id t s = record {
  uuid = id;
  user_uuid = user_id;
  org_uuid = 7;
  invited_by_email = none;
  access_all = false;
  akey = 0;
  status = status_code s;
  atype = type_code t;
  reset_password_key = none;
  external_id = none;
}

abbrev rows : List Membership
rows = row 10 1 owner confirmed ∷ row 11 2 admin confirmed ∷ row 12 3 user accepted ∷ []

abbrev pub db : Db
db = record {
  memberships = rows;
  organizations =
      record { uuid = 7; name = 70; billing_email = 71; private_key = none; public_key = none }
      ∷ [];
  policies = [];
  users = account 1 ∷ account 2 ∷ account 3 ∷ account 4 ∷ [];
  invitations = [];
  collections = [];
  users_collections = [];
  groups = [];
  groups_users = [];
  twofactors = [];
  outbox = [];
  uuid_at = λ n. n + 100;
  drawn = 0;
}

abbrev pub env : Env
env = record {
  mail_enabled = true;
  invitations_allowed = true;
  is_org_creation_allowed = λ email. true;
  is_email_domain_allowed = λ email. true;
  email_2fa_auto_fallback = false;
  enforce_single_org_with_reset_pw_policy = false;
  is_valid_email = λ email. true;
  to_lowercase = λ email. email;
  is_uuid = λ id. true;
  now = 5;
  mail_accepted = λ address. true;
  is_password_or_otp_valid = true;
  auto_enroll_enabled = λ text. none;
}

db-Sound : Sound 7 db
unfolding Unique find
db-Sound = record {
  unique = (refl, (refl, (refl, tt)));
  valid = refl;
  owned = omega arith;
  fresh = λ n h. ground arith;
  distinct = λ n k h. omega (arith, h);
}

abbrev asked : AdminRequest → Db
asked request = run env (with_rights (account 1) 7 request) db

revoked-Reaches : Reaches db (asked (revokes 12))
revoked-Reaches = next env (with_rights (account 1) 7 (revokes 12)) (λ is address. refl) here

confirmed_owner_remains_example : 1 ≤ count_confirmed_by_org_and_type 7 owner (asked (revokes 12))
confirmed_owner_remains_example = confirmed_owner_remains 7 db-Sound revoked-Reaches

abbrev revoked_row : Membership
revoked_row = record (row 12 3 user accepted) { status = negsuc 126 }

found_lem : find_membership 12 (asked (revokes 12)).memberships ≡ some revoked_row
unfolding run guarded admin_headers org_headers revoke_member_impl keep_an_owner revoke save find
    put modify pure gets some_or write require ◌>>=◌ ◌>>◌
found_lem = refl

statuses_in_range_example :
    (is_valid revoked_row ≡ true)
    × (is_valid (revoke revoked_row).0 ≡ true)
    × (is_valid (restore revoked_row).0 ≡ true)
statuses_in_range_example = statuses_in_range 7 12 revoked_row db-Sound revoked-Reaches found_lem

restore-revoke_example :
    ((revoke (row 11 2 admin confirmed)).1 ≡ true)
    × (restore (revoke (row 11 2 admin confirmed)).0 ≡ (row 11 2 admin confirmed, true))
    × (get_unrevoked_status (revoke (row 11 2 admin confirmed)).0 ≡ pos 2)
restore-revoke_example = restore-revoke (row 11 2 admin confirmed) refl refl

abbrev by_admin : AdminHeaders
by_admin = record { who = account 2; membership_type = admin; org_id = 7 }

owners_untouched_example : SameOwners db (serve env by_admin 7 (deletes 12) db)
owners_untouched_example = owners_untouched env by_admin refl db 7 (deletes 12) refl

abbrev by_owner : AdminHeaders
by_owner = record { who = account 1; membership_type = owner; org_id = 7 }

abbrev after_confirmation : Db
after_confirmation = record db {
  memberships =
      row 10 1 owner confirmed
      ∷ row 11 2 admin confirmed
      ∷ record (row 12 3 user confirmed) { akey = 9 }
      ∷ [];
  users = account 1 ∷ account 2 ∷ record (account 3) { updated_at = 5 } ∷ account 4 ∷ [];
  outbox = invite_confirmed 1003 70 ∷ [];
}

confirmation_lem : confirm_invite_impl env by_owner 7 12 9 db ≡ (ok tt, after_confirmation)
unfolding confirm_invite_impl check_user_allowed enforce_policies is_applicable_to_user
    mail_confirmed send save find put modify pure gets some_or write require when ◌>>=◌ ◌>>◌
confirmation_lem = refl

confirm_invite_impl-ok_example :
    (m : Membership) × (find_by_uuid_and_org 12 7 db ≡ some m)
    × (has_status accepted m ≡ true)
    × ((has_type user m || type_eq owner owner) ≡ true)
    × (find_membership m.uuid after_confirmation.memberships ≡ some (confirmed_row m 9))
    × ((not (type_lt m.atype admin)
          || (not (lacks_2fa m after_confirmation)
              && not (is_applicable_to_user m.user_uuid single_org (some m.org_uuid) db)
              && not (is_in_other_org m db)))
        ≡ true)
confirm_invite_impl-ok_example =
    confirm_invite_impl-ok env by_owner 7 12 9 db after_confirmation confirmation_lem

-- Two addresses are invited: the first makes an account, and for the second, which has an account,
-- the mail is refused. The flag of the first is still set, and that account is deleted.
abbrev refusing : Env
refusing = record env { mail_accepted = λ address. not (address == 1004) }

abbrev both : InviteData
both = record {
  emails = 5000 ∷ 1004 ∷ [];
  groups = [];
  raw_type = digit 2;
  collections = [];
  permissions = record {
    edit_any_collection = false;
    delete_any_collection = false;
    create_new_collections = false;
  };
}

deleted_account : find_user 4 (send_invite refusing by_owner 7 both db).1 ≡ none
unfolding send_invite validate find_or_create_invitee create_user invite_one mail_or_undo
    delete_user keep_an_owner take_invitation get_uuid new send save delete find put modify remove
    attempt pure fail gets some_or write require when ◌>>=◌ ◌>>◌
deleted_account = refl
