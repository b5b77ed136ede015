-- ===== src/Server/Organization/Model.antt =====
-- The database, the configuration and the queries that the handlers of organizations use. The
-- generator of identifiers (`get_uuid`) is part of the state: `uuid_at n` is the one drawn after
-- `n` others. Texts are numbers, 0 the empty one. A failing database is not treated.
use nad_safe_password_manage.Prelude.{
  ℕ, suc, Bool, not, ◌&&◌, ◌||◌, Option, none, some, List, [], ◌∷◌, ◌++◌, ◌==◌, Result, keep_if,
  count_if, exists, if◌then◌else◌,
}
use nad_safe_password_manage.Server.Handler.{Handler, pure, write, require, ◌>>=◌, ◌>>◌}
use nad_safe_password_manage.Server.Table.{find, put, modify, remove, check, first}
use nad_safe_password_manage.Server.EmergencyAccess.Model.{MembershipType}
use nad_safe_password_manage.Server.Organization.Roles.{
  Membership, accepted, confirmed, has_status, has_type,
}

pub record User : Type 0 where
  pub uuid : ℕ
  pub email : ℕ
  pub password_hash : Option ℕ
  pub verified_at : Option ℕ
  pub updated_at : ℕ

pub record Organization : Type 0 where
  pub uuid : ℕ
  pub name : ℕ
  pub billing_email : ℕ
  pub private_key : Option ℕ
  pub public_key : Option ℕ

pub record Collection : Type 0 where
  pub uuid : ℕ
  pub org_uuid : ℕ

pub record CollectionUser : Type 0 where
  pub user_uuid : ℕ
  pub collection_uuid : ℕ
  pub read_only : Bool
  pub hide_passwords : Bool
  pub manage : Bool

pub record Group : Type 0 where
  pub uuid : ℕ
  pub organizations_uuid : ℕ

pub record GroupUser : Type 0 where
  pub groups_uuid : ℕ
  pub users_organizations_uuid : ℕ

pub record OrgPolicy : Type 0 where
  pub uuid : ℕ
  pub org_uuid : ℕ
  pub atype : ℕ
  pub enabled : Bool
  pub data_text : ℕ

-- a mail by its address, and the organization it names
pub data Mail : Type 0 where
  invite invite_accepted invite_confirmed single_org_removed two_factor_removed : ℕ → ℕ → Mail

abbrev pub address : Mail → ℕ
address (invite a org) = a
address (invite_accepted a org) = a
address (invite_confirmed a org) = a
address (single_org_removed a org) = a
address (two_factor_removed a org) = a

-- `twofactors` are the owners of the two-factor rows that `TwoFactor::find_by_user` returns.
pub record Db : Type 0 where
  pub memberships : List Membership
  pub organizations : List Organization
  pub policies : List OrgPolicy
  pub users : List User
  pub invitations : List ℕ
  pub collections : List Collection
  pub users_collections : List CollectionUser
  pub groups : List Group
  pub groups_users : List GroupUser
  pub twofactors : List ℕ
  pub outbox : List Mail
  pub uuid_at : ℕ → ℕ
  pub drawn : ℕ

-- The configuration, the clock and the libraries: which addresses the mail server takes mail for,
-- whether the password or code of the request is right, and what serde reads from a policy's data.
pub record Env : Type 0 where
  pub mail_enabled : Bool
  pub invitations_allowed : Bool
  pub is_org_creation_allowed : ℕ → Bool
  pub is_email_domain_allowed : ℕ → Bool
  pub email_2fa_auto_fallback : Bool
  pub enforce_single_org_with_reset_pw_policy : Bool
  pub is_valid_email : ℕ → Bool
  pub to_lowercase : ℕ → ℕ
  pub is_uuid : ℕ → Bool
  pub now : ℕ
  pub mail_accepted : ℕ → Bool
  pub is_password_or_otp_valid : Bool
  pub auto_enroll_enabled : ℕ → Option Bool

pub data Error : Type 0 where
  not_allowed_to_create single_org_forbids ids_do_not_match not_found not_a_member : Error
  last_owner no_such_membership only_owners invalid_type invalid_collection invalid_group : Error
  user_does_not_exist domain_not_eligible already_in_organization invalid_email mail_error : Error
  invite_not_sent already_accepted user_not_found invitations_not_allowed : Error
  invalid_token different_account invalid_claim reset_password_key_required : Error
  key_not_set invalid_state requires_2fa email_not_verified other_org_forbids : Error
  org_forbids_others yourself already_revoked already_active invalid_policy_type : Error
  needs_single_org needed_by_reset_password invalid_password unauthorized missing_id : Error

abbrev pub M : Type 0 → Type 0
M A = Handler Db Error A

-- `get_uuid`
unfoldable pub get_uuid : M ℕ
get_uuid db = (Result.ok (db.uuid_at db.drawn), record db { drawn = suc db.drawn })

abbrev pub find_user : ℕ → Db → Option User
find_user id db = find (λ u. u.uuid) id db.users

abbrev pub find_by_mail : Env → ℕ → Db → Option User
find_by_mail env mail db = find (λ u. u.email) (env.to_lowercase mail) db.users

abbrev pub find_organization : ℕ → Db → Option Organization
find_organization id db = find (λ o. o.uuid) id db.organizations

abbrev pub find_membership : ℕ → List Membership → Option Membership
find_membership = find (λ m. m.uuid)

-- the uuid is the primary key, so at most one row is left to be checked
abbrev pub find_by_uuid_and_org : ℕ → ℕ → Db → Option Membership
find_by_uuid_and_org id org_id db =
    check (λ m. m.org_uuid == org_id) (find_membership id db.memberships)

abbrev pub find_by_user_and_org : ℕ → ℕ → Db → Option Membership
find_by_user_and_org user_id org_id db =
    first (keep_if (λ m. m.user_uuid == user_id && m.org_uuid == org_id) db.memberships)

abbrev pub find_confirmed_by_user_and_org : ℕ → ℕ → Db → Option Membership
find_confirmed_by_user_and_org user_id org_id db = first (
    keep_if (λ m. m.user_uuid == user_id && m.org_uuid == org_id && has_status confirmed m)
      db.memberships)

abbrev pub find_by_org : ℕ → Db → List Membership
find_by_org org_id db = keep_if (λ m. m.org_uuid == org_id) db.memberships

abbrev pub find_confirmed_by_org : ℕ → Db → List Membership
find_confirmed_by_org org_id db =
    keep_if (λ m. m.org_uuid == org_id && has_status confirmed m) db.memberships

abbrev pub find_any_state_by_user : ℕ → Db → List Membership
find_any_state_by_user user_id db = keep_if (λ m. m.user_uuid == user_id) db.memberships

abbrev pub find_confirmed_by_user : ℕ → Db → List Membership
find_confirmed_by_user user_id db =
    keep_if (λ m. m.user_uuid == user_id && has_status confirmed m) db.memberships

abbrev pub is_joined : Membership → Bool
is_joined m = has_status accepted m || has_status confirmed m

abbrev pub count_accepted_and_confirmed_by_user : ℕ → ℕ → Db → ℕ
count_accepted_and_confirmed_by_user user_id excluded db =
    count_if (λ m. m.user_uuid == user_id && not (m.org_uuid == excluded) && is_joined m)
      db.memberships

-- a confirmed member of the organization, of the type
abbrev pub is_confirmed : ℕ → MembershipType → Membership → Bool
is_confirmed org_id t m = m.org_uuid == org_id && has_type t m && has_status confirmed m

abbrev pub count_confirmed_by_org_and_type : ℕ → MembershipType → Db → ℕ
count_confirmed_by_org_and_type org_id t db = count_if (is_confirmed org_id t) db.memberships

-- `User::update_uuid_revision`
abbrev pub update_uuid_revision : Env → ℕ → Db → Db
update_uuid_revision env id db = record db {
  users = modify (λ u. u.uuid) id (λ u. record u { updated_at = env.now }) db.users;
}

-- `Membership::save`
unfoldable pub save : Env → Membership → Db → Db
save env m db =
    let db' = update_uuid_revision env m.user_uuid db in
    record db' { memberships = put (λ x. x.uuid) m db'.memberships }

-- `Collection::find_by_uuid_and_org(..).is_some()`
abbrev pub is_collection_of : ℕ → ℕ → Db → Bool
is_collection_of org_id id db = exists (λ c. c.uuid == id && c.org_uuid == org_id) db.collections

-- `CollectionUser::delete_all_by_user_and_org`
abbrev pub delete_collections_of : ℕ → ℕ → Db → Db
delete_collections_of user_id org_id db = record db {
  users_collections =
      keep_if (λ c. not (c.user_uuid == user_id && is_collection_of org_id c.collection_uuid db))
        db.users_collections;
}

-- `User::update_uuid_revision` of the member's account, if the member is there
abbrev pub touch_member : Env → Option Membership → Db → Db
touch_member env none db = db
touch_member env (some m) db = update_uuid_revision env m.user_uuid db

-- `GroupUser::delete_all_by_member`
abbrev pub delete_groups_of : Env → ℕ → Db → Db
delete_groups_of env member_id db =
    let db' = touch_member env (find_membership member_id db.memberships) db in
    record db' {
      groups_users = keep_if (λ g. not (g.users_organizations_uuid == member_id)) db'.groups_users;
    }

-- `Membership::delete`
unfoldable pub delete : Env → Membership → Db → Db
delete env m db =
    let touched = update_uuid_revision env m.user_uuid db in
    let db' = delete_groups_of env m.uuid (delete_collections_of m.user_uuid m.org_uuid touched) in
    record db' { memberships = remove (λ x. x.uuid) m.uuid db'.memberships }

-- one mail, if the server takes it; `?` on the result
unfoldable pub send : Env → Mail → M (Unit {0})
send env mail db =
    if env.mail_accepted (address mail)
    then (Result.ok tt, record db { outbox = db.outbox ++ mail ∷ [] })
    else (Result.err mail_error, db)

-- `Invitation::take`
unfoldable pub take_invitation : Env → ℕ → Db → Db
take_invitation env mail db = record db {
  invitations = keep_if (λ m. not (m == env.to_lowercase mail)) db.invitations;
}

-- `Invitation::new` and `Invitation::save`
unfoldable pub save_invitation : Env → ℕ → M (Unit {0})
save_invitation env mail = do
  require (env.is_valid_email (env.to_lowercase mail)) invalid_email
  write (λ db. record db {
    invitations =
        if exists (λ m. m == env.to_lowercase mail) db.invitations
        then db.invitations
        else env.to_lowercase mail ∷ db.invitations;
  })

-- `User::new` and `User::save`
unfoldable pub create_user : Env → ℕ → M User
create_user env email = do
  id ← get_uuid
  let u : User = record {
    uuid = id;
    email = env.to_lowercase email;
    password_hash = none;
    verified_at = none;
    updated_at = env.now;
  }
  require (env.is_valid_email (env.to_lowercase email)) invalid_email
  write (λ db. record db { users = put (λ x. x.uuid) u db.users })
  pure u

-- `CollectionUser::save`
unfoldable pub save_collection_user : Env → CollectionUser → Db → Db
save_collection_user env c db =
    let db' = update_uuid_revision env c.user_uuid db in
    record db' {
      users_collections =
          c
          ∷ keep_if
              (λ x. not (x.user_uuid == c.user_uuid && x.collection_uuid == c.collection_uuid))
              db'.users_collections;
    }

-- `GroupUser::save`
unfoldable pub save_group_user : Env → GroupUser → Db → Db
save_group_user env g db =
    let db' = touch_member env (find_membership g.users_organizations_uuid db.memberships) db in
    record db' {
      groups_users =
          g
          ∷ keep_if
              (λ x. not (
                x.groups_uuid == g.groups_uuid
                && x.users_organizations_uuid == g.users_organizations_uuid))
              db'.groups_users;
    }
