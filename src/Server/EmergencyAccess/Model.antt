-- ===== src/Server/EmergencyAccess/Model.antt =====
-- The rows, the database and the queries of emergency access. Identifiers, emails, names and keys
-- are only compared and copied: they are numbers here. Times are seconds.
use nad_safe_password_manage.Prelude.{
  ℕ, Bool, true, false, not, ◌&&◌, ◌||◌, Option, none, some, List, [], ◌∷◌, ◌++◌, ◌==◌, Result,
  keep_if, if◌then◌else◌,
}
use nad_safe_password_manage.Server.Handler.{Handler, write, require, ◌>>◌}
use nad_safe_password_manage.Server.Table.{find, put, modify, remove, check, first}

pub data EmergencyAccessType : Type 0 where
  view takeover : EmergencyAccessType

pub data EmergencyAccessStatus : Type 0 where
  invited accepted confirmed recovery_initiated recovery_approved : EmergencyAccessStatus

-- `==` on the `as i32` codes
abbrev pub status_code : EmergencyAccessStatus → ℕ
status_code invited = 0
status_code accepted = 1
status_code confirmed = 2
status_code recovery_initiated = 3
status_code recovery_approved = 4

abbrev pub type_code : EmergencyAccessType → ℕ
type_code view = 0
type_code takeover = 1

abbrev pub is_status : EmergencyAccessStatus → EmergencyAccessStatus → Bool
is_status a b = status_code a == status_code b

abbrev pub is_type : EmergencyAccessType → EmergencyAccessType → Bool
is_type a b = type_code a == type_code b

-- the `i32` number of days, which no handler checks: `days n`, or `minus n` for -n
pub data WaitTime : Type 0 where
  days : ℕ → WaitTime
  minus : ℕ → WaitTime

pub record EmergencyAccess : Type 0 where
  pub uuid : ℕ
  pub grantor_uuid : ℕ
  pub grantee_uuid : Option ℕ
  pub email : Option ℕ
  pub key_encrypted : Option ℕ
  pub atype : EmergencyAccessType
  pub status : EmergencyAccessStatus
  pub wait_time_days : WaitTime
  pub recovery_initiated_at : Option ℕ
  pub last_notification_at : Option ℕ
  pub updated_at : ℕ
  pub created_at : ℕ

-- the fields of `User` that emergency access reads or writes; no password hash is an empty one
pub record User : Type 0 where
  pub uuid : ℕ
  pub email : ℕ
  pub name : ℕ
  pub password_hash : Option ℕ
  pub akey : ℕ
  pub security_stamp : ℕ
  pub kdf : ℕ
  pub updated_at : ℕ

pub data MembershipType : Type 0 where
  owner admin user manager : MembershipType

pub record Membership : Type 0 where
  pub uuid : ℕ
  pub user_uuid : ℕ
  pub atype : MembershipType

-- an invitation mail's claims: the address, the subject, the contact and the grantor
pub record InviteMail : Type 0 where
  pub address : ℕ
  pub user_id : ℕ
  pub emer_id : ℕ
  pub grantor_name : ℕ
  pub grantor_email : ℕ

pub data Mail : Type 0 where
  invite : InviteMail → Mail
  -- the recipient's address
  invite_accepted invite_confirmed recovery_initiated_mail recovery_approved_mail : ℕ → Mail
  recovery_rejected recovery_reminder recovery_timed_out : ℕ → Mail

-- the fields of a cipher by which it is selected
pub record Cipher : Type 0 where
  pub uuid : ℕ
  pub user_uuid : Option ℕ
  pub organization_uuid : Option ℕ

-- `token_generation` counts the rotations of a user's refresh tokens; `twofactors` are the owners
-- of two-factor rows.
pub record Db : Type 0 where
  pub emergency_access : List EmergencyAccess
  pub users : List User
  pub invitations : List ℕ
  pub memberships : List Membership
  pub twofactors : List ℕ
  pub ciphers : List Cipher
  pub token_generation : ℕ → ℕ
  pub outbox : List Mail

-- The configuration, the clock, and what a request meets outside: whether the mail server takes
-- its mail, fresh identifiers, the hash of a password with the salt of an account.
pub record Env : Type 0 where
  pub emergency_access_allowed : Bool
  pub invitations_allowed : Bool
  pub mail_enabled : Bool
  pub is_email_domain_allowed : ℕ → Bool
  pub is_valid_email : ℕ → Bool
  pub to_lowercase : ℕ → ℕ
  pub now : ℕ
  pub mail_accepted : Bool
  pub fresh_uuid : ℕ
  pub fresh_user_uuid : ℕ
  pub fresh_stamp : ℕ
  pub hash_password : ℕ → ℕ → ℕ
  -- `Cipher::to_json` of a row, for a user, which may fail
  pub cipher_json : Cipher → ℕ → Option ℕ
  -- the range of chrono's dates, in seconds after and before the epoch
  pub latest_date : ℕ
  pub earliest_date : ℕ

pub data Error : Type 0 where
  not_enabled not_valid invalid_type yourself grantee_does_not_exist domain_not_eligible : Error
  invalid_email already_invited already_accepted_or_confirmed email_not_valid : Error
  grantee_not_found grantor_not_found claim_email_mismatch invited_user_not_found : Error
  invitation_error email_mismatch contact_already_accepted invalid_token mail_error : Error
  cipher_json_error date_out_of_range : Error

abbrev pub M : Type 0 → Type 0
M A = Handler Db Error A

-- One name for the row type's key, and for the users'.
abbrev pub find_ea : ℕ → List EmergencyAccess → Option EmergencyAccess
find_ea = find (λ r. r.uuid)

abbrev pub find_user : ℕ → Db → Option User
find_user id db = find (λ u. u.uuid) id db.users

-- `User::find_by_mail`, which compares with the lower-case address
unfoldable pub find_by_mail : Env → ℕ → Db → Option User
find_by_mail env mail db = find (λ u. u.email) (env.to_lowercase mail) db.users

-- the uuid is the primary key, so at most one row is left to be checked
abbrev pub find_by_uuid_and_grantor_uuid : ℕ → ℕ → Db → Option EmergencyAccess
find_by_uuid_and_grantor_uuid id grantor db =
    check (λ r. r.grantor_uuid == grantor) (find_ea id db.emergency_access)

abbrev pub opt_eq : Option ℕ → ℕ → Bool
opt_eq none n = false
opt_eq (some m) n = m == n

abbrev pub find_by_uuid_and_grantee_uuid : ℕ → ℕ → Db → Option EmergencyAccess
find_by_uuid_and_grantee_uuid id grantee db =
    check (λ r. opt_eq r.grantee_uuid grantee) (find_ea id db.emergency_access)

abbrev pub find_by_uuid_and_grantee_email : ℕ → ℕ → Db → Option EmergencyAccess
find_by_uuid_and_grantee_email id email db =
    check (λ r. opt_eq r.email email) (find_ea id db.emergency_access)

unfoldable pub find_by_grantor_uuid_and_grantee_uuid_or_email :
    ℕ → ℕ → ℕ → Db → Option EmergencyAccess
find_by_grantor_uuid_and_grantee_uuid_or_email grantor grantee email db = first (
    keep_if
      (λ r. r.grantor_uuid == grantor && (opt_eq r.grantee_uuid grantee || opt_eq r.email email))
      db.emergency_access)

-- the new value, if there is one
abbrev pub or_else : Option ℕ → Option ℕ → Option ℕ
or_else (some a) b = some a
or_else none b = b

abbrev pub is_some : {A : Type 0} → Option A → Bool
is_some none = false
is_some (some a) = true

-- `Cipher::find_owned_by_user`
abbrev pub find_owned_by_user : ℕ → Db → List Cipher
find_owned_by_user id db =
    keep_if (λ c. opt_eq c.user_uuid id && not (is_some c.organization_uuid)) db.ciphers

unfoldable pub find_all_recoveries_initiated : Db → List EmergencyAccess
find_all_recoveries_initiated db =
    keep_if (λ r. is_status r.status recovery_initiated && is_some r.recovery_initiated_at)
      db.emergency_access

-- `User::update_uuid_revision`
abbrev pub update_uuid_revision : Env → ℕ → Db → Db
update_uuid_revision env id db = record db {
  users = modify (λ u. u.uuid) id (λ u. record u { updated_at = env.now }) db.users;
}

-- `EmergencyAccess::save`
unfoldable pub save : Env → EmergencyAccess → Db → Db
save env r db =
    let db' = update_uuid_revision env r.grantor_uuid db in
    record db' {
      emergency_access = put (λ x. x.uuid) (record r { updated_at = env.now }) db'.emergency_access;
    }

-- `EmergencyAccess::delete`
unfoldable pub delete : Env → EmergencyAccess → Db → Db
delete env r db =
    let db' = update_uuid_revision env r.grantor_uuid db in
    record db' { emergency_access = remove (λ x. x.uuid) r.uuid db'.emergency_access }

-- one mail, if the server takes it; `?` on the result
abbrev pub send : Env → Mail → M (Unit {0})
send env mail db =
    if env.mail_accepted
    then (Result.ok tt, record db { outbox = db.outbox ++ mail ∷ [] })
    else (Result.err mail_error, db)

-- `EmergencyAccess::new`
abbrev pub new : Env → ℕ → ℕ → EmergencyAccessType → WaitTime → EmergencyAccess
new env grantor email atype wait = record {
  uuid = env.fresh_uuid;
  grantor_uuid = grantor;
  grantee_uuid = none;
  email = some email;
  key_encrypted = none;
  atype = atype;
  status = invited;
  wait_time_days = wait;
  recovery_initiated_at = none;
  last_notification_at = none;
  updated_at = env.now;
  created_at = env.now;
}

-- `EmergencyAccess::accept_invite` of the model
unfoldable pub accept_invite : Env → EmergencyAccess → ℕ → ℕ → M (Unit {0})
accept_invite env r grantee email = do
  require (opt_eq r.email email) email_mismatch
  require (not (is_status r.status accepted)) contact_already_accepted
  write (save env (record r { status = accepted; grantee_uuid = some grantee; email = none }))

-- `check_emergency_access_enabled`
abbrev pub check_enabled : Env → M (Unit {0})
check_enabled env = require env.emergency_access_allowed not_enabled
