-- ===== src/Server/EmergencyAccess/Invite.antt =====
-- Inviting a contact, accepting, confirming, changing and deleting. `user` is the requesting user.
use nad_safe_password_manage.Prelude.{
  ℕ, Bool, true, not, ◌&&◌, Option, none, some, ◌∷◌, ◌==◌, exists, keep_if, if◌then◌else◌,
}
use nad_safe_password_manage.Server.Handler.{pure, gets, some_or, write, require, when, ◌>>=◌, ◌>>◌}
use nad_safe_password_manage.Server.Table.{put}
use nad_safe_password_manage.Server.EmergencyAccess.Model.{
  EmergencyAccess, EmergencyAccessType, invited, accepted, confirmed, is_status, is_some, WaitTime,
  User, Mail, InviteMail, invite, invite_accepted, invite_confirmed, Db, Env, not_valid,
  invalid_type, yourself, grantee_does_not_exist, domain_not_eligible, invalid_email,
  already_invited, already_accepted_or_confirmed, email_not_valid, grantee_not_found,
  grantor_not_found, claim_email_mismatch, invited_user_not_found, invitation_error, invalid_token,
  M, find_user, find_by_mail, find_by_uuid_and_grantor_uuid, find_by_uuid_and_grantee_uuid,
  find_by_uuid_and_grantee_email, find_by_grantor_uuid_and_grantee_uuid_or_email, or_else, save,
  delete, send, new, accept_invite, check_enabled,
}

-- `atype` is `EmergencyAccessType::from_str` of the request's text
unfoldable pub post_emergency_access :
    Env → User → ℕ → Option EmergencyAccessType → WaitTime → Option ℕ → M EmergencyAccess
post_emergency_access env user emer_id atype wait key = do
  check_enabled env
  found ← gets (find_by_uuid_and_grantor_uuid emer_id user.uuid)
  r ← some_or not_valid found
  new_type ← some_or invalid_type atype
  let r' = record r {
    atype = new_type;
    wait_time_days = wait;
    key_encrypted = or_else key r.key_encrypted;
  }
  write (save env r')
  pure r'

abbrev pub one_of : Option EmergencyAccess → Option EmergencyAccess → Option EmergencyAccess
one_of (some r) none = some r
one_of none (some r) = some r
one_of _ _ = none

unfoldable pub delete_emergency_access : Env → User → ℕ → M (Unit {0})
delete_emergency_access env user emer_id = do
  check_enabled env
  as_grantor ← gets (find_by_uuid_and_grantor_uuid emer_id user.uuid)
  as_grantee ← gets (find_by_uuid_and_grantee_uuid emer_id user.uuid)
  r ← some_or not_valid (one_of as_grantor as_grantee)
  write (delete env r)

-- `Invitation::new` and `Invitation::save`, whose rows are addresses
unfoldable pub save_invitation : Env → ℕ → M (Unit {0})
save_invitation env mail = do
  require (env.is_valid_email (env.to_lowercase mail)) invalid_email
  write (λ db. record db {
    invitations =
        if exists (λ m. m == env.to_lowercase mail) db.invitations
        then db.invitations
        else env.to_lowercase mail ∷ db.invitations;
  })

unfoldable pub take_invitation : Env → ℕ → Db → Db
take_invitation env mail db = record db {
  invitations = keep_if (λ m. not (m == env.to_lowercase mail)) db.invitations;
}

-- `User::new` and `User::save`
unfoldable pub create_user : Env → ℕ → M User
create_user env email = do
  let u : User = record {
    uuid = env.fresh_user_uuid;
    email = env.to_lowercase email;
    name = env.to_lowercase email;
    password_hash = none;
    akey = 0;
    security_stamp = env.fresh_stamp;
    kdf = 0;
    updated_at = env.now;
  }
  require (env.is_valid_email (env.to_lowercase email)) invalid_email
  write (λ db. record db { users = put (λ x. x.uuid) u db.users })
  pure u

abbrev invite_mail : ℕ → ℕ → EmergencyAccess → User → Mail
invite_mail address user_id r grantor = invite (record {
  address = address;
  user_id = user_id;
  emer_id = r.uuid;
  grantor_name = grantor.name;
  grantor_email = grantor.email;
})

abbrev pub is_new : User → Bool
is_new u = not (is_some u.password_hash)

abbrev known_grantee : Env → ℕ → Option User → M (User × Bool)
known_grantee env email (some u) = pure (u, is_new u)
known_grantee env email none = do
  require env.invitations_allowed grantee_does_not_exist
  require (env.is_email_domain_allowed email) domain_not_eligible
  when (not env.mail_enabled) (save_invitation env email)
  u ← create_user env email
  pure (u, true)

-- the contact's account, and whether it is a new one
unfoldable pub find_or_create_grantee : Env → ℕ → M (User × Bool)
find_or_create_grantee env email = do
  known ← gets (find_by_mail env email)
  known_grantee env email known

unfoldable pub send_invite : Env → User → ℕ → Option EmergencyAccessType → WaitTime → M (Unit {0})
send_invite env grantor data_email atype wait = do
  check_enabled env
  let email = env.to_lowercase data_email
  new_type ← some_or invalid_type atype
  require (not (email == grantor.email)) yourself
  (grantee, new_user) ← find_or_create_grantee env email
  known ←
      gets (find_by_grantor_uuid_and_grantee_uuid_or_email grantor.uuid grantee.uuid grantee.email)
  require (not (is_some known)) already_invited
  let r = new env grantor.uuid grantee.email new_type wait
  write (save env r)
  if env.mail_enabled
      then send env (invite_mail grantee.email grantee.uuid r grantor)
      else when (not new_user) (accept_invite env r grantee.uuid email)

unfoldable pub invite_again : Env → ℕ → M (Unit {0})
invite_again env email = do
  pending ← gets (λ db. exists (λ m. m == env.to_lowercase email) db.invitations)
  when (env.invitations_allowed && not pending) (save_invitation env email)

-- the mail names the owner, not the contact, as its subject
unfoldable pub resend_invite : Env → User → ℕ → M (Unit {0})
resend_invite env grantor emer_id = do
  check_enabled env
  found ← gets (find_by_uuid_and_grantor_uuid emer_id grantor.uuid)
  r ← some_or not_valid found
  require (is_status r.status invited) already_accepted_or_confirmed
  email ← some_or email_not_valid r.email
  contact ← gets (find_by_mail env email)
  grantee ← some_or grantee_not_found contact
  if env.mail_enabled
      then send env (invite_mail email grantor.uuid r grantor)
      else if not (is_new grantee)
      then accept_invite env r grantee.uuid email
      else invite_again env email

-- the claims of the decoded token, if it is a valid one
unfoldable pub accept_emergency_invite : Env → User → ℕ → Option InviteMail → M (Unit {0})
accept_emergency_invite env user emer_id token = do
  check_enabled env
  claims ← some_or invalid_token token
  require (claims.address == user.email) claim_email_mismatch
  contact ← gets (find_by_mail env claims.address)
  grantee ← some_or invited_user_not_found contact
  write (take_invitation env claims.address)
  found ← gets (find_by_uuid_and_grantee_email emer_id user.email)
  r ← some_or not_valid found
  owner ← gets (find_user r.grantor_uuid)
  grantor ← some_or grantor_not_found owner
  require
      (emer_id == claims.emer_id
        && grantor.name == claims.grantor_name
        && grantor.email == claims.grantor_email)
      invitation_error
  accept_invite env r grantee.uuid grantee.email
  when env.mail_enabled (send env (invite_accepted grantor.email))

unfoldable pub confirm_emergency_access : Env → User → ℕ → ℕ → M EmergencyAccess
confirm_emergency_access env user emer_id key = do
  check_enabled env
  found ← gets (find_by_uuid_and_grantor_uuid emer_id user.uuid)
  r ← some_or not_valid found
  require (is_status r.status accepted && r.grantor_uuid == user.uuid) not_valid
  grantor ← gets (find_user user.uuid)
  grantor_user ← some_or grantor_not_found grantor
  grantee_uuid ← some_or grantee_not_found r.grantee_uuid
  grantee ← gets (find_user grantee_uuid)
  grantee_user ← some_or grantee_not_found grantee
  let r' = record r { status = confirmed; key_encrypted = some key; email = none }
  write (save env r')
  when env.mail_enabled (send env (invite_confirmed grantee_user.email))
  pure r'
