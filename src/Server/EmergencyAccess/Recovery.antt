-- ===== src/Server/EmergencyAccess/Recovery.antt =====
-- Starting, approving, rejecting and using an emergency access. `user` is the requesting user.
use nad_safe_password_manage.Prelude.{
  ℕ, ◌+◌, Bool, true, false, not, ◌&&◌, ◌||◌, Option, some, List, [], ◌∷◌, ◌==◌, keep_if,
  if◌then◌else◌,
}
use nad_safe_password_manage.Server.Handler.{pure, gets, some_or, write, require, when, ◌>>=◌, ◌>>◌}
use nad_safe_password_manage.Server.Table.{put}
use nad_safe_password_manage.Server.EmergencyAccess.Model.{
  Cipher, cipher_json_error, find_owned_by_user, EmergencyAccess, EmergencyAccessType, view,
  takeover, confirmed, recovery_initiated, recovery_approved, is_status, is_type, User,
  MembershipType, owner, recovery_initiated_mail, recovery_approved_mail, recovery_rejected, Db,
  Env, not_valid, invalid_email, grantee_not_found, grantor_not_found, M, find_user,
  find_by_uuid_and_grantor_uuid, find_by_uuid_and_grantee_uuid, opt_eq, save, send, check_enabled,
}

unfoldable pub initiate_emergency_access : Env → User → ℕ → M EmergencyAccess
initiate_emergency_access env user emer_id = do
  check_enabled env
  found ← gets (find_by_uuid_and_grantee_uuid emer_id user.uuid)
  r ← some_or not_valid found
  require (is_status r.status confirmed) not_valid
  grantor ← gets (find_user r.grantor_uuid)
  grantor_user ← some_or grantor_not_found grantor
  let r' = record r {
    status = recovery_initiated;
    updated_at = env.now;
    recovery_initiated_at = some env.now;
    last_notification_at = some env.now;
  }
  write (save env r')
  when env.mail_enabled (send env (recovery_initiated_mail grantor_user.email))
  pure r'

unfoldable pub approve_emergency_access : Env → User → ℕ → M EmergencyAccess
approve_emergency_access env user emer_id = do
  check_enabled env
  found ← gets (find_by_uuid_and_grantor_uuid emer_id user.uuid)
  r ← some_or not_valid found
  require (is_status r.status recovery_initiated) not_valid
  grantor ← gets (find_user user.uuid)
  grantor_user ← some_or grantor_not_found grantor
  grantee_uuid ← some_or grantee_not_found r.grantee_uuid
  grantee ← gets (find_user grantee_uuid)
  grantee_user ← some_or grantee_not_found grantee
  let r' = record r { status = recovery_approved }
  write (save env r')
  when env.mail_enabled (send env (recovery_approved_mail grantee_user.email))
  pure r'

unfoldable pub reject_emergency_access : Env → User → ℕ → M EmergencyAccess
reject_emergency_access env user emer_id = do
  check_enabled env
  found ← gets (find_by_uuid_and_grantor_uuid emer_id user.uuid)
  r ← some_or not_valid found
  require (is_status r.status recovery_initiated || is_status r.status recovery_approved) not_valid
  grantee_uuid ← some_or grantee_not_found r.grantee_uuid
  grantee ← gets (find_user grantee_uuid)
  grantee_user ← some_or grantee_not_found grantee
  let r' = record r { status = confirmed }
  write (save env r')
  when env.mail_enabled (send env (recovery_rejected grantee_user.email))
  pure r'

unfoldable pub is_valid_request : EmergencyAccess → ℕ → EmergencyAccessType → Bool
is_valid_request r requesting_user_id requested =
    opt_eq r.grantee_uuid requesting_user_id
    && is_status r.status recovery_approved
    && is_type r.atype requested

-- `for c in ciphers { ciphers_json.push(c.to_json(..)?) }`
unfoldable pub ciphers_json : Env → ℕ → List Cipher → M (List ℕ)
ciphers_json env id [] = pure []
ciphers_json env id (c ∷ ciphers) = do
  json ← some_or cipher_json_error (env.cipher_json c id)
  rest ← ciphers_json env id ciphers
  pure (json ∷ rest)

-- the vault of the owner and the key it is encrypted with for the contact
unfoldable pub view_emergency_access : Env → User → ℕ → M (List ℕ × Option ℕ)
view_emergency_access env user emer_id = do
  check_enabled env
  found ← gets (find_by_uuid_and_grantee_uuid emer_id user.uuid)
  r ← some_or not_valid found
  require (is_valid_request r user.uuid view) not_valid
  ciphers ← gets (find_owned_by_user r.grantor_uuid)
  vault ← ciphers_json env r.grantor_uuid ciphers
  pure (vault, r.key_encrypted)

-- the owner's KDF settings and the key
unfoldable pub takeover_emergency_access : Env → User → ℕ → M (ℕ × Option ℕ)
takeover_emergency_access env user emer_id = do
  check_enabled env
  found ← gets (find_by_uuid_and_grantee_uuid emer_id user.uuid)
  r ← some_or not_valid found
  require (is_valid_request r user.uuid takeover) not_valid
  grantor ← gets (find_user r.grantor_uuid)
  grantor_user ← some_or grantor_not_found grantor
  pure (grantor_user.kdf, r.key_encrypted)

unfoldable pub save_user : User → Db → Db
save_user u db = record db { users = put (λ x. x.uuid) u db.users }

-- `Device::rotate_refresh_tokens_by_user`, which `User::reset_security_stamp` calls
unfoldable pub rotate_refresh_tokens : ℕ → Db → Db
rotate_refresh_tokens id db = record db {
  token_generation = λ u. if u == id then db.token_generation u + 1 else db.token_generation u;
}

-- `User::set_password` with a new key and a new security stamp, and `User::save`
unfoldable pub set_password : Env → ℕ → ℕ → User → M (Unit {0})
set_password env hash key u = do
  let u' : User = record u {
    password_hash = some (env.hash_password hash u.uuid);
    akey = key;
    security_stamp = env.fresh_stamp;
    updated_at = env.now;
  }
  write (rotate_refresh_tokens u.uuid)
  require (env.is_valid_email u.email) invalid_email
  write (save_user u')

abbrev pub is_owner : MembershipType → Bool
is_owner owner = true
is_owner _ = false

-- `TwoFactor::delete_all_by_user`, and the loop over the memberships
unfoldable pub drop_factors_and_memberships : ℕ → Db → Db
drop_factors_and_memberships id db = record db {
  twofactors = keep_if (λ owner. not (owner == id)) db.twofactors;
  memberships = keep_if (λ m. not (m.user_uuid == id) || is_owner m.atype) db.memberships;
}

unfoldable pub password_emergency_access : Env → User → ℕ → ℕ → ℕ → M (Unit {0})
password_emergency_access env user emer_id new_master_password_hash key = do
  check_enabled env
  found ← gets (find_by_uuid_and_grantee_uuid emer_id user.uuid)
  r ← some_or not_valid found
  require (is_valid_request r user.uuid takeover) not_valid
  grantor ← gets (find_user r.grantor_uuid)
  grantor_user ← some_or grantor_not_found grantor
  set_password env new_master_password_hash key grantor_user
  write (drop_factors_and_memberships grantor_user.uuid)

-- answers with the owner, whose policies are listed; it has no check of the setting
unfoldable pub policies_emergency_access : User → ℕ → M ℕ
policies_emergency_access user emer_id = do
  found ← gets (find_by_uuid_and_grantee_uuid emer_id user.uuid)
  r ← some_or not_valid found
  require (is_valid_request r user.uuid takeover) not_valid
  grantor ← gets (find_user r.grantor_uuid)
  grantor_user ← some_or grantor_not_found grantor
  pure grantor_user.uuid
