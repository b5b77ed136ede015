-- ===== src/Server/TwoFactor/ProtectedActions.antt =====
-- server/src/api/core/two_factor/protected_actions.rs: codes by mail for what needs a second look.
pub mod Attempts
use nad_safe_password_manage.Prelude.{
  ℕ, suc, ◌+◌, ◌-◌, ◌^◌, ◌≤◌, ◌<◌, ◌≡◌, refl, Bool, true, false, not, ◌&&◌, Option, none, some,
  List, [], ◌∷◌, ◌++◌, ◌==◌, ok, err, ltb, leb, if◌then◌else◌, ℤ, pos, ltb_ℤ, ◌-ℤ◌,
}
use nad_safe_password_manage.Server.Handler.{
  pure, fail, gets, some_or, write, require, when, ◌>>=◌, ◌>>◌,
}
use nad_safe_password_manage.Server.TwoFactor.Model.{
  TwoFactor, protected_actions, ProtectedActionData, FactorData, protected_action, other_text, Db,
  Env, mail_disabled, please_wait, not_found, undecodable, expired, invalid_token, mail_error,
  invalid_password, no_validation, M, new, find_by_user_and_type, save, delete,
}

abbrev pub from_json : FactorData → Option ProtectedActionData
from_json (protected_action p) = some p
from_json (other_text t) = none

-- `saturating_add` of a `u64`
unfoldable pub add_attempt : ProtectedActionData → ProtectedActionData
add_attempt p = record p {
  attempts = if ltb (p.attempts + 1) (2 ^ 64) then p.attempts + 1 else p.attempts;
}

-- a `u64` as an `i64`
abbrev pub cast_signed : ℕ → ℤ
cast_signed n = if ltb n (2 ^ 63) then pos n else pos n -ℤ pos (2 ^ 64)

-- `time_since_sent().num_seconds()`
abbrev pub time_since_sent : Env → ProtectedActionData → ℤ
time_since_sent env p = pos env.now -ℤ pos p.token_sent

abbrev pub send_token : Env → ℕ → ℕ → M (Unit {0})
send_token env address token db =
    if env.mail_accepted
    then (ok tt, record db { outbox = db.outbox ++ (address, token) ∷ [] })
    else (err mail_error, db)

abbrev pub drop_previous : Env → Option TwoFactor → M (Unit {0})
drop_previous env none = pure tt
drop_previous env (some r) = do
  p ← some_or undecodable (from_json r.data_text)
  require (not (ltb_ℤ (time_since_sent env p) (pos 30))) please_wait
  write (delete r)

unfoldable pub request_otp : Env → ℕ → ℕ → M (Unit {0})
request_otp env user_id address = do
  require env.mail_enabled mail_disabled
  previous ← gets (find_by_user_and_type user_id protected_actions)
  drop_previous env previous
  let p : ProtectedActionData = record {
    token = env.generated_token;
    token_sent = env.now;
    attempts = 0;
  }
  write (save (new env.fresh_uuid user_id protected_actions (protected_action p)))
  send_token env address p.token

unfoldable pub validate_protected_action_otp : Env → ℕ → ℕ → Bool → M (Unit {0})
validate_protected_action_otp env otp user_id delete_if_valid = do
  row ← gets (find_by_user_and_type user_id protected_actions)
  r ← some_or not_found row
  decoded ← some_or undecodable (from_json r.data_text)
  let p = add_attempt decoded
  let r' = record r { data_text = protected_action p }
  require (ltb p.attempts env.email_attempts_limit) expired
  if ltb_ℤ (cast_signed env.email_expiration_time) (time_since_sent env p)
      then (do write (delete r'); fail expired)
      else if not (p.token == otp)
      then (do write (save r'); fail invalid_token)
      else when delete_if_valid (write (delete r'))

unfoldable pub verify_otp : Env → ℕ → ℕ → M (Unit {0})
verify_otp env otp user_id = do
  require env.mail_enabled mail_disabled
  validate_protected_action_otp env otp user_id true

-- `PasswordOrOtpData::validate` of api/mod.rs; the first test is of the password
unfoldable pub validate_password_or_otp :
    Env → (ℕ → Bool) → ℕ → Option ℕ → Option ℕ → Bool → M (Unit {0})
validate_password_or_otp env check_valid_password user_id (some hash) none delete_if_valid =
    require (check_valid_password hash) invalid_password
validate_password_or_otp env check_valid_password user_id none (some otp) delete_if_valid =
    validate_protected_action_otp env otp user_id delete_if_valid
validate_password_or_otp env check_valid_password user_id _ _ delete_if_valid = fail no_validation
