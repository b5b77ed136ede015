-- ===== src/Server/TwoFactor/Authenticator.antt =====
-- server/src/api/core/two_factor/authenticator.rs: checking a TOTP code.
pub mod Replay
use nad_safe_password_manage.Prelude.{
  ℕ, suc, ◌+◌, ◌-◌, ◌*◌, ◌/◌, ◌^◌, ◌≡◌, Bool, true, false, not, ◌&&◌, Option, none, some, List, [],
  ◌∷◌, ◌==◌, every, if◌then◌else◌, ℤ, pos, negsuc, ◌+ℤ◌, ltb_ℤ,
}
use nad_safe_password_manage.Server.Handler.{pure, fail, gets, some_or, write, require, ◌>>=◌, ◌>>◌}
use nad_safe_password_manage.Server.TwoFactor.Model.{
  TwoFactor, authenticator, other_text, Db, Env, not_a_number, invalid_secret, invalid_code, M, new,
  find_by_user_and_type, save,
}

-- `cast_unsigned`
abbrev pub cast_unsigned : ℤ → ℕ
cast_unsigned (pos n) = n
cast_unsigned (negsuc n) = 2 ^ 64 - (n + 1)

-- `-steps..=steps`
abbrev pub offsets : Bool → List ℤ
offsets true = pos 0 ∷ []
offsets false = negsuc 0 ∷ pos 0 ∷ pos 1 ∷ []

abbrev pub times_30 : ℤ → ℤ
times_30 (pos n) = pos (n * 30)
times_30 (negsuc n) = negsuc (n * 30 + 29)

-- the step of an offset
abbrev pub time_step : Env → ℤ → ℤ
time_step env step = pos (env.now / 30) +ℤ step

abbrev pub or_new : Env → ℕ → ℕ → Option TwoFactor → TwoFactor
or_new env user_id secret (some r) = r
or_new env user_id secret none = new env.fresh_uuid user_id authenticator (other_text secret)

-- `totp_custom` of the crate, of 30 seconds and six digits, by the secret and the time
module _ (totp_custom : ℕ → ℕ → ℕ) where
  abbrev pub generated : Env → ℕ → ℤ → ℕ
  generated env secret step = totp_custom secret (cast_unsigned (pos env.now +ℤ times_30 step))

  abbrev pub try_steps : Env → ℕ → ℕ → TwoFactor → List ℤ → M (Unit {0})
  try_steps env secret code r [] = fail invalid_code
  try_steps env secret code r (step ∷ rest) =
      let later = try_steps env secret code r rest in
      if generated env secret step == code && ltb_ℤ r.last_used (time_step env step)
      then write (save (record r { last_used = time_step env step }))
      else if generated env secret step == code && not (ltb_ℤ r.last_used (time_step env step))
      then fail invalid_code
      else later

-- The crates: base 32 decoding, and the codes.
module _ (decode : ℕ → Option ℕ) (totp_custom : ℕ → ℕ → ℕ) where
  unfoldable pub validate_totp_code : Env → ℕ → ℕ → ℕ → M (Unit {0})
  validate_totp_code env user_id code secret = do
    decoded ← some_or invalid_secret (decode secret)
    row ← gets (find_by_user_and_type user_id authenticator)
    try_steps totp_custom env decoded code (or_new env user_id secret row)
        (offsets env.authenticator_disable_time_drift)

  -- `is_numeric` of every character
  unfoldable pub validate_totp_code_str : (ℕ → Bool) → Env → ℕ → ℕ → ℕ → M (Unit {0})
  validate_totp_code_str is_all_numeric env user_id code secret = do
    require (is_all_numeric code) not_a_number
    validate_totp_code env user_id code secret
