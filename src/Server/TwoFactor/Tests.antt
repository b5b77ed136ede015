-- ===== src/Server/TwoFactor/Tests.antt =====
-- Concrete runs: codes of an authenticator, and guesses at the code of a protected action.
use nad_safe_password_manage.Prelude.{
  ℕ, ◌+◌, ◌/◌, ◌≡◌, refl, true, false, Option, some, List, [], ◌∷◌, ok, err, arith, ℤ, pos, ltb_ℤ,
}
use nad_safe_password_manage.Server.Handler.{gets, some_or, write, ◌>>=◌}
use nad_safe_password_manage.Server.Table.{put, find, Unique}
use nad_safe_password_manage.Server.TwoFactor.Model.{
  TwoFactor, authenticator, protected_actions, ProtectedActionData, protected_action, other_text,
  Db, Env, expired, new, save,
}
use nad_safe_password_manage.Server.TwoFactor.Authenticator.{
  time_step, generated, validate_totp_code,
}
use nad_safe_password_manage.Server.TwoFactor.Authenticator.Replay.{
  codes_advance, current_code_accepted,
}
use nad_safe_password_manage.Server.TwoFactor.ProtectedActions.{validate_protected_action_otp}
use nad_safe_password_manage.Server.TwoFactor.ProtectedActions.Attempts.{
  at_time, after_guesses, guesses_exhaust,
}

-- toys for the crates: a secret is its own text, and a code counts the half minutes
abbrev toy_decode : ℕ → Option ℕ
toy_decode = some

abbrev toy_totp : ℕ → ℕ → ℕ
toy_totp secret time = secret + time / 30

abbrev code_row : ProtectedActionData
code_row = record { token = 77; token_sent = 290; attempts = 0 }

abbrev factor : ℤ → TwoFactor
factor last = record (new 1 5 authenticator (other_text 9)) { last_used = last }

abbrev mailed : TwoFactor
mailed = new 2 5 protected_actions (protected_action code_row)

abbrev db_at : ℤ → Db
db_at last = record { twofactors = factor last ∷ mailed ∷ []; outbox = [] }

abbrev env : Env
env = record {
  authenticator_disable_time_drift = false;
  email_attempts_limit = 3;
  email_expiration_time = 600;
  mail_enabled = true;
  now = 300;
  fresh_uuid = 3;
  generated_token = 88;
  mail_accepted = true;
}

db-Unique : Unique (λ x. x.uuid) (db_at (pos 0)).twofactors
unfolding Unique find
db-Unique = (refl, (refl, tt))

current_code_accepted_example :
    validate_totp_code toy_decode toy_totp env 5 110 100 (db_at (pos 0))
    ≡ (ok tt, save (factor (pos 10)) (db_at (pos 0)))
current_code_accepted_example =
    current_code_accepted toy_decode toy_totp env 5 110 100 100 (db_at (pos 0)) (factor (pos 0))
      refl refl refl refl refl

first_lem :
    validate_totp_code toy_decode toy_totp env 5 110 100 (db_at (pos 0)) ≡ (ok tt, db_at (pos 10))
unfolding validate_totp_code some_or gets write save put ◌>>=◌
first_lem = refl

second_lem :
    validate_totp_code toy_decode toy_totp (record env { now = 330 }) 5 111 100 (db_at (pos 10))
    ≡ (ok tt, db_at (pos 11))
unfolding validate_totp_code some_or gets write save put ◌>>=◌
second_lem = refl

codes_advance_example :
    (step step' : ℤ) × (ltb_ℤ (pos 0) (time_step env step) ≡ true)
    × (ltb_ℤ (time_step env step) (time_step (record env { now = 330 }) step') ≡ true)
    × ((secret_is secret_is' : ℕ) × (toy_decode 100 ≡ some secret_is)
        × (toy_decode 100 ≡ some secret_is')
        × (generated toy_totp env secret_is step ≡ 110)
        × (generated toy_totp (record env { now = 330 }) secret_is' step' ≡ 111))
codes_advance_example =
    codes_advance toy_decode toy_totp env (record env { now = 330 }) 5 110 100 111 100
      (db_at (pos 0)) (db_at (pos 10)) (db_at (pos 11)) (factor (pos 0)) db-Unique refl first_lem
      second_lem

-- two wrong guesses of three, and then the right code
abbrev guesses : List (ℕ × ℕ)
guesses = (300, 1) ∷ (310, 2) ∷ []

guesses_exhaust_example :
    validate_protected_action_otp
      (at_time env 320)
      77
      5
      true
      (after_guesses env 5 guesses (db_at (pos 0)))
    ≡ (err expired, after_guesses env 5 guesses (db_at (pos 0)))
guesses_exhaust_example =
    guesses_exhaust env 5 guesses (db_at (pos 0)) mailed code_row 320 77 true db-Unique refl refl
      (omega arith) (omega arith) refl (omega arith)
