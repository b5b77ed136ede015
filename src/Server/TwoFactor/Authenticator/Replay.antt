-- ===== src/Server/TwoFactor/Authenticator/Replay.antt =====
-- A TOTP code is accepted for one time step, later than all before.
use nad_safe_password_manage.Prelude.{
  ℕ, ◌≡◌, refl, sym, ap, ◌∙◌, true, false, not, ◌||◌, Option, some, List, [], ◌∷◌, ◌==◌, ==→eq,
  ==_refl, ok, exists, arith, Bool-cases, inl, inr, ℤ, pos, negsuc, ltb_ℤ, ◌==ℤ◌,
}
use nad_safe_password_manage.Server.Handler.{
  fail, gets, some_or, write, ◌>>=◌, gets-ok, some_or-ok, last_write-ok,
}
use nad_safe_password_manage.Server.Table.{Unique}
use nad_safe_password_manage.Server.TwoFactor.Model.{
  TwoFactor, authenticator, Db, Env, find_by_user_and_type, save, found_after-save, found_is_of,
}
use nad_safe_password_manage.Server.TwoFactor.Authenticator.{
  offsets, time_step, generated, try_steps, validate_totp_code,
}

==ℤ_refl : (a : ℤ) → (a ==ℤ a) ≡ true
==ℤ_refl (pos n) = ==_refl n
==ℤ_refl (negsuc n) = ==_refl n

module _ (decode : ℕ → Option ℕ) (totp_custom : ℕ → ℕ → ℕ) where
  -- What an accepted code is: the one of a step within the window that is later than the last one
  -- used, and this step is saved.
  pub record Accepted (env : Env) (code secret : ℕ) (r : TwoFactor) (step : ℤ) (db db' : Db)
      : Type 0 where
    pub decoded : ℕ
    pub reads : decode secret ≡ some decoded
    pub is_offset : exists (λ s. s ==ℤ step) (offsets env.authenticator_disable_time_drift) ≡ true
    pub same_code : generated totp_custom env decoded step ≡ code
    pub is_later : ltb_ℤ r.last_used (time_step env step) ≡ true
    pub saved : db' ≡ save (record r { last_used = time_step env step }) db

  try_steps-ok :
      (env : Env) (secret code : ℕ) (r : TwoFactor) (steps : List ℤ) (db db' : Db)
      → try_steps totp_custom env secret code r steps db ≡ (ok tt, db')
      → (step : ℤ) × (exists (λ s. s ==ℤ step) steps ≡ true)
        × (generated totp_custom env secret step ≡ code)
        × (ltb_ℤ r.last_used (time_step env step) ≡ true)
        × (db' ≡ save (record r { last_used = time_step env step }) db)
  unfolding fail
  try_steps-ok env secret code r [] db db' h = cc (ap (λ p. p.0) h)
  try_steps-ok env secret code r (step ∷ rest) db db' h =
      elim (Bool-cases (generated totp_custom env secret step == code)) [
        | inl same ↦ elim (Bool-cases (ltb_ℤ r.last_used (time_step env step))) [
          | inl after ↦
              let h' = rw (same, after) at h in
              (step, rw (==ℤ_refl step) refl, ==→eq _ code same, after, sym (last_write-ok _ h'))
          | inr before ↦ cc (ap (λ p. p.0) (rw (same, before) at h))
        ]
        | inr other ↦
            let (s, offset, code_is, later, saved) =
              try_steps-ok env secret code r rest db db' (rw other at h) in
            (s, ground arith, code_is, later, saved)
      ]

  pub validate_totp_code-ok :
      (env : Env) (user_id code secret : ℕ) (db db' : Db) (r : TwoFactor)
      → find_by_user_and_type user_id authenticator db ≡ some r
      → validate_totp_code decode totp_custom env user_id code secret db ≡ (ok tt, db')
      → (step : ℤ) × Accepted env code secret r step db db'
  unfolding validate_totp_code
  validate_totp_code-ok env user_id code secret db db' r found h =
      let (d, reads, h1) = some_or-ok _ _ _ h in
      let tried = gets-ok _ _ h1 in
      let h2 = rw found at tried in
      let (step, offset, code_is, later, saved) = try_steps-ok env d code r _ db db' h2 in
      (
        step,
        record {
          decoded = d;
          reads = reads;
          is_offset = offset;
          same_code = code_is;
          is_later = later;
          saved = saved;
        },
      )

  -- A time step is accepted at most once, and none after a later one: of two codes that an account
  -- with an authenticator gives one after the other, at whatever times, and that are both accepted,
  -- the second is the code of a later time step than the first. Rows have distinct keys.
  pub codes_advance :
      (env env' : Env) (user_id code secret code' secret' : ℕ) (db db' db'' : Db) (r : TwoFactor)
      → Unique (λ x. x.uuid) db.twofactors
      → find_by_user_and_type user_id authenticator db ≡ some r
      → validate_totp_code decode totp_custom env user_id code secret db ≡ (ok tt, db')
      → validate_totp_code decode totp_custom env' user_id code' secret' db' ≡ (ok tt, db'')
      → (step step' : ℤ) × (ltb_ℤ r.last_used (time_step env step) ≡ true)
        × (ltb_ℤ (time_step env step) (time_step env' step') ≡ true)
        × ((secret_is secret_is' : ℕ) × (decode secret ≡ some secret_is)
            × (decode secret' ≡ some secret_is')
            × (generated totp_custom env secret_is step ≡ code)
            × (generated totp_custom env' secret_is' step' ≡ code'))
  codes_advance env env' user_id code secret code' secret' db db' db'' r u found first second =
      let (step, one) = validate_totp_code-ok env user_id code secret db db' r found first in
      let r' : TwoFactor = record r { last_used = time_step env step } in
      let again : find_by_user_and_type user_id authenticator db' ≡ some r' =
        ap (find_by_user_and_type user_id authenticator) one.saved
        ∙ found_after-save user_id authenticator r r' db u refl
            (found_is_of user_id authenticator r db u found) found in
      let (step', two) =
        validate_totp_code-ok env' user_id code' secret' db' db'' r' again second in
      (
        step,
        step',
        one.is_later,
        two.is_later,
        (one.decoded, two.decoded, one.reads, two.reads, one.same_code, two.same_code),
      )

  -- The code of the present time step is accepted, and its step saved, if the account has an
  -- authenticator that was last used in an earlier step and, where earlier and later steps are
  -- allowed too, the code is not that of the step before.
  pub current_code_accepted :
      (env : Env) (user_id code secret decoded : ℕ) (db : Db) (r : TwoFactor)
      → find_by_user_and_type user_id authenticator db ≡ some r
      → decode secret ≡ some decoded
      → generated totp_custom env decoded (pos 0) ≡ code
      → ltb_ℤ r.last_used (time_step env (pos 0)) ≡ true
      → (env.authenticator_disable_time_drift
          || not (generated totp_custom env decoded (negsuc 0) == code))
        ≡ true
      → validate_totp_code decode totp_custom env user_id code secret db
        ≡ (ok tt, save (record r { last_used = time_step env (pos 0) }) db)
  unfolding validate_totp_code some_or gets write ◌>>=◌
  current_code_accepted env user_id code secret decoded db r found reads same later other =
      elim (Bool-cases env.authenticator_disable_time_drift) [
        | inl off ↦ rw (reads, found, off, is_code, later) refl
        | inr on ↦
            let not_before : (generated totp_custom env decoded (negsuc 0) == code) ≡ false =
              ground (arith, other, on) in
            rw (reads, found, on, not_before, is_code, later) refl
      ]
    where
      is_code : (generated totp_custom env decoded (pos 0) == code) ≡ true
      is_code = ap (λ n. n == code) same ∙ ==_refl code
