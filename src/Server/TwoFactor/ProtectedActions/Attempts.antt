-- ===== src/Server/TwoFactor/ProtectedActions/Attempts.antt =====
-- How often the code of a protected action can be guessed.
use nad_safe_password_manage.Prelude.{
  ℕ, ◌+◌, ◌^◌, ◌≤◌, ◌<◌, ◌≡◌, refl, ap, Bool, true, false, not, ◌&&◌, some, List, [], ◌∷◌, ◌==◌,
  err, length, every, every-cons, ltb, arith, Bool-cases, inl, inr, pos, ltb_ℤ,
}
use nad_safe_password_manage.Server.Handler.{fail, gets, some_or, write, require, ◌>>=◌, ◌>>◌}
use nad_safe_password_manage.Server.Table.{Unique}
use nad_safe_password_manage.Server.TwoFactor.Model.{
  TwoFactor, protected_actions, ProtectedActionData, protected_action, Db, Env, expired,
  find_by_user_and_type, save, save-Unique, found_after-save, found_is_of,
}
use nad_safe_password_manage.Server.TwoFactor.ProtectedActions.{
  from_json, add_attempt, cast_signed, time_since_sent, validate_protected_action_otp,
}

abbrev pub at_time : Env → ℕ → Env
at_time env now = record env { now = now }

-- guesses, each a time and a code, one after the other
abbrev pub after_guesses : Env → ℕ → List (ℕ × ℕ) → Db → Db
after_guesses env user_id [] db = db
after_guesses env user_id ((now, otp) ∷ rest) db =
    after_guesses env user_id rest
      (validate_protected_action_otp (at_time env now) otp user_id true db).1

-- a code that is not the token, given before the configured time has passed
abbrev pub is_wrong_guess : Env → ProtectedActionData → ℕ × ℕ → Bool
is_wrong_guess env p g =
    not (ltb_ℤ (pos env.email_expiration_time) (time_since_sent (at_time env g.0) p))
    && not (p.token == g.1)

-- an attempt more, below the limit
abbrev one_more : ProtectedActionData → ProtectedActionData
one_more p = record p { attempts = p.attempts + 1 }

both_untrue : (a b : Bool) → (not a && not b) ≡ true → (a ≡ false) × (b ≡ false)
both_untrue a b h = ground arith

module _ (env : Env) (user_id : ℕ) (db : Db) (r : TwoFactor) (p : ProtectedActionData)
    (found : find_by_user_and_type user_id protected_actions db ≡ some r)
    (decoded : from_json r.data_text ≡ some p) (bounded : env.email_attempts_limit < 2 ^ 64)
    (signed : env.email_expiration_time < 2 ^ 63) where
  exhausted :
      (now otp : ℕ) (delete_if_valid : Bool)
      → env.email_attempts_limit ≤ p.attempts + 1
      → validate_protected_action_otp (at_time env now) otp user_id delete_if_valid db
        ≡ (err expired, db)
  unfolding validate_protected_action_otp add_attempt gets some_or require ◌>>=◌ ◌>>◌
  exhausted now otp delete_if_valid limit =
      let over : ltb (add_attempt p).attempts env.email_attempts_limit ≡ false = ground arith in
      rw (found, decoded, over) refl

  counted :
      (g : ℕ × ℕ)
      → is_wrong_guess env p g ≡ true
      → p.attempts + 1 < env.email_attempts_limit
      → (validate_protected_action_otp (at_time env g.0) g.1 user_id true db).1
        ≡ save (record r { data_text = protected_action (one_more p) }) db
  unfolding validate_protected_action_otp add_attempt gets some_or require write fail ◌>>=◌ ◌>>◌
  counted g wrong below =
      let positive : cast_signed env.email_expiration_time ≡ pos env.email_expiration_time =
        ground arith in
      let facts : (ltb_ℤ (pos env.email_expiration_time) (time_since_sent (at_time env g.0) p)
            ≡ false)
          × ((p.token == g.1) ≡ false) =
        both_untrue _ _ wrong in
      let no_overflow : ltb (p.attempts + 1) (2 ^ 64) ≡ true = ground arith in
      let under : ltb (p.attempts + 1) env.email_attempts_limit ≡ true = ground arith in
      rw (found, decoded, no_overflow, under, positive, facts.0, facts.1) refl

-- The code of a protected action is refused after too many wrong guesses, the right one as well:
-- if its row has a number of attempts, then after so many wrong ones, each in time and one after
-- the other, that the sum with one more reaches the limit (a `u64`), every further code is refused
-- as expired, at whatever time, and the database stays. Rows have distinct keys, and the configured
-- expiration time, a `u64`, is below 2^63, so that it is no negative number as an `i64`.
pub guesses_exhaust :
    (env : Env) (user_id : ℕ) (guesses : List (ℕ × ℕ)) (db : Db) (r : TwoFactor)
    (p : ProtectedActionData) (now otp : ℕ) (delete_if_valid : Bool)
    → Unique (λ x. x.uuid) db.twofactors
    → find_by_user_and_type user_id protected_actions db ≡ some r
    → from_json r.data_text ≡ some p
    → env.email_attempts_limit < 2 ^ 64
    → env.email_expiration_time < 2 ^ 63
    → every (is_wrong_guess env p) guesses ≡ true
    → env.email_attempts_limit ≤ p.attempts + length guesses + 1
    → let later = after_guesses env user_id guesses db in
      validate_protected_action_otp (at_time env now) otp user_id delete_if_valid later
      ≡ (err expired, later)
guesses_exhaust env user_id [] db r p now otp del u found decoded bounded signed wrong limit =
    exhausted env user_id db r p found decoded bounded signed now otp del (omega (arith, limit))
guesses_exhaust env user_id (g ∷ guesses) db r p now otp del u found decoded bounded signed wrong
      limit =
    let (wrong_one, wrong_rest) = every-cons (is_wrong_guess env p) g guesses wrong in
    elim (Bool-cases (ltb (p.attempts + 1) env.email_attempts_limit)) [
      | inl under ↦
          let r' : TwoFactor = record r { data_text = protected_action (one_more p) } in
          let next =
            counted env user_id db r p found decoded bounded signed g wrong_one (ground arith) in
          rw next (
            guesses_exhaust env user_id guesses (save r' db) r' (one_more p) now otp del
              (save-Unique r' db u)
              (found_after-save user_id protected_actions r r' db u refl
                (found_is_of user_id protected_actions r db u found) found)
              refl bounded signed wrong_rest (omega (arith, limit)))
      | inr over ↦
          let next =
            exhausted env user_id db r p found decoded bounded signed g.0 g.1 true (ground arith) in
          rw (ap (λ x. x.1) next) (
            guesses_exhaust env user_id guesses db r p now otp del u found decoded bounded signed
              wrong_rest (at_limit over))
    ]
  where
    at_limit :
        ltb (p.attempts + 1) env.email_attempts_limit ≡ false
        → env.email_attempts_limit ≤ p.attempts + length guesses + 1
    at_limit over = ground arith
