-- ===== src/Server/TwoFactor/Model.antt =====
-- server/src/db/models/two_factor.rs: the rows of second factors, and of what else waits for a code.
use nad_safe_password_manage.Prelude.{
  ℕ, ◌≡◌, refl, sym, ap, ◌∙◌, Bool, true, ◌&&◌, Option, none, some, List, [], ◌∷◌, ◌==◌, ==→eq,
  ==_refl, keep_if, arith, Bool-cases, inl, inr, ℤ,
}
use nad_safe_password_manage.Server.Handler.{Handler}
use nad_safe_password_manage.Server.Table.{find, put, remove, first, Unique, Unique-put, find-first}

pub data TwoFactorType : Type 0 where
  authenticator email duo yubi_key u2f remember organization_duo webauthn : TwoFactorType
  recovery_code u2f_register_challenge u2f_login_challenge email_verification_challenge :
      TwoFactorType
  webauthn_register_challenge webauthn_login_challenge protected_actions : TwoFactorType

abbrev pub type_code : TwoFactorType → ℕ
type_code authenticator = 0
type_code email = 1
type_code duo = 2
type_code yubi_key = 3
type_code u2f = 4
type_code remember = 5
type_code organization_duo = 6
type_code webauthn = 7
type_code recovery_code = 8
type_code u2f_register_challenge = 1000
type_code u2f_login_challenge = 1001
type_code email_verification_challenge = 1002
type_code webauthn_register_challenge = 1003
type_code webauthn_login_challenge = 1004
type_code protected_actions = 2000

-- protected_actions.rs; a token is a number, a time is in seconds
pub record ProtectedActionData : Type 0 where
  pub token : ℕ
  pub token_sent : ℕ
  pub attempts : ℕ

-- the column `data`: the JSON text of a protected action, or another text
pub data FactorData : Type 0 where
  protected_action : ProtectedActionData → FactorData
  other_text : ℕ → FactorData

pub record TwoFactor : Type 0 where
  pub uuid : ℕ
  pub user_uuid : ℕ
  pub atype : ℕ
  pub enabled : Bool
  pub data_text : FactorData
  pub last_used : ℤ

pub record Db : Type 0 where
  pub twofactors : List TwoFactor
  pub outbox : List (ℕ × ℕ)

-- the configuration, the clock, the drawn identifier and token, and the mail server
pub record Env : Type 0 where
  pub authenticator_disable_time_drift : Bool
  pub email_attempts_limit : ℕ
  pub email_expiration_time : ℕ
  pub mail_enabled : Bool
  pub now : ℕ
  pub fresh_uuid : ℕ
  pub generated_token : ℕ
  pub mail_accepted : Bool

pub data Error : Type 0 where
  not_a_number invalid_secret invalid_code mail_disabled please_wait not_found : Error
  undecodable expired invalid_token mail_error invalid_password no_validation : Error

abbrev pub M : Type 0 → Type 0
M A = Handler Db Error A

-- `TwoFactor::new`
abbrev pub new : ℕ → ℕ → TwoFactorType → FactorData → TwoFactor
new id user_id t content = record {
  uuid = id;
  user_uuid = user_id;
  atype = type_code t;
  enabled = true;
  data_text = content;
  last_used = ℤ.pos 0;
}

abbrev pub is_of : ℕ → TwoFactorType → TwoFactor → Bool
is_of user_id t r = r.user_uuid == user_id && r.atype == type_code t

abbrev pub find_by_user_and_type : ℕ → TwoFactorType → Db → Option TwoFactor
find_by_user_and_type user_id t db = first (keep_if (is_of user_id t) db.twofactors)

unfoldable pub save : TwoFactor → Db → Db
save r db = record db { twofactors = put (λ x. x.uuid) r db.twofactors }

unfoldable pub delete : TwoFactor → Db → Db
delete r db = record db { twofactors = remove (λ x. x.uuid) r.uuid db.twofactors }

-- the first row of a kind, after it has been saved anew
first-put :
    (test : TwoFactor → Bool) (r r' : TwoFactor) (t : List TwoFactor)
    → Unique (λ x. x.uuid) t
    → r'.uuid ≡ r.uuid
    → test r' ≡ true
    → first (keep_if test t) ≡ some r
    → first (keep_if test (put (λ x. x.uuid) r' t)) ≡ some r'
unfolding put Unique
first-put test r r' [] u same ok e = cc
first-put test r r' (x ∷ t) (absent, u) same ok e = elim (Bool-cases (test x)) [
  | inl holds ↦
      let is_r : x ≡ r = ground arith in
      let keys : (x.uuid == r'.uuid) ≡ true =
        ap (λ n. n == r'.uuid) (ap (λ y. y.uuid) is_r ∙ sym same) ∙ ==_refl r'.uuid in
      rw keys (rw ok refl)
  | inr fails ↦
      let tail = rw fails at e in
      let (found, _) = find-first (λ y. y.uuid) test t u tail in
      elim (Bool-cases (x.uuid == r'.uuid)) [
        | inl clash ↦
            let nowhere : none ≡ some r =
              sym absent
              ∙ ap (λ n. find (λ y. y.uuid) n t) (==→eq x.uuid r'.uuid clash ∙ same)
              ∙ found in
            cc
        | inr other ↦ rw (other, fails) (first-put test r r' t u same ok tail)
      ]
]

pub found_after-save :
    (user_id : ℕ) (t : TwoFactorType) (r r' : TwoFactor) (db : Db)
    → Unique (λ x. x.uuid) db.twofactors
    → r'.uuid ≡ r.uuid
    → is_of user_id t r' ≡ true
    → find_by_user_and_type user_id t db ≡ some r
    → find_by_user_and_type user_id t (save r' db) ≡ some r'
unfolding save
found_after-save user_id t r r' db u same ok e =
    first-put (is_of user_id t) r r' db.twofactors u same ok e

-- the row that is found is the account's, of that kind
pub found_is_of :
    (user_id : ℕ) (t : TwoFactorType) (r : TwoFactor) (db : Db)
    → Unique (λ x. x.uuid) db.twofactors
    → find_by_user_and_type user_id t db ≡ some r
    → is_of user_id t r ≡ true
found_is_of user_id t r db u e = (find-first (λ x. x.uuid) (is_of user_id t) db.twofactors u e).1

pub save-Unique :
    (r : TwoFactor) (db : Db)
    → Unique (λ x. x.uuid) db.twofactors
    → Unique (λ x. x.uuid) (save r db).twofactors
unfolding save
save-Unique r db u = Unique-put (λ x. x.uuid) r db.twofactors u
