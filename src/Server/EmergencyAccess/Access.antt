-- ===== src/Server/EmergencyAccess/Access.antt =====
-- Who gets what from an approved emergency access, and what a takeover does to the owner's account.
use nad_safe_password_manage.Prelude.{
  List, keep_if, sym, ℕ, ◌+◌, ◌≡◌, refl, ap, ◌∙◌, true, false, not, ◌&&◌, &&-true, Option, some, ok,
  arith, ◌==◌, ==_refl, every, every-keep_if,
}
use nad_safe_password_manage.Server.Handler.{
  gets-ok, some_or-ok, require-ok, write-ok, then-ok, last_write-ok, pure-ok,
}
use nad_safe_password_manage.Server.Table.{check-some, find-put, check}
use nad_safe_password_manage.Server.EmergencyAccess.Model.{
  EmergencyAccess, EmergencyAccessType, view, takeover, recovery_approved, is_status, is_type, User,
  Membership, find_owned_by_user, Db, Env, find_ea, find_user, opt_eq,
}
use nad_safe_password_manage.Server.EmergencyAccess.Recovery.{
  is_valid_request, view_emergency_access, takeover_emergency_access, set_password,
  rotate_refresh_tokens, save_user, is_owner, drop_factors_and_memberships,
  password_emergency_access,
}
use nad_safe_password_manage.Server.EmergencyAccess.Kept.{
  keep_if-within, distinct, only_ownerships, all_ownerships,
}
use nad_safe_password_manage.Server.EmergencyAccess.Vault.{IsVault, ciphers_json-ok}
use nad_safe_password_manage.Server.EmergencyAccess.Lifecycle.Rules.{opt_eq-some, status_is}

-- The row named by the path grants this user this type of access.
pub record Granted (user : User) (id : ℕ) (db : Db) (t : EmergencyAccessType) (r : EmergencyAccess)
    : Type 0 where
  pub is_row : find_ea id db.emergency_access ≡ some r
  pub to_user : r.grantee_uuid ≡ some user.uuid
  pub is_approved : r.status ≡ recovery_approved
  pub of_type : r.atype ≡ t

type_is : (a b : EmergencyAccessType) → is_type a b ≡ true → a ≡ b
type_is a b h = ground arith

module _ (user : User) (id : ℕ) (db : Db) (t : EmergencyAccessType) (r : EmergencyAccess) where
  granted :
      check (λ x. opt_eq x.grantee_uuid user.uuid) (find_ea id db.emergency_access) ≡ some r
      → is_valid_request r user.uuid t ≡ true
      → Granted user id db t r
  unfolding is_valid_request
  granted found valid =
      let named = opt_eq r.grantee_uuid user.uuid in
      let approved = is_status r.status recovery_approved in
      let (both, typed) = &&-true (named && approved) (is_type r.atype t) valid in
      let (is_named, is_approved) = &&-true named approved both in
      record {
        is_row = (check-some _ (find_ea id db.emergency_access) r found).0;
        to_user = opt_eq-some r.grantee_uuid user.uuid is_named;
        is_approved = status_is _ _ is_approved;
        of_type = type_is _ _ typed;
      }

module _ (env : Env) (user : User) (id : ℕ) (db db' : Db) where
  -- A vault is shown, with the key, only to the contact of an approved access of type view; it is
  -- all ciphers that the row's owner holds outside of organizations, in the form made for the
  -- owner, and the key of the row, and nothing is changed.
  pub view-Granted :
      (vault : List ℕ) (key : Option ℕ)
      → view_emergency_access env user id db ≡ (ok (vault, key), db')
      → (r : EmergencyAccess) × Granted user id db view r
        × IsVault env r.grantor_uuid (find_owned_by_user r.grantor_uuid db) vault
        × (key ≡ r.key_encrypted)
        × (db' ≡ db)
  unfolding view_emergency_access
  view-Granted vault key h =
      let (enabled, h1) = require-ok _ _ _ h in
      let h2 = gets-ok _ _ h1 in
      let (r, found, h3) = some_or-ok _ _ _ h2 in
      let (valid, h4) = require-ok _ _ _ h3 in
      let h5 = gets-ok _ _ h4 in
      let (json, shown, h6) = ciphers_json-ok env r.grantor_uuid _ db _ h5 in
      let (same, kept) = pure-ok h6 in
      (
        r,
        granted user id db view r found valid,
        rw (ap (λ p. p.0) same) at shown,
        ap (λ p. p.1) (sym same),
        sym kept,
      )

-- the owner's account after a takeover
abbrev pub taken_over : Env → ℕ → ℕ → User → User
taken_over env hash key o = record o {
  password_hash = some (env.hash_password hash o.uuid);
  akey = key;
  security_stamp = env.fresh_stamp;
  updated_at = env.now;
}

abbrev pub memberships_of : ℕ → Db → List Membership
memberships_of id db = keep_if (λ m. m.user_uuid == id) db.memberships

abbrev pub factors_of : ℕ → Db → List ℕ
factors_of id db = keep_if (λ w. w == id) db.twofactors

-- The owner can log in with the new password alone: the old sessions and second factors are gone,
-- and the owner is in no organization but as an owner of it, and still in each of these. The
-- other accounts keep their rows, sessions, second factors and memberships.
pub record IsTakenOver (env : Env) (hash key : ℕ) (o : User) (db db' : Db) : Type 0 where
  pub account : find_user o.uuid db' ≡ some (taken_over env hash key o)
  pub others : (id : ℕ) → (o.uuid == id) ≡ false → find_user id db' ≡ find_user id db
  pub sessions : db'.token_generation o.uuid ≡ db.token_generation o.uuid + 1
  pub other_sessions :
      (id : ℕ) → (o.uuid == id) ≡ false → db'.token_generation id ≡ db.token_generation id
  pub second_factors : every (λ w. not (w == o.uuid)) db'.twofactors ≡ true
  pub other_second_factors :
      (id : ℕ) → (o.uuid == id) ≡ false → factors_of id db' ≡ factors_of id db
  pub memberships : every (λ m. is_owner m.atype) (memberships_of o.uuid db') ≡ true
  pub ownerships :
      keep_if (λ m. is_owner m.atype) (memberships_of o.uuid db')
      ≡ keep_if (λ m. is_owner m.atype) (memberships_of o.uuid db)
  pub other_memberships :
      (id : ℕ) → (o.uuid == id) ≡ false → memberships_of id db' ≡ memberships_of id db
  pub ciphers : db'.ciphers ≡ db.ciphers
  pub access : db'.emergency_access ≡ db.emergency_access

takes_over :
    (env : Env) (hash key : ℕ) (o : User) (db : Db)
    → IsTakenOver env hash key o db (
        drop_factors_and_memberships o.uuid
          (save_user (taken_over env hash key o) (rotate_refresh_tokens o.uuid db)))
unfolding drop_factors_and_memberships save_user rotate_refresh_tokens
takes_over env hash key o db = record {
  account =
      find-put (λ u. u.uuid) o.uuid (taken_over env hash key o) db.users ∙ rw (==_refl o.uuid);
  others = λ id other. find-put (λ u. u.uuid) id (taken_over env hash key o) db.users ∙ rw other;
  sessions = rw (==_refl o.uuid);
  second_factors = every-keep_if _ db.twofactors;
  memberships = only_ownerships o.uuid db.memberships;
  ownerships = all_ownerships o.uuid db.memberships;
  other_memberships = λ id other.
      keep_if-within _ _ db.memberships (λ m is. rw (distinct m.user_uuid id o.uuid is other));
  other_second_factors =
      λ id other. keep_if-within _ _ db.twofactors (λ w is. rw (distinct w id o.uuid is other));
  other_sessions = λ id other. rw (distinct id id o.uuid (==_refl id) other);
  ciphers = refl;
  access = refl;
}

set_password-ok :
    (env : Env) (hash key : ℕ) (o : User) (db : Db) {db' : Db}
    → set_password env hash key o db ≡ (ok tt, db')
    → save_user (taken_over env hash key o) (rotate_refresh_tokens o.uuid db) ≡ db'
unfolding set_password
set_password-ok env hash key o db h =
    let (valid, h1) = require-ok _ _ _ (write-ok _ _ h) in last_write-ok _ h1

module _ (env : Env) (user : User) (id : ℕ) (db db' : Db) where
  -- A password is set only for the contact of an approved access of type takeover, and only the
  -- password of the row's owner, whose account is then taken over: new password, key and stamp,
  -- the sessions, the second factors and the memberships that are no ownerships gone, and the
  -- ownerships kept. The other accounts keep their rows, sessions, second factors and memberships,
  -- and the emergency accesses and the ciphers are as before.
  pub password-IsTakenOver :
      (hash key : ℕ)
      → password_emergency_access env user id hash key db ≡ (ok tt, db')
      → (r : EmergencyAccess) × (o : User) × Granted user id db takeover r
        × (find_user r.grantor_uuid db ≡ some o)
        × IsTakenOver env hash key o db db'
  unfolding password_emergency_access
  password-IsTakenOver hash key h =
      let (enabled, h1) = require-ok _ _ _ h in
      let h2 = gets-ok _ _ h1 in
      let (r, found, h3) = some_or-ok _ _ _ h2 in
      let (valid, h4) = require-ok _ _ _ h3 in
      let h5 = gets-ok _ _ h4 in
      let (o, known, h6) = some_or-ok _ _ _ h5 in
      let (passed, h7) = then-ok _ _ db h6 in
      let stored = set_password-ok env hash key o db passed in
      let done = last_write-ok _ h7 in
      (
        r,
        o,
        granted user id db takeover r found valid,
        known,
        rw done at (rw stored at (takes_over env hash key o db)),
      )

  -- The owner's KDF settings and key are handed out only to the contact of an approved access of
  -- type takeover, and nothing is changed.
  pub takeover-Granted :
      (kdf : ℕ) (key : Option ℕ)
      → takeover_emergency_access env user id db ≡ (ok (kdf, key), db')
      → (r : EmergencyAccess) × (o : User) × Granted user id db takeover r
        × (find_user r.grantor_uuid db ≡ some o)
        × (kdf ≡ o.kdf)
        × (key ≡ r.key_encrypted)
        × (db' ≡ db)
  unfolding takeover_emergency_access
  takeover-Granted kdf key h =
      let (enabled, h1) = require-ok _ _ _ h in
      let h2 = gets-ok _ _ h1 in
      let (r, found, h3) = some_or-ok _ _ _ h2 in
      let (valid, h4) = require-ok _ _ _ h3 in
      let h5 = gets-ok _ _ h4 in
      let (o, known, h6) = some_or-ok _ _ _ h5 in
      let (same, kept) = pure-ok h6 in
      (
        r,
        o,
        granted user id db takeover r found valid,
        known,
        ap (λ p. p.0) (sym same),
        ap (λ p. p.1) (sym same),
        sym kept,
      )
