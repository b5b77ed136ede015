-- ===== src/Server/EmergencyAccess/Vault.antt =====
-- server/src/api/core/emergency_access.rs: the ciphers that `view_emergency_access` answers with.
use nad_safe_password_manage.Prelude.{
  ℕ, ◌≡◌, refl, ap, some, List, [], ◌∷◌, ok, err, Option-cases, inl, inr, ◌⊎◌,
}
use nad_safe_password_manage.Server.Handler.{pure, some_or, ◌>>=◌}
use nad_safe_password_manage.Server.EmergencyAccess.Model.{Cipher, cipher_json_error, Db, Env, M}
use nad_safe_password_manage.Server.EmergencyAccess.Recovery.{ciphers_json}

-- one text for each cipher, in order, as `Cipher::to_json` gives it for this user
pub data IsVault (env : Env) (id : ℕ) : List Cipher → List ℕ → Type 0 where
  no_ciphers : IsVault env id [] []
  and_cipher :
      (c : Cipher) (json : ℕ) (ciphers : List Cipher) (vault : List ℕ)
      → env.cipher_json c id ≡ some json
      → IsVault env id ciphers vault
      → IsVault env id (c ∷ ciphers) (json ∷ vault)

module _ (env : Env) (id : ℕ) where
  -- the loop gives the texts, or stops at a cipher that has none; it writes nothing
  pub ciphers_json-cases :
      (ciphers : List Cipher) (db : Db)
      → ((vault : List ℕ) × IsVault env id ciphers vault
          × (ciphers_json env id ciphers db ≡ (ok vault, db)))
        ⊎ (ciphers_json env id ciphers db ≡ (err cipher_json_error, db))
  unfolding ciphers_json ◌>>=◌ some_or pure
  ciphers_json-cases [] db = inl ([], no_ciphers, refl)
  ciphers_json-cases (c ∷ ciphers) db = elim (Option-cases (env.cipher_json c id)) [
    | inl missing ↦ inr (rw missing)
    | inr (json, made) ↦ elim (ciphers_json-cases ciphers db) [
      | inl (vault, is, e) ↦
          inl (json ∷ vault, and_cipher c json ciphers vault made is, rw (made, e))
      | inr e ↦ inr (rw (made, e))
    ]
  ]

  pub ciphers_json-quiet :
      (ciphers : List Cipher) (db : Db) → (ciphers_json env id ciphers db).1 ≡ db
  ciphers_json-quiet ciphers db = elim (ciphers_json-cases ciphers db) [
    | inl (vault, is, e) ↦ ap (λ p. p.1) e
    | inr e ↦ ap (λ p. p.1) e
  ]

  pub ciphers_json-ok :
      (ciphers : List Cipher) (db : Db) {B : Type 0} (k : List ℕ → M B) {b : B} {db' : Db}
      → (ciphers_json env id ciphers >>= k) db ≡ (ok b, db')
      → (vault : List ℕ) × IsVault env id ciphers vault × (k vault db ≡ (ok b, db'))
  unfolding ◌>>=◌
  ciphers_json-ok ciphers db k {b = b} h = elim (ciphers_json-cases ciphers db) [
    | inl (vault, is, e) ↦ (vault, is, rw e at h)
    | inr e ↦ let clash : err cipher_json_error ≡ ok b = ap (λ p. p.0) (rw e at h) in cc
  ]
