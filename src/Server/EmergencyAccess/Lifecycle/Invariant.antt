-- ===== src/Server/EmergencyAccess/Lifecycle/Invariant.antt =====
-- Which rows of the table are well-formed, and that they stay so along every run of the server.
use nad_safe_password_manage.Prelude.{
  ℕ, ◌≡◌, ◌≤◌, ◌⊎◌, inl, inr, refl, ap, ◌∙◌, true, Option, none, some, arith,
}
use nad_safe_password_manage.Server.Table.{Unique}
use nad_safe_password_manage.Server.EmergencyAccess.Model.{
  EmergencyAccess, EmergencyAccessStatus, invited, recovery_initiated, recovery_approved,
  status_code, is_some, Db, Env, find_ea, or_else,
}
use nad_safe_password_manage.Server.EmergencyAccess.Lifecycle.{
  Actor, Update, edits, accepts, confirms, initiates, approves, rejects, times_out, reminds,
  creates, updates, deletes, Changes, stays, more,
}
use nad_safe_password_manage.Server.EmergencyAccess.Lifecycle.Rules.{row}
use nad_safe_password_manage.Server.EmergencyAccess.Lifecycle.Steps.{
  Request, actor, run, run-Changes, run-Unique,
}

-- An invited contact is known by the address, any other by the account; from confirmation on there
-- is a key, and from the start of a recovery on its time.
pub record IsValid (r : EmergencyAccess) : Type 0 where
  pub known_by :
      ((r.status ≡ invited) × (is_some r.email ≡ true) × (r.grantee_uuid ≡ none))
      ⊎ ((1 ≤ status_code r.status) × (r.email ≡ none) × (is_some r.grantee_uuid ≡ true))
  pub keyed : (2 ≤ status_code r.status) → is_some r.key_encrypted ≡ true
  pub started : (3 ≤ status_code r.status) → is_some r.recovery_initiated_at ≡ true

abbrev pub Valid : Option EmergencyAccess → Type 0
Valid none = Unit {0}
Valid (some r) = IsValid r

or_else-some : (a b : Option ℕ) → is_some b ≡ true → is_some (or_else a b) ≡ true
or_else-some a b h = ground arith

by_account :
    (s : EmergencyAccessStatus) (email grantee : Option ℕ)
    → 1 ≤ status_code s
    → ((s ≡ invited) × (is_some email ≡ true) × (grantee ≡ none))
      ⊎ ((1 ≤ status_code s) × (email ≡ none) × (is_some grantee ≡ true))
    → (email ≡ none) × (is_some grantee ≡ true)
by_account s email grantee late (inl (st, m, g)) = absurd (omega (arith, ap status_code st))
by_account s email grantee late (inr (_, m, g)) = (m, g)

under_way :
    (s : EmergencyAccessStatus)
    → (s ≡ recovery_initiated) ⊎ (s ≡ recovery_approved)
    → 3 ≤ status_code s
under_way s (inl e) = omega (arith, ap status_code e)
under_way s (inr e) = omega (arith, ap status_code e)

module _ (env : Env) (who : Actor) where
  -- a later status with the same contact
  moved :
      (r r' : EmergencyAccess)
      → 1 ≤ status_code r.status
      → 1 ≤ status_code r'.status
      → (r'.email ≡ r.email) × (r'.grantee_uuid ≡ r.grantee_uuid)
      → (2 ≤ status_code r'.status → is_some r'.key_encrypted ≡ true)
      → (3 ≤ status_code r'.status → is_some r'.recovery_initiated_at ≡ true)
      → IsValid r
      → IsValid r'
  moved r r' late late' (m, g) k s v =
      let (no_mail, contact) = by_account r.status r.email r.grantee_uuid late v.known_by in
      record { known_by = inr (late', m ∙ no_mail, ap is_some g ∙ contact); keyed = k; started = s }

  Update-IsValid : (r r' : EmergencyAccess) → Update env who r r' → IsValid r → IsValid r'
  Update-IsValid r r' (edits t wait key owner e) v = rw e (record {
    known_by = v.known_by;
    keyed = λ late. or_else-some key r.key_encrypted (v.keyed late);
    started = v.started;
  })
  Update-IsValid r r' (accepts c m has e) v = rw e (record {
    known_by = inr (omega arith, refl, refl);
    keyed = λ late. absurd (omega arith);
    started = λ late. absurd (omega arith);
  })
  Update-IsValid r r' (confirms c k owner st g e) v = rw e (record {
    known_by = inr (omega arith, refl, ap is_some g);
    keyed = λ late. refl;
    started = λ late. absurd (omega arith);
  })
  Update-IsValid r r' (initiates c who_is g st e) v =
      let code = ap status_code st in
      rw e (
        moved r _ (omega (arith, code)) (omega arith) (refl, refl)
          (λ late. v.keyed (omega (arith, code))) (λ late. refl) v)
  Update-IsValid r r' (approves owner st e) v =
      let code = ap status_code st in
      rw e (
        moved r _ (omega (arith, code)) (omega arith) (refl, refl)
          (λ late. v.keyed (omega (arith, code))) (λ late. v.started (omega (arith, code))) v)
  Update-IsValid r r' (rejects owner st e) v =
      let code = under_way r.status st in
      rw e (
        moved r _ (omega (arith, code)) (omega arith) (refl, refl)
          (λ late. v.keyed (omega (arith, code))) (λ late. absurd (omega arith)) v)
  Update-IsValid r r' (times_out who_is st due e) v =
      let code = ap status_code st in
      rw e (
        moved r _ (omega (arith, code)) (omega arith) (refl, refl)
          (λ late. v.keyed (omega (arith, code))) (λ late. v.started (omega (arith, code))) v)
  Update-IsValid r r' (reminds who_is e) v =
      rw e (record { known_by = v.known_by; keyed = v.keyed; started = v.started })

  changes-Valid : {o q : Option EmergencyAccess} → Changes env who o q → Valid o → Valid q
  changes-Valid (stays _) v = v
  changes-Valid (more (creates r m owner st g has) rest) v =
      let code = ap status_code st in
      changes-Valid rest (record {
        known_by = inl (st, ap is_some has, g);
        keyed = λ late. absurd (omega (arith, code));
        started = λ late. absurd (omega (arith, code));
      })
  changes-Valid (more (updates u) rest) v = changes-Valid rest (Update-IsValid _ _ u v)
  changes-Valid (more (deletes r u who_is party) rest) v = changes-Valid rest tt

-- If identifiers are unique keys and the new identifier at hand is not taken, then no request or
-- job makes a well-formed row ill-formed, or creates an ill-formed one.
pub run-Valid :
    (env : Env) (request : Request) (j : ℕ) (db : Db)
    → Unique (λ x. x.uuid) db.emergency_access
    → find_ea env.fresh_uuid db.emergency_access ≡ none
    → Valid (row j db)
    → Valid (row j (run env request db))
run-Valid env request j db unique fresh v =
    changes-Valid env (actor request) (run-Changes env request j db unique fresh) v

-- The databases that requests and jobs reach, each request with a new identifier at hand that is
-- not taken.
pub data Reaches (db : Db) : Db → Type 0 where
  here : Reaches db db
  next :
      {db' : Db} (env : Env) (request : Request)
      → Reaches db db'
      → find_ea env.fresh_uuid db'.emergency_access ≡ none
      → Reaches db (run env request db')

module _ (db : Db) (unique : Unique (λ x. x.uuid) db.emergency_access) where
  reached-Unique : {db' : Db} → Reaches db db' → Unique (λ x. x.uuid) db'.emergency_access
  reached-Unique here = unique
  reached-Unique (next env request path fresh) =
      run-Unique env request _ (reached-Unique path) fresh

  reached-Valid : (j : ℕ) {db' : Db} → Reaches db db' → Valid (row j db) → Valid (row j db')
  reached-Valid j here v = v
  reached-Valid j (next env request path fresh) v =
      run-Valid env request j _ (reached-Unique path) fresh (reached-Valid j path v)

-- From any database with unique identifiers: an emergency access that was created since and is
-- approved for recovery names its contact's account, and has a key and the time at which the
-- recovery was started.
pub approved_complete :
    (j : ℕ) (db db' : Db) (r : EmergencyAccess)
    → Unique (λ x. x.uuid) db.emergency_access
    → Reaches db db'
    → row j db ≡ none
    → row j db' ≡ some r
    → r.status ≡ recovery_approved
    → (is_some r.grantee_uuid ≡ true)
      × (is_some r.key_encrypted ≡ true)
      × (is_some r.recovery_initiated_at ≡ true)
approved_complete j db db' r unique path absent e approved =
    let code = ap status_code approved in
    let v : IsValid r = rw e at (reached-Valid db unique j path (rw absent tt)) in
    (
      (by_account r.status r.email r.grantee_uuid (omega (arith, code)) v.known_by).1,
      v.keyed (omega (arith, code)),
      v.started (omega (arith, code)),
    )
