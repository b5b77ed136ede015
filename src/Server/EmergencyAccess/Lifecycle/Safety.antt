-- ===== src/Server/EmergencyAccess/Lifecycle/Safety.antt =====
-- What follows from the state machine for every request and job.
use nad_safe_password_manage.Prelude.{ℕ, ◌≡◌, refl, sym, ap, ◌∙◌, true, Option, none, some, arith}
use nad_safe_password_manage.Server.Table.{Unique}
use nad_safe_password_manage.Server.EmergencyAccess.Model.{
  EmergencyAccess, recovery_approved, status_code, Db, Env, find_ea,
}
use nad_safe_password_manage.Server.EmergencyAccess.Jobs.{is_timed_out}
use nad_safe_password_manage.Server.EmergencyAccess.Lifecycle.{
  Actor, by, clock, Update, edits, accepts, confirms, initiates, approves, rejects, times_out,
  reminds, creates, updates, deletes, Changes, stays, more,
}
use nad_safe_password_manage.Server.EmergencyAccess.Lifecycle.Rules.{row}
use nad_safe_password_manage.Server.EmergencyAccess.Lifecycle.Steps.{
  Request, actor, run, run-Changes,
}

-- why a recovery is approved: it was before, the owner acts, or the wait time has run out
pub data Reason (env : Env) (who : Actor) (o : Option EmergencyAccess) (r : EmergencyAccess)
    : Type 0 where
  before : (r0 : EmergencyAccess) → o ≡ some r0 → r0.status ≡ recovery_approved → Reason env who o r
  by_owner : who ≡ by r.grantor_uuid → Reason env who o r
  timed_out : who ≡ clock → is_timed_out env.now r ≡ true → Reason env who o r

abbrev Justified : Env → Actor → Option EmergencyAccess → Option EmergencyAccess → Type 0
Justified env who o none = Unit {0}
Justified env who o (some r) = r.status ≡ recovery_approved → Reason env who o r

module _ (env : Env) (who : Actor) (o : Option EmergencyAccess) where
  clash :
      {r r' : EmergencyAccess} → r' ≡ r → r'.status ≡ recovery_approved → status_code r.status ≡ 4
  clash e approved = sym (ap (λ x. status_code x.status) e) ∙ ap status_code approved

  -- a reason depends on the owner and on the wait time alone
  carried :
      {r r' : EmergencyAccess}
      → r' ≡ record r { last_notification_at = some env.now; updated_at = env.now }
      → Reason env who o r
      → Reason env who o r'
  unfolding is_timed_out
  carried e (before r0 was st) = before r0 was st
  carried e (by_owner owner) = by_owner (owner ∙ ap (λ x. by x.grantor_uuid) (sym e))
  carried e (timed_out who_is due) = timed_out who_is (ap (is_timed_out env.now) e ∙ due)

  Update-Justified :
      (r r' : EmergencyAccess)
      → Update env who r r'
      → Justified env who o (some r)
      → Justified env who o (some r')
  unfolding is_timed_out
  Update-Justified r r' (edits t wait key owner e) h approved =
      by_owner (owner ∙ ap (λ x. by x.grantor_uuid) (sym e))
  Update-Justified r r' (accepts c m has e) h approved = absurd (omega (arith, clash e approved))
  Update-Justified r r' (confirms c k owner st g e) h approved =
      absurd (omega (arith, clash e approved))
  Update-Justified r r' (initiates c who_is g st e) h approved =
      absurd (omega (arith, clash e approved))
  Update-Justified r r' (approves owner st e) h approved =
      by_owner (owner ∙ ap (λ x. by x.grantor_uuid) (sym e))
  Update-Justified r r' (rejects owner st e) h approved =
      by_owner (owner ∙ ap (λ x. by x.grantor_uuid) (sym e))
  Update-Justified r r' (times_out who_is st due e) h approved =
      timed_out who_is (ap (is_timed_out env.now) e ∙ due)
  Update-Justified r r' (reminds who_is e) h approved =
      carried e (h (sym (ap (λ x. x.status) e) ∙ approved))

  changes-Justified :
      {p q : Option EmergencyAccess}
      → Changes env who p q
      → Justified env who o p
      → Justified env who o q
  changes-Justified (stays _) h = h
  changes-Justified (more (creates r m owner st g e) rest) h =
      changes-Justified rest
        (λ approved. absurd (omega (arith, ap status_code st, ap status_code approved)))
  changes-Justified (more (updates u) rest) h = changes-Justified rest (Update-Justified _ _ u h)
  changes-Justified (more (deletes r u who_is party) rest) h = changes-Justified rest tt

unchanged-Justified : (env : Env) (who : Actor) (o : Option EmergencyAccess) → Justified env who o o
unchanged-Justified env who none = tt
unchanged-Justified env who (some r) = λ approved. before r refl approved

-- If identifiers are unique keys and the new identifier at hand is not taken: an emergency access
-- that is approved for recovery after a request or job was so before, or its owner made the
-- request, or a job ran and the access's wait time has run out.
pub approval_justified :
    (env : Env) (request : Request) (j : ℕ) (db : Db) (r : EmergencyAccess)
    → Unique (λ x. x.uuid) db.emergency_access
    → find_ea env.fresh_uuid db.emergency_access ≡ none
    → row j (run env request db) ≡ some r
    → r.status ≡ recovery_approved
    → Reason env (actor request) (row j db) r
approval_justified env request j db r unique fresh e approved =
    let justified =
      changes-Justified env (actor request) (row j db) (run-Changes env request j db unique fresh)
        (unchanged-Justified env (actor request) (row j db)) in
    rw e at justified approved
