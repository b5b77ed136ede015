-- ===== src/Server/EmergencyAccess/Lifecycle/Clock.antt =====
-- The jobs move the row of an emergency access as the state machine allows.
use nad_safe_password_manage.Prelude.{
  ℕ, ◌≡◌, refl, sym, ap, ◌∙◌, Bool, true, false, ◌&&◌, &&-true, none, some, Result, ok, err, arith,
  ◌==◌, ==_iff, Bool-cases, inl, inr, ◌⊎◌, List, [], ◌∷◌, Option-cases, every, every-cons,
  every-keep_if,
}
use nad_safe_password_manage.Server.Handler.{
  ◌>>=◌, ◌>>◌, gets, when, write, pure, some_or, continue,
}
use nad_safe_password_manage.Server.Table.{
  modify, map_option, find-modify, Unique, Rows, Rows-keep_if, Rows-modify, Unique-modify,
}
use nad_safe_password_manage.Server.EmergencyAccess.Model.{
  EmergencyAccess, recovery_initiated, recovery_approved, Db, Env, Error, M, find_ea, is_status,
  is_some, find_all_recoveries_initiated,
}
use nad_safe_password_manage.Server.EmergencyAccess.Jobs.{
  is_timed_out, is_reminder_due, update_access_status_and_save,
  update_last_notification_date_and_save, notify_timed_out, remind, approve_timed_out,
  emergency_request_timeout_job, send_reminders, emergency_notification_reminder_job,
}
use nad_safe_password_manage.Server.EmergencyAccess.Lifecycle.{
  clock, Update, times_out, reminds, updates, stays, more,
}
use nad_safe_password_manage.Server.EmergencyAccess.Lifecycle.Rules.{
  Lawful, Moves, kept, after_gets, last_pure, status_is, in_when, after_require, after_then,
  congruent,
}

abbrev key : EmergencyAccess → ℕ
key r = r.uuid

abbrev approved : ℕ → EmergencyAccess → EmergencyAccess
approved now r = record r { status = recovery_approved; updated_at = now }

abbrev reminded : ℕ → EmergencyAccess → EmergencyAccess
reminded now r = record r { last_notification_at = some now; updated_at = now }

-- what one round of a job does to the table: nothing, or one update of its row
abbrev Round : (EmergencyAccess → EmergencyAccess) → EmergencyAccess → Bool → Db → Db → Type 0
Round f r due db db' =
    (db'.emergency_access ≡ db.emergency_access)
    ⊎ ((due ≡ true) × (db'.emergency_access ≡ modify key r.uuid f db.emergency_access))

module _ (env : Env) (r : EmergencyAccess) (db : Db) where
  notify-quiet : (notify_timed_out env r db).1.emergency_access ≡ db.emergency_access
  unfolding notify_timed_out ◌>>◌ ◌>>=◌ gets some_or
  notify-quiet = ground arith

  remind-quiet : (remind env r db).1.emergency_access ≡ db.emergency_access
  unfolding remind ◌>>◌ ◌>>=◌ gets some_or
  remind-quiet = ground arith

mail-quiet :
    (test : Bool) (m : M (Unit {0})) (db : Db)
    → (m db).1.emergency_access ≡ db.emergency_access
    → (when test m db).1.emergency_access ≡ db.emergency_access
unfolding when pure
mail-quiet true m db e = e
mail-quiet false m db e = refl

then-quiet :
    (m k : M (Unit {0})) (db : Db)
    → ((db' : Db) → (k db').1.emergency_access ≡ db'.emergency_access)
    → ((m >> k) db).1.emergency_access ≡ (m db).1.emergency_access
unfolding ◌>>◌ ◌>>=◌
then-quiet m k db h = continued (m db).0 (m db).1
  where
    continued :
        (a : Result Error (Unit {0})) (db' : Db)
        → (continue a (λ _. k) db').1.emergency_access ≡ db'.emergency_access
    continued (err e) db' = refl
    continued (ok a) db' = h db'

-- without a contact it panics
update-cases :
    (env : Env) (r : EmergencyAccess) (db : Db)
    → ((update_access_status_and_save env recovery_approved env.now r db).1.emergency_access
        ≡ db.emergency_access)
      ⊎ ((update_access_status_and_save env recovery_approved env.now r db).1.emergency_access
          ≡ modify key r.uuid (approved env.now) db.emergency_access)
unfolding ◌>>◌ ◌>>=◌ update_access_status_and_save some_or write
update-cases env r db = elim (Option-cases r.grantee_uuid) [
  | inl missing ↦ inl (rw missing)
  | inr (g, named) ↦ inr (rw named)
]

abbrev approve_one : Env → EmergencyAccess → M (Unit {0})
approve_one env r = when (is_timed_out env.now r) do
  update_access_status_and_save env recovery_approved env.now r
  when env.mail_enabled (notify_timed_out env r)

abbrev remind_one : Env → EmergencyAccess → M (Unit {0})
remind_one env r =
    when (is_reminder_due env.now r)
      do update_last_notification_date_and_save env.now r; when env.mail_enabled (remind env r)

module _ (env : Env) (r : EmergencyAccess) (db : Db) where
  approve-sent :
      ((update_access_status_and_save env recovery_approved env.now r
          >> when env.mail_enabled (notify_timed_out env r))
        db).1.emergency_access
      ≡ (update_access_status_and_save env recovery_approved env.now r db).1.emergency_access
  approve-sent =
      then-quiet _ _ db (λ db'. mail-quiet env.mail_enabled _ db' (notify-quiet env r db'))

  approve-Round : Round (approved env.now) r (is_timed_out env.now r) db (approve_one env r db).1
  unfolding when pure
  approve-Round = elim (Bool-cases (is_timed_out env.now r)) [
    | inr early ↦ inl (rw early)
    | inl due ↦ rw due (elim (update-cases env r db) [
      | inl same ↦ inl (approve-sent ∙ same)
      | inr written ↦ inr (refl, approve-sent ∙ written)
    ])
  ]

  remind-Round : Round (reminded env.now) r (is_reminder_due env.now r) db (remind_one env r db).1
  unfolding ◌>>◌ ◌>>=◌ when pure update_last_notification_date_and_save write
  remind-Round = elim (Bool-cases (is_reminder_due env.now r)) [
    | inr early ↦ inl (rw early)
    | inl due ↦ rw due (inr (refl, mail-quiet env.mail_enabled _ _ (remind-quiet env r _)))
  ]

module _ (env : Env) (j : ℕ) where
  Round-Moves :
      (f : EmergencyAccess → EmergencyAccess) (r : EmergencyAccess) (due : Bool) (db db' : Db)
      → ((x : EmergencyAccess) → (f x).uuid ≡ x.uuid)
      → (due ≡ true → Update env clock r (f r))
      → find_ea r.uuid db.emergency_access ≡ some r
      → Round f r due db db'
      → Moves env clock j db db'
  Round-Moves f r due db db' keeps update is_row (inl same) = kept same
  Round-Moves f r due db db' keeps update is_row (inr (is_due, written)) =
      let now_is = ap (find_ea j) written ∙ find-modify key j r.uuid f db.emergency_access keeps in
      record {
        changes = elim (Bool-cases (r.uuid == j)) [
          | inl same ↦
              let was =
                ap (λ n. find_ea n db.emergency_access) (sym ((==_iff r.uuid j).0 same)) ∙ is_row in
              congruent was (now_is ∙ rw same (ap (map_option f) was))
                (more (updates (update is_due)) (stays _))
          | inr other ↦ congruent refl (now_is ∙ rw other) (stays _)
        ];
        unique = λ u. rw written (Unique-modify key r.uuid f db.emergency_access keeps u);
      }

  Rows-Round :
      (f : EmergencyAccess → EmergencyAccess) (r : EmergencyAccess) (due : Bool)
      (rs : List EmergencyAccess) (db db' : Db)
      → ((x : EmergencyAccess) → (f x).uuid ≡ x.uuid)
      → find_ea r.uuid rs ≡ none
      → Rows key rs db.emergency_access
      → Round f r due db db'
      → Rows key rs db'.emergency_access
  Rows-Round f r due rs db db' keeps alone rows (inl same) = rw same rows
  Rows-Round f r due rs db db' keeps alone rows (inr (is_due, written)) =
      rw written (Rows-modify key r.uuid f rs db.emergency_access keeps alone rows)

  approve_timed_out-Lawful :
      (rs : List EmergencyAccess) (db : Db)
      → every (λ r. is_status r.status recovery_initiated && is_some r.recovery_initiated_at) rs
        ≡ true
      → Rows key rs db.emergency_access
      → Lawful env clock j (approve_timed_out env rs) db
  unfolding approve_timed_out Rows
  approve_timed_out-Lawful [] db all rows = last_pure _ _
  approve_timed_out-Lawful (r ∷ rs) db all (is_row, alone, rows) =
      let (pending, others) = every-cons _ r rs all in
      let db' = (approve_one env r db).1 in
      let round = approve-Round env r db in
      let update : is_timed_out env.now r ≡ true → Update env clock r (approved env.now r) =
        λ due. times_out refl (status_is _ _ (&&-true _ _ pending).0) due refl in
      after_require _ _ _ _ λ dated.
        after_then _ _ _
          (record {
            moves = Round-Moves (approved env.now) r _ db db' (λ x. refl) update is_row round;
          })
          (approve_timed_out-Lawful rs db' others
            (Rows-Round (approved env.now) r _ rs db db' (λ x. refl) alone rows round))

  send_reminders-Lawful :
      (rs : List EmergencyAccess) (db : Db)
      → Rows key rs db.emergency_access
      → Lawful env clock j (send_reminders env rs) db
  unfolding send_reminders Rows
  send_reminders-Lawful [] db rows = last_pure _ _
  send_reminders-Lawful (r ∷ rs) db (is_row, alone, rows) =
      let db' = (remind_one env r db).1 in
      let round = remind-Round env r db in
      after_require _ _ _ _ λ dated.
        after_then _ _ _
          (record {
            moves =
                Round-Moves (reminded env.now) r _ db db' (λ x. refl) (λ due. reminds refl refl)
                  is_row round;
          })
          (send_reminders-Lawful rs db'
            (Rows-Round (reminded env.now) r _ rs db db' (λ x. refl) alone rows round))

  module _ (db : Db) (unique : Unique key db.emergency_access) where
    pub timeout_job-Lawful : Lawful env clock j (emergency_request_timeout_job env) db
    unfolding emergency_request_timeout_job find_all_recoveries_initiated
    timeout_job-Lawful = in_when _ _ _ (
        after_gets _ _ _ (
          approve_timed_out-Lawful _ db (every-keep_if _ db.emergency_access)
            (Rows-keep_if key _ db.emergency_access unique)))

    pub reminder_job-Lawful : Lawful env clock j (emergency_notification_reminder_job env) db
    unfolding emergency_notification_reminder_job find_all_recoveries_initiated
    reminder_job-Lawful = in_when _ _ _ (
        after_gets _ _ _
          (send_reminders-Lawful _ db (Rows-keep_if key _ db.emergency_access unique)))
