-- ===== src/Server/EmergencyAccess/Jobs.antt =====
-- The jobs that run over the recoveries under way. A job that panics stops where it is.
use nad_safe_password_manage.Prelude.{
  ℕ, zero, suc, ◌+◌, ◌*◌, ◌^◌, ◌==◌, not, Bool, true, false, ◌&&◌, Option, none, some, List, [],
  ◌∷◌, leb,
}
use nad_safe_password_manage.Server.Handler.{pure, gets, some_or, write, require, when, ◌>>=◌, ◌>>◌}
use nad_safe_password_manage.Server.Table.{modify}
use nad_safe_password_manage.Server.EmergencyAccess.Model.{
  EmergencyAccess, EmergencyAccessStatus, recovery_approved, WaitTime, days, minus,
  recovery_timed_out, recovery_approved_mail, recovery_reminder, Env, date_out_of_range,
  grantee_not_found, grantor_not_found, M, find_user, update_uuid_revision,
  find_all_recoveries_initiated, send,
}

-- a day, in seconds
abbrev day : ℕ
day = 86400

-- `initiated + TimeDelta::try_days(wait) <= now`
abbrev pub is_due : ℕ → WaitTime → ℕ → Bool
is_due initiated (days n) now = leb (initiated + n * day) now
is_due initiated (minus n) now = leb initiated (now + n * day)

-- the sum above is a date; if not, it panics
abbrev pub is_date : Env → ℕ → WaitTime → Bool
is_date env initiated (days n) = leb (initiated + n * day) env.latest_date
is_date env initiated (minus n) = leb (n * day) (initiated + env.earliest_date)

-- `wait_time_days - 1` of an `i32` that is not the least
abbrev pub pred : WaitTime → WaitTime
pred (days zero) = minus 1
pred (days (suc n)) = days n
pred (minus n) = minus (suc n)

-- For the least `i32`, the subtraction panics under overflow checks; without, it wraps to the
-- greatest, and a date so many days later is out of range.
abbrev is_reminder_date : Env → ℕ → WaitTime → Bool
is_reminder_date env initiated (days n) = is_date env initiated (pred (days n))
is_reminder_date env initiated (minus n) =
    not (n == 2 ^ 31) && is_date env initiated (pred (minus n))

-- `last_notification_at + TimeDelta::try_days(1)`
abbrev is_notification_date : Env → Option ℕ → Bool
is_notification_date env none = true
is_notification_date env (some last) = leb (last + day) env.latest_date

abbrev cond_at : Option ℕ → (ℕ → Bool) → Bool
cond_at none test = false
cond_at (some at) test = test at

-- the wait time of a row whose recovery is under way has run out
unfoldable pub is_timed_out : ℕ → EmergencyAccess → Bool
is_timed_out now r = cond_at r.recovery_initiated_at (λ at. is_due at r.wait_time_days now)

abbrev is_notification_old : ℕ → Option ℕ → Bool
is_notification_old now none = true
is_notification_old now (some last) = leb (last + day) now

-- neither `unwrap` nor the sum of the time-out job panics
unfoldable pub has_deadline : Env → EmergencyAccess → Bool
has_deadline env r = cond_at r.recovery_initiated_at (λ at. is_date env at r.wait_time_days)

-- neither `unwrap` nor the sums of the reminder job panic
unfoldable pub has_reminder_dates : Env → EmergencyAccess → Bool
has_reminder_dates env r =
    cond_at r.recovery_initiated_at (λ at. is_reminder_date env at r.wait_time_days)
    && is_notification_date env r.last_notification_at

-- the last day before that has begun, and the last notification is a day old
unfoldable pub is_reminder_due : ℕ → EmergencyAccess → Bool
is_reminder_due now r =
    cond_at r.recovery_initiated_at (λ at. is_due at (pred r.wait_time_days) now)
    && is_notification_old now r.last_notification_at

-- Both write only the columns they name.
unfoldable pub update_access_status_and_save :
    Env → EmergencyAccessStatus → ℕ → EmergencyAccess → M (Unit {0})
update_access_status_and_save env status date r = do
  grantee ← some_or grantee_not_found r.grantee_uuid
  write (update_uuid_revision env grantee)
  write (λ db. record db {
    emergency_access =
        modify (λ x. x.uuid) r.uuid (λ x. record x { status = status; updated_at = date })
          db.emergency_access;
  })

unfoldable pub update_last_notification_date_and_save : ℕ → EmergencyAccess → M (Unit {0})
update_last_notification_date_and_save date r = write (λ db. record db {
  emergency_access =
      modify (λ x. x.uuid) r.uuid
        (λ x. record x { last_notification_at = some date; updated_at = date }) db.emergency_access;
})

-- the two mails of a recovery that has timed out
unfoldable pub notify_timed_out : Env → EmergencyAccess → M (Unit {0})
notify_timed_out env r = do
  owner ← gets (find_user r.grantor_uuid)
  grantor ← some_or grantor_not_found owner
  grantee_uuid ← some_or grantee_not_found r.grantee_uuid
  contact ← gets (find_user grantee_uuid)
  grantee ← some_or grantee_not_found contact
  send env (recovery_timed_out grantor.email)
  send env (recovery_approved_mail grantee.email)

unfoldable pub remind : Env → EmergencyAccess → M (Unit {0})
remind env r = do
  owner ← gets (find_user r.grantor_uuid)
  grantor ← some_or grantor_not_found owner
  grantee_uuid ← some_or grantee_not_found r.grantee_uuid
  contact ← gets (find_user grantee_uuid)
  grantee ← some_or grantee_not_found contact
  send env (recovery_reminder grantor.email)

unfoldable pub approve_timed_out : Env → List EmergencyAccess → M (Unit {0})
approve_timed_out env [] = pure tt
approve_timed_out env (r ∷ rs) = do
  require (has_deadline env r) date_out_of_range
  when (is_timed_out env.now r) do
    update_access_status_and_save env recovery_approved env.now r
    when env.mail_enabled (notify_timed_out env r)
  approve_timed_out env rs

unfoldable pub emergency_request_timeout_job : Env → M (Unit {0})
emergency_request_timeout_job env =
    when env.emergency_access_allowed
      do rs ← gets find_all_recoveries_initiated; approve_timed_out env rs

unfoldable pub send_reminders : Env → List EmergencyAccess → M (Unit {0})
send_reminders env [] = pure tt
send_reminders env (r ∷ rs) = do
  require (has_reminder_dates env r) date_out_of_range
  when (is_reminder_due env.now r)
      do update_last_notification_date_and_save env.now r; when env.mail_enabled (remind env r)
  send_reminders env rs

unfoldable pub emergency_notification_reminder_job : Env → M (Unit {0})
emergency_notification_reminder_job env =
    when env.emergency_access_allowed
      do rs ← gets find_all_recoveries_initiated; send_reminders env rs
