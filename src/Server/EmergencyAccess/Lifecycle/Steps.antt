-- ===== src/Server/EmergencyAccess/Lifecycle/Steps.antt =====
-- All requests and jobs on emergency accesses, as one step of the server.
use nad_safe_password_manage.Prelude.{ℕ, ◌≡◌, Option, none}
use nad_safe_password_manage.Server.Table.{Unique}
use nad_safe_password_manage.Server.EmergencyAccess.Model.{
  EmergencyAccessType, WaitTime, InviteMail, User, Db, Env, find_ea,
}
use nad_safe_password_manage.Server.EmergencyAccess.Recovery.{
  initiate_emergency_access, approve_emergency_access, reject_emergency_access,
  view_emergency_access, takeover_emergency_access, password_emergency_access,
  policies_emergency_access,
}
use nad_safe_password_manage.Server.EmergencyAccess.Invite.{
  post_emergency_access, delete_emergency_access, send_invite, resend_invite,
  accept_emergency_invite, confirm_emergency_access,
}
use nad_safe_password_manage.Server.EmergencyAccess.Jobs.{
  emergency_request_timeout_job, emergency_notification_reminder_job,
}
use nad_safe_password_manage.Server.EmergencyAccess.Lifecycle.{Actor, by, clock, Changes}
use nad_safe_password_manage.Server.EmergencyAccess.Lifecycle.Rules.{Moves, row}
use nad_safe_password_manage.Server.EmergencyAccess.Lifecycle.Requests.{
  approve-Lawful, reject-Lawful, initiate-Lawful, confirm-Lawful, post-Lawful,
}
use nad_safe_password_manage.Server.EmergencyAccess.Lifecycle.Contacts.{
  send_invite-Lawful, resend_invite-Lawful, accept-Lawful, delete-Lawful, view-Lawful,
  takeover-Lawful, password-Lawful, policies-Lawful,
}
use nad_safe_password_manage.Server.EmergencyAccess.Lifecycle.Clock.{
  timeout_job-Lawful, reminder_job-Lawful,
}

-- The routes, each with its requesting user, the path's identifier and the body; and the jobs.
pub data Request : Type 0 where
  post_access : User → ℕ → Option EmergencyAccessType → WaitTime → Option ℕ → Request
  delete_access resend initiate approve reject view_vault take_over policies : User → ℕ → Request
  send_one : User → ℕ → Option EmergencyAccessType → WaitTime → Request
  accept : User → ℕ → Option InviteMail → Request
  confirm : User → ℕ → ℕ → Request
  password : User → ℕ → ℕ → ℕ → Request
  timeout_job reminder_job : Request

unfoldable pub actor : Request → Actor
actor (post_access user _ _ _ _) = by user.uuid
actor (delete_access user _) = by user.uuid
actor (resend user _) = by user.uuid
actor (initiate user _) = by user.uuid
actor (approve user _) = by user.uuid
actor (reject user _) = by user.uuid
actor (view_vault user _) = by user.uuid
actor (take_over user _) = by user.uuid
actor (policies user _) = by user.uuid
actor (send_one user _ _ _) = by user.uuid
actor (accept user _ _) = by user.uuid
actor (confirm user _ _) = by user.uuid
actor (password user _ _ _) = by user.uuid
actor timeout_job = clock
actor reminder_job = clock

-- the database that a request leaves, whether it is answered or refused
unfoldable pub run : Env → Request → Db → Db
run env (post_access user id t wait key) db = (post_emergency_access env user id t wait key db).1
run env (delete_access user id) db = (delete_emergency_access env user id db).1
run env (resend user id) db = (resend_invite env user id db).1
run env (initiate user id) db = (initiate_emergency_access env user id db).1
run env (approve user id) db = (approve_emergency_access env user id db).1
run env (reject user id) db = (reject_emergency_access env user id db).1
run env (view_vault user id) db = (view_emergency_access env user id db).1
run env (take_over user id) db = (takeover_emergency_access env user id db).1
run env (policies user id) db = (policies_emergency_access user id db).1
run env (send_one user email t wait) db = (send_invite env user email t wait db).1
run env (accept user id token) db = (accept_emergency_invite env user id token db).1
run env (confirm user id key) db = (confirm_emergency_access env user id key db).1
run env (password user id hash key) db = (password_emergency_access env user id hash key db).1
run env timeout_job db = (emergency_request_timeout_job env db).1
run env reminder_job db = (emergency_notification_reminder_job env db).1

run-Moves :
    (env : Env) (request : Request) (j : ℕ) (db : Db)
    → Unique (λ r. r.uuid) db.emergency_access
    → find_ea env.fresh_uuid db.emergency_access ≡ none
    → Moves env (actor request) j db (run env request db)
unfolding run actor
run-Moves env (post_access user id t wait key) j db u f =
    (post-Lawful env user j id db t wait key).moves
run-Moves env (delete_access user id) j db u f = (delete-Lawful env user j db id).moves
run-Moves env (resend user id) j db u f = (resend_invite-Lawful env user j db id).moves
run-Moves env (initiate user id) j db u f = (initiate-Lawful env user j id db).moves
run-Moves env (approve user id) j db u f = (approve-Lawful env user j id db).moves
run-Moves env (reject user id) j db u f = (reject-Lawful env user j id db).moves
run-Moves env (view_vault user id) j db u f = (view-Lawful env user j db id).moves
run-Moves env (take_over user id) j db u f = (takeover-Lawful env user j db id).moves
run-Moves env (policies user id) j db u f = (policies-Lawful env user j db id).moves
run-Moves env (send_one user email t wait) j db u f =
    (send_invite-Lawful env user j db email t wait f).moves
run-Moves env (accept user id token) j db u f = (accept-Lawful env user j db id token).moves
run-Moves env (confirm user id key) j db u f = (confirm-Lawful env user j id db key).moves
run-Moves env (password user id hash key) j db u f =
    (password-Lawful env user j db id hash key).moves
run-Moves env timeout_job j db u f = (timeout_job-Lawful env j db u).moves
run-Moves env reminder_job j db u f = (reminder_job-Lawful env j db u).moves

-- Every request and job, answered, refused or stopped midway, changes the row of every emergency
-- access only by changes that the state machine allows its actor, if identifiers are unique keys
-- and the new identifier at hand is not taken.
pub run-Changes :
    (env : Env) (request : Request) (j : ℕ) (db : Db)
    → Unique (λ r. r.uuid) db.emergency_access
    → find_ea env.fresh_uuid db.emergency_access ≡ none
    → Changes env (actor request) (row j db) (row j (run env request db))
run-Changes env request j db u f = (run-Moves env request j db u f).changes

-- identifiers stay unique keys
pub run-Unique :
    (env : Env) (request : Request) (db : Db)
    → Unique (λ r. r.uuid) db.emergency_access
    → find_ea env.fresh_uuid db.emergency_access ≡ none
    → Unique (λ r. r.uuid) (run env request db).emergency_access
run-Unique env request db u f = (run-Moves env request 0 db u f).unique u
