-- ===== src/Server/EmergencyAccess/Tests.antt =====
-- Examples for emergency access: one approved takeover, one recovery under way.
use nad_safe_password_manage.Prelude.{
  ℕ, ◌+◌, ◌^◌, ◌≡◌, refl, true, false, Option, none, some, [], ◌∷◌, arith, inr, ◌==◌, ok,
}
use nad_safe_password_manage.Server.Handler.{pure, gets, some_or, write, require, when, ◌>>=◌, ◌>>◌}
use nad_safe_password_manage.Server.Table.{find, put, modify, Unique}
use nad_safe_password_manage.Server.EmergencyAccess.Model.{
  EmergencyAccess, EmergencyAccessType, view, takeover, EmergencyAccessStatus, accepted, confirmed,
  recovery_initiated, recovery_approved, days, User, owner, admin, Db, Env, find_ea, find_user,
  find_owned_by_user, is_some, save, find_all_recoveries_initiated, find_by_mail,
  find_by_grantor_uuid_and_grantee_uuid_or_email, accept_invite,
}
use nad_safe_password_manage.Server.EmergencyAccess.Invite.{
  send_invite, find_or_create_grantee, confirm_emergency_access,
}
use nad_safe_password_manage.Server.EmergencyAccess.Recovery.{
  ciphers_json, is_valid_request, view_emergency_access, takeover_emergency_access, set_password,
  rotate_refresh_tokens, save_user, drop_factors_and_memberships, password_emergency_access,
  approve_emergency_access, initiate_emergency_access,
}
use nad_safe_password_manage.Server.EmergencyAccess.Jobs.{
  has_deadline, is_timed_out, approve_timed_out, update_access_status_and_save,
  emergency_request_timeout_job,
}
use nad_safe_password_manage.Server.EmergencyAccess.Lifecycle.{Changes}
use nad_safe_password_manage.Server.EmergencyAccess.Lifecycle.Rules.{row}
use nad_safe_password_manage.Server.EmergencyAccess.Lifecycle.Steps.{
  Request, timeout_job, send_one, confirm, initiate, approve, actor, run, run-Changes,
}
use nad_safe_password_manage.Server.EmergencyAccess.Lifecycle.Safety.{Reason, approval_justified}
use nad_safe_password_manage.Server.EmergencyAccess.Lifecycle.Invariant.{
  Valid, run-Valid, Reaches, here, next, approved_complete,
}
use nad_safe_password_manage.Server.EmergencyAccess.Vault.{IsVault}
use nad_safe_password_manage.Server.EmergencyAccess.Access.{
  Granted, IsTakenOver, taken_over, view-Granted, takeover-Granted, password-IsTakenOver,
}

abbrev pub env : Env
env = record {
  emergency_access_allowed = true;
  invitations_allowed = true;
  mail_enabled = false;
  is_email_domain_allowed = λ m. true;
  is_valid_email = λ m. true;
  to_lowercase = λ m. m;
  now = 1000000;
  mail_accepted = true;
  fresh_uuid = 77;
  fresh_user_uuid = 78;
  fresh_stamp = 5;
  hash_password = λ hash id. hash + id;
  cipher_json = λ c id. some (c.uuid + id);
  latest_date = 10 ^ 12;
  earliest_date = 10 ^ 12;
}

abbrev pub account : ℕ → User
account id = record {
  uuid = id;
  email = 100 + id;
  name = 200 + id;
  password_hash = some 1;
  akey = 3;
  security_stamp = 4;
  kdf = 6;
  updated_at = 0;
}

abbrev access : ℕ → EmergencyAccessType → EmergencyAccessStatus → EmergencyAccess
access id t s = record {
  uuid = id;
  grantor_uuid = 1;
  grantee_uuid = some 2;
  email = none;
  key_encrypted = some 9;
  atype = t;
  status = s;
  wait_time_days = days 1;
  recovery_initiated_at = some 900000;
  last_notification_at = none;
  updated_at = 0;
  created_at = 0;
}

abbrev pub db : Db
db = record {
  emergency_access =
      access 10 takeover recovery_approved
      ∷ access 11 view recovery_initiated
      ∷ access 12 view recovery_approved
      ∷ [];
  users = account 1 ∷ account 2 ∷ [];
  invitations = [];
  memberships =
      record { uuid = 20; user_uuid = 1; atype = owner }
      ∷ record { uuid = 21; user_uuid = 1; atype = admin }
      ∷ [];
  twofactors = 1 ∷ 2 ∷ [];
  ciphers =
      record { uuid = 30; user_uuid = some 1; organization_uuid = none }
      ∷ record { uuid = 31; user_uuid = some 1; organization_uuid = some 7 }
      ∷ record { uuid = 32; user_uuid = some 2; organization_uuid = none }
      ∷ [];
  token_generation = λ id. 0;
  outbox = [];
}

unique : Unique (λ r. r.uuid) db.emergency_access
unfolding Unique find
unique = (refl, (refl, (refl, tt)))

free : find_ea env.fresh_uuid db.emergency_access ≡ none
unfolding find
free = refl

run-Changes_example : Changes env (actor timeout_job) (row 11 db) (row 11 (run env timeout_job db))
run-Changes_example = run-Changes env timeout_job 11 db unique free

timed_out_row :
    row 11 (run env timeout_job db)
    ≡ some (record (access 11 view recovery_approved) { updated_at = 1000000 })
unfolding find run pure gets some_or write require when ◌>>=◌ ◌>>◌ emergency_request_timeout_job
    approve_timed_out has_deadline is_timed_out update_access_status_and_save
    find_all_recoveries_initiated modify
timed_out_row = refl

approval_justified_example :
    Reason env
      (actor timeout_job)
      (row 11 db)
      (record (access 11 view recovery_approved) { updated_at = 1000000 })
approval_justified_example =
    approval_justified env timeout_job 11 db
      (record (access 11 view recovery_approved) { updated_at = 1000000 }) unique free timed_out_row
      refl

initiated-IsValid : Valid (row 11 db)
unfolding find
initiated-IsValid = record {
  known_by = inr (omega arith, refl, refl);
  keyed = λ late. refl;
  started = λ late. refl;
}

run-Valid_example : Valid (row 11 (run env timeout_job db))
run-Valid_example = run-Valid env timeout_job 11 db unique free initiated-IsValid

view_lem : view_emergency_access env (account 2) 12 db ≡ (ok (31 ∷ [], some 9), db)
unfolding find view_emergency_access ciphers_json is_valid_request pure gets some_or require ◌>>=◌
    ◌>>◌
view_lem = refl

view-Granted_example :
    (r : EmergencyAccess) × Granted (account 2) 12 db view r
    × IsVault env r.grantor_uuid (find_owned_by_user r.grantor_uuid db) (31 ∷ [])
    × (some 9 ≡ r.key_encrypted)
    × (db ≡ db)
view-Granted_example = view-Granted env (account 2) 12 db db (31 ∷ []) (some 9) view_lem

takeover_lem : takeover_emergency_access env (account 2) 10 db ≡ (ok (6, some 9), db)
unfolding find takeover_emergency_access is_valid_request pure gets some_or require ◌>>=◌ ◌>>◌
takeover_lem = refl

takeover-Granted_example :
    (r : EmergencyAccess) × (o : User) × Granted (account 2) 10 db takeover r
    × (find_user r.grantor_uuid db ≡ some o)
    × (6 ≡ o.kdf)
    × (some 9 ≡ r.key_encrypted)
    × (db ≡ db)
takeover-Granted_example = takeover-Granted env (account 2) 10 db db 6 (some 9) takeover_lem

abbrev after : Db
after =
    drop_factors_and_memberships 1
      (save_user (taken_over env 50 60 (account 1)) (rotate_refresh_tokens 1 db))

password_lem : password_emergency_access env (account 2) 10 50 60 db ≡ (ok tt, after)
unfolding find password_emergency_access set_password is_valid_request pure gets some_or require
    write ◌>>=◌ ◌>>◌
password_lem = refl

password-IsTakenOver_example :
    (r : EmergencyAccess) × (o : User) × Granted (account 2) 10 db takeover r
    × (find_user r.grantor_uuid db ≡ some o)
    × IsTakenOver env 50 60 o db after
password-IsTakenOver_example = password-IsTakenOver env (account 2) 10 db after 50 60 password_lem

abbrev empty : Db
empty = record db { emergency_access = [] }

-- invited and, without mail, accepted at once; then confirmed, initiated and approved
abbrev made : EmergencyAccessStatus → Option ℕ → Option ℕ → EmergencyAccess
made s key at = record {
  uuid = 77;
  grantor_uuid = 1;
  grantee_uuid = some 2;
  email = none;
  key_encrypted = key;
  atype = takeover;
  status = s;
  wait_time_days = days 1;
  recovery_initiated_at = at;
  last_notification_at = at;
  updated_at = 1000000;
  created_at = 1000000;
}

-- the database with one row, and the owner's account touched
abbrev holding : EmergencyAccess → Db
holding r = record db {
  emergency_access = r ∷ [];
  users = record (account 1) { updated_at = 1000000 } ∷ account 2 ∷ [];
}

abbrev later : Env
later = record env { fresh_uuid = 79 }

sent_lem :
    run env (send_one (account 1) 102 (some takeover) (days 1)) empty
    ≡ holding (made accepted none none)
unfolding run send_invite find_or_create_grantee find_by_mail
    find_by_grantor_uuid_and_grantee_uuid_or_email accept_invite save find put modify pure gets
    some_or write require when ◌>>=◌ ◌>>◌
sent_lem = refl

confirmed_lem :
    run later (confirm (account 1) 77 9) (holding (made accepted none none))
    ≡ holding (made confirmed (some 9) none)
unfolding run confirm_emergency_access save find put modify pure gets some_or write require when
    ◌>>=◌ ◌>>◌
confirmed_lem = refl

initiated_lem :
    run later (initiate (account 2) 77) (holding (made confirmed (some 9) none))
    ≡ holding (made recovery_initiated (some 9) (some 1000000))
unfolding run initiate_emergency_access save find put modify pure gets some_or write require when
    ◌>>=◌ ◌>>◌
initiated_lem = refl

approved_lem :
    run later (approve (account 1) 77) (holding (made recovery_initiated (some 9) (some 1000000)))
    ≡ holding (made recovery_approved (some 9) (some 1000000))
unfolding run approve_emergency_access save find put modify pure gets some_or write require when
    ◌>>=◌ ◌>>◌
approved_lem = refl

step :
    (request : Request) (r r' : EmergencyAccess)
    → (r.uuid == 79) ≡ false
    → run later request (holding r) ≡ holding r'
    → Reaches empty (holding r)
    → Reaches empty (holding r')
unfolding find
step request r r' other e path = rw e at (next later request path (rw other))

sent : Reaches empty (holding (made accepted none none))
unfolding Unique find
sent =
    let invitation = send_one (account 1) 102 (some takeover) (days 1) in
    let reached : Reaches empty (run env invitation empty) = next env invitation here refl in
    rw sent_lem at reached

path : Reaches empty (holding (made recovery_approved (some 9) (some 1000000)))
path =
    step _ _ _ refl approved_lem
      (step _ _ _ refl initiated_lem (step _ _ _ refl confirmed_lem sent))

row-made :
    row 77 (holding (made recovery_approved (some 9) (some 1000000)))
    ≡ some (made recovery_approved (some 9) (some 1000000))
unfolding find
row-made = refl

none_twice : Unique (λ r. r.uuid) empty.emergency_access
unfolding Unique
none_twice = tt

absent : row 77 empty ≡ none
unfolding find
absent = refl

approved_complete_example :
    let r = made recovery_approved (some 9) (some 1000000) in
    (is_some r.grantee_uuid ≡ true)
    × (is_some r.key_encrypted ≡ true)
    × (is_some r.recovery_initiated_at ≡ true)
approved_complete_example =
    approved_complete 77 empty (holding (made recovery_approved (some 9) (some 1000000)))
      (made recovery_approved (some 9) (some 1000000)) none_twice path absent row-made refl
