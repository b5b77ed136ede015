-- ===== src/Server/EmergencyAccess/Acceptance/Tests.antt =====
-- An example for the acceptance of an invitation.
use nad_safe_password_manage.Prelude.{◌≡◌, refl, none, some, [], ◌∷◌, ok}
use nad_safe_password_manage.Server.Handler.{pure, gets, some_or, write, require, when, ◌>>=◌, ◌>>◌}
use nad_safe_password_manage.Server.Table.{find}
use nad_safe_password_manage.Server.EmergencyAccess.Model.{
  EmergencyAccess, invited, view, days, InviteMail, User, Db, find_ea, find_by_mail, accept_invite,
}
use nad_safe_password_manage.Server.EmergencyAccess.Invite.{
  accept_emergency_invite, take_invitation,
}
use nad_safe_password_manage.Server.EmergencyAccess.Acceptance.{accepted_by, accepted_genuine}
use nad_safe_password_manage.Server.EmergencyAccess.Tests.{env, account, db}

abbrev invitation : EmergencyAccess
invitation = record {
  uuid = 30;
  grantor_uuid = 1;
  grantee_uuid = none;
  email = some 102;
  key_encrypted = none;
  atype = view;
  status = invited;
  wait_time_days = days 7;
  recovery_initiated_at = none;
  last_notification_at = none;
  updated_at = 0;
  created_at = 0;
}

abbrev token : InviteMail
token = record { address = 102; user_id = 2; emer_id = 30; grantor_name = 201; grantor_email = 101 }

abbrev start : Db
start = record db { emergency_access = invitation ∷ [] }

abbrev finish : Db
finish = (accept_emergency_invite env (account 2) 30 (some token) start).1

accept_lem : accept_emergency_invite env (account 2) 30 (some token) start ≡ (ok tt, finish)
unfolding accept_emergency_invite take_invitation accept_invite find_by_mail find pure gets some_or
    write require when ◌>>=◌ ◌>>◌
accept_lem = refl

accepted_genuine_example :
    (claims : InviteMail) × (contact : User) × (r : EmergencyAccess) × (some token ≡ some claims)
    × (claims.address ≡ (account 2).email)
    × (claims.emer_id ≡ 30)
    × (find_by_mail env claims.address start ≡ some contact)
    × (find_ea 30 start.emergency_access ≡ some r)
    × (r.email ≡ some (account 2).email)
    × (find_ea 30 finish.emergency_access ≡ some (accepted_by env contact r))
accepted_genuine_example = accepted_genuine env (account 2) 30 (some token) start finish accept_lem
