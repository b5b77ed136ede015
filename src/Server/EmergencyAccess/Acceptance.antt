-- ===== src/Server/EmergencyAccess/Acceptance.antt =====
-- What it takes to accept an invitation, in server/src/api/core/emergency_access.rs.
mod Tests
use nad_safe_password_manage.Prelude.{
  ℕ, ◌≡◌, refl, sym, ap, ◌∙◌, Bool, true, false, Option, none, some, ok, arith, ◌==◌, ==_iff,
  &&-true, ◌&&◌,
}
use nad_safe_password_manage.Server.Handler.{
  gets-ok, some_or-ok, require-ok, write-ok, then-ok, last_write-ok, when, pure,
}
use nad_safe_password_manage.Server.Table.{check-some, key-find}
use nad_safe_password_manage.Server.EmergencyAccess.Model.{
  EmergencyAccess, accepted, InviteMail, Mail, User, Db, Env, find_ea, find_user, find_by_mail,
  opt_eq, accept_invite, save, send,
}
use nad_safe_password_manage.Server.EmergencyAccess.Invite.{
  accept_emergency_invite, take_invitation,
}
use nad_safe_password_manage.Server.EmergencyAccess.Lifecycle.Rules.{opt_eq-some}
use nad_safe_password_manage.Server.EmergencyAccess.Lifecycle.Contacts.{find_saved}

abbrev pub accepted_by : Env → User → EmergencyAccess → EmergencyAccess
accepted_by env contact r = record r {
  status = accepted;
  grantee_uuid = some contact.uuid;
  email = none;
  updated_at = env.now;
}

mail-quiet :
    (env : Env) (test : Bool) (mail : Mail) (db : Db) {db' : Db}
    → when test (send env mail) db ≡ (ok tt, db')
    → db'.emergency_access ≡ db.emergency_access
unfolding when pure
mail-quiet env false mail db h = ap (λ p. p.1.emergency_access) (sym h)
mail-quiet env true mail db h = ap (λ p. p.1.emergency_access) (sym h) ∙ ground arith

stored :
    (env : Env) (r : EmergencyAccess) (contact email : ℕ) (db : Db) {db' : Db}
    → accept_invite env r contact email db ≡ (ok tt, db')
    → save env (record r { status = accepted; grantee_uuid = some contact; email = none }) db ≡ db'
unfolding accept_invite
stored env r contact email db h =
    let (matches, h1) = require-ok _ _ _ h in
    let (fresh, h2) = require-ok _ _ _ h1 in last_write-ok _ h2

-- An invitation is accepted only with a valid token for this access and for the address of the
-- requesting user, whom the access still invites by this address; and then the access names the
-- account of this address as its contact.
pub accepted_genuine :
    (env : Env) (user : User) (id : ℕ) (token : Option InviteMail) (db db' : Db)
    → accept_emergency_invite env user id token db ≡ (ok tt, db')
    → (claims : InviteMail) × (contact : User) × (r : EmergencyAccess) × (token ≡ some claims)
      × (claims.address ≡ user.email)
      × (claims.emer_id ≡ id)
      × (find_by_mail env claims.address db ≡ some contact)
      × (find_ea id db.emergency_access ≡ some r)
      × (r.email ≡ some user.email)
      × (find_ea id db'.emergency_access ≡ some (accepted_by env contact r))
unfolding accept_emergency_invite take_invitation
accepted_genuine env user id token db db' h =
    let (enabled, h1) = require-ok _ _ _ h in
    let (claims, decoded, h2) = some_or-ok _ _ _ h1 in
    let (addressed, h3) = require-ok _ _ _ h2 in
    let (contact, known, h4) = some_or-ok _ _ _ (gets-ok _ _ h3) in
    let (r, found, h5) = some_or-ok _ _ _ (gets-ok _ _ (write-ok _ _ h4)) in
    let (grantor, owner, h6) = some_or-ok _ _ _ (gets-ok _ _ h5) in
    let (genuine, h7) = require-ok _ _ _ h6 in
    let (passed, h8) = then-ok _ _ _ h7 in
    let (is_row, named) =
      check-some (λ x. opt_eq x.email user.email) (find_ea id db.emergency_access) r found in
    let saved = stored env r contact.uuid contact.email _ passed in
    let same_id = key-find (λ x. x.uuid) id db.emergency_access is_row in
    let same_name = id == claims.emer_id && grantor.name == claims.grantor_name in
    let named_here = (&&-true same_name (grantor.email == claims.grantor_email) genuine).0 in
    let this =
      (&&-true (id == claims.emer_id) (grantor.name == claims.grantor_name) named_here).0 in
    let r' : EmergencyAccess = record r {
      status = accepted;
      grantee_uuid = some contact.uuid;
      email = none;
    } in
    let db1 = take_invitation env claims.address db in
    let row_is : find_ea id (save env r' db1).emergency_access ≡ some (accepted_by env contact r) =
      ap (λ n. find_ea n (save env r' db1).emergency_access) (sym same_id)
      ∙ find_saved env r' db1 in
    (
      claims,
      contact,
      r,
      decoded,
      (==_iff claims.address user.email).0 addressed,
      sym ((==_iff id claims.emer_id).0 this),
      known,
      is_row,
      opt_eq-some r.email user.email named,
      ap (find_ea id) (mail-quiet env env.mail_enabled _ _ h8)
          ∙ ap (λ d. find_ea id d.emergency_access) (sym saved)
          ∙ row_is,
    )
