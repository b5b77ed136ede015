-- ===== src/Server/Organization/Revocation.antt =====
-- server/src/db/models/organization.rs: revoking and restoring a membership.
use nad_safe_password_manage.Prelude.{
  ◌≡◌, refl, ap, Bool, true, false, arith, ℤ, pos, negsuc, ◌+ℤ◌, ◌-ℤ◌, ltb_ℤ, &&-true,
}
use nad_safe_password_manage.Server.EmergencyAccess.Model.{is_some}
use nad_safe_password_manage.Server.Organization.Roles.{
  Membership, restore, revoke, get_unrevoked_status, activate_revoke_diff, type_from_i32,
}
use nad_safe_password_manage.Server.Organization.Sound.{is_valid, is_valid_status}

down_and_up :
    (s : ℤ)
    → is_valid_status s ≡ true
    → ltb_ℤ (negsuc 0) s ≡ true
    → (ltb_ℤ (s -ℤ activate_revoke_diff) (pos 0) ≡ true)
      × (ltb_ℤ (negsuc 0) (s -ℤ activate_revoke_diff) ≡ false)
      × (s -ℤ activate_revoke_diff +ℤ activate_revoke_diff ≡ s)
down_and_up (pos n) v h = ground arith
down_and_up (negsuc n) v h = ground arith

up_and_down :
    (s : ℤ)
    → is_valid_status s ≡ true
    → ltb_ℤ s (pos 0) ≡ true
    → (ltb_ℤ (negsuc 0) (s +ℤ activate_revoke_diff) ≡ true)
      × (s +ℤ activate_revoke_diff -ℤ activate_revoke_diff ≡ s)
up_and_down (pos n) v h = ground arith
up_and_down (negsuc n) v h = ground arith

-- A membership with a known type and status that is not revoked is changed by revoking; restoring
-- then answers the row as it was, and in between its unrevoked status is read as what it was.
pub restore-revoke :
    (m : Membership)
    → is_valid m ≡ true
    → ltb_ℤ (negsuc 0) m.status ≡ true
    → ((revoke m).1 ≡ true)
      × (restore (revoke m).0 ≡ (m, true))
      × (get_unrevoked_status (revoke m).0 ≡ m.status)
unfolding revoke restore get_unrevoked_status
restore-revoke m v active =
    let (s, _) = &&-true (is_valid_status m.status) (is_some (type_from_i32 m.atype)) v in
    let (neg, not_pos, back) = down_and_up m.status s active in
    rw (active, neg, not_pos)
      (refl, ap {B = Membership × Bool} (λ x. (record m { status = x }, true)) back, back)

-- A membership with a known type and status that is revoked is changed by restoring, and revoking
-- it again answers the row as it was.
pub revoke-restore :
    (m : Membership)
    → is_valid m ≡ true
    → ltb_ℤ m.status (pos 0) ≡ true
    → ((restore m).1 ≡ true) × (revoke (restore m).0 ≡ (m, true))
unfolding revoke restore
revoke-restore m v inactive =
    let (s, _) = &&-true (is_valid_status m.status) (is_some (type_from_i32 m.atype)) v in
    let (positive, back) = up_and_down m.status s inactive in
    rw (inactive, positive)
      (refl, ap {B = Membership × Bool} (λ x. (record m { status = x }, true)) back)
