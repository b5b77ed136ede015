-- ===== src/Server/Organization/Owners.antt =====
-- The handlers of Members keep the invariant: an organization keeps a confirmed owner, and the
-- memberships their codes.
pub mod Edit
pub mod Invite
pub mod Send
pub mod Policies
use nad_safe_password_manage.Prelude.{
  ℕ, suc, ◌+◌, ◌≤◌, ◌≡◌, refl, sym, ap, ◌∙◌, Bool, true, false, not, ◌&&◌, ◌||◌, Option, none, some,
  ◌==◌, ==→eq, &&-true, leb, ltb, if◌then◌else◌, arith, Bool-cases, inl, inr, ℤ, pos, negsuc, ◌+ℤ◌,
  ◌-ℤ◌, ltb_ℤ, ◌==ℤ◌, count_if,
}
use nad_safe_password_manage.Server.Handler.{
  gets, some_or, write, require, when, for_each, ◌>>=◌, ◌>>◌,
}
use nad_safe_password_manage.Server.Handler.Ends.{
  Ends, after_require, after_some_or, after_gets, after_write, after_step, after_then, last_write,
}
use nad_safe_password_manage.Server.Table.{find, find-check, find-first, check}
use nad_safe_password_manage.Server.Table.Count.{bit, every-find}
use nad_safe_password_manage.Server.EmergencyAccess.Model.{
  is_some, MembershipType, owner, admin, user,
}
use nad_safe_password_manage.Server.Organization.Roles.{
  Membership, revoked, invited, accepted, confirmed, status_code, type_code, type_from_i32,
  has_status, has_type, restore, revoke, from_str, type_eq, activate_revoke_diff,
}
use nad_safe_password_manage.Server.Organization.Model.{
  Db, Env, Error, M, find_membership, find_by_uuid_and_org, is_confirmed, last_owner, save, delete,
  count_confirmed_by_org_and_type, delete_collections_of,
}
use nad_safe_password_manage.Server.Organization.Members.{
  AdminHeaders, EditUserData, keep_an_owner, is_last_owner, leave_organization, edit_member,
  delete_member_impl, revoke_member_impl, restore_member_impl,
}
use nad_safe_password_manage.Server.Organization.Sound.{
  Sound, Sound-save, Sound-delete, Sound-Quiet, Quiet, Quiet-refl, kept, delete_groups_of-Quiet,
  is_valid, is_valid_status, owns,
}
use nad_safe_password_manage.Server.Organization.Silent.{
  Silent, when-Silent, for_each-Silent, write-Silent, check_user_allowed-Silent,
  add_collection-Silent, add_group-Silent,
}

revoked_valid :
    (s : ℤ)
    → is_valid_status s ≡ true
    → ltb_ℤ (negsuc 0) s ≡ true
    → is_valid_status (s -ℤ activate_revoke_diff) ≡ true
revoked_valid (pos n) v h = ground arith
revoked_valid (negsuc n) v h = ground arith

restored_valid :
    (s : ℤ)
    → is_valid_status s ≡ true
    → ltb_ℤ s (pos 0) ≡ true
    → is_valid_status (s +ℤ activate_revoke_diff) ≡ true
restored_valid (pos n) v h = ground arith
restored_valid (negsuc n) v h = ground arith

pub revoke-is_valid :
    (m : Membership)
    → is_valid m ≡ true
    → (is_valid (revoke m).0 ≡ true) × ((revoke m).0.uuid ≡ m.uuid)
unfolding revoke
revoke-is_valid m v =
    let (s, t) = &&-true (is_valid_status m.status) (is_some (type_from_i32 m.atype)) v in
    elim (Bool-cases (ltb_ℤ (negsuc 0) m.status)) [
      | inl active ↦ rw active (rw (revoked_valid m.status s active) t, refl)
      | inr inactive ↦ rw inactive (v, refl)
    ]

pub restore-is_valid :
    (m : Membership)
    → is_valid m ≡ true
    → (is_valid (restore m).0 ≡ true) × ((restore m).0.uuid ≡ m.uuid)
unfolding restore
restore-is_valid m v =
    let (s, t) = &&-true (is_valid_status m.status) (is_some (type_from_i32 m.atype)) v in
    elim (Bool-cases (ltb_ℤ m.status (pos 0))) [
      | inl inactive ↦ rw inactive (rw (restored_valid m.status s inactive) t, refl)
      | inr active ↦ rw active (v, refl)
    ]

module _ {o : ℕ} {db : Db} (s : Sound o db) where
  pub after_keep_an_owner :
      {A : Type 0} (test : Bool) (org_id : ℕ) (k : M A)
      → ((test ≡ true → 2 ≤ count_confirmed_by_org_and_type org_id owner db) → Ends (Sound o) k db)
      → Ends (Sound o) (keep_an_owner test org_id >> k) db
  unfolding keep_an_owner ◌>>=◌ ◌>>◌ gets
  after_keep_an_owner test org_id k h = record {
    holds =
        (after_require (not (test && is_last_owner org_id db)) last_owner k db s
          (λ two. h (λ is. ground arith))).holds;
  }

  pub quietly :
      {A B : Type 0} {m : M A} (k : A → M B)
      → Silent m
      → ((a : A) (d : Db) → Quiet db d → Ends (Sound o) (k a) d)
      → Ends (Sound o) (m >>= k) db
  quietly {A} {B} {m} k silent h =
      after_step (Quiet db) m k db (silent db db (Quiet-refl db)) (λ d q. Sound-Quiet q s) h

  pub quietly_then :
      {A : Type 0} {m : M (Unit {0})} (k : M A)
      → Silent m
      → ((d : Db) → Quiet db d → Ends (Sound o) k d)
      → Ends (Sound o) (m >> k) db
  quietly_then {A} {m} k silent h =
      after_then (Quiet db) m k db (silent db db (Quiet-refl db)) (λ d q. Sound-Quiet q s) h

  -- the organization has another owner, if the row is one of its confirmed owners
  pub enough :
      (m : Membership) (org_id : ℕ)
      → (m.org_uuid == org_id) ≡ true
      → ((has_type owner m && has_status confirmed m) ≡ true
          → 2 ≤ count_confirmed_by_org_and_type org_id owner db)
      → 1 + owns o m ≤ count_confirmed_by_org_and_type o owner db
  enough m org_id same two = elim (Bool-cases (is_confirmed o owner m)) [
    | inl is ↦
        let here : (m.org_uuid ≡ o) × ((has_type owner m && has_status confirmed m) ≡ true) =
          ground arith in
        let org_is : org_id ≡ o = sym (==→eq m.org_uuid org_id same) ∙ here.0 in
        let more = ap (λ x. count_confirmed_by_org_and_type x owner db) org_is in
        rw is (omega (arith, two here.1, more))
    | inr fails ↦ rw fails s.owned
  ]

  -- a row that is not confirmed is no owner to lose
  pub enough_unconfirmed :
      (m m' : Membership)
      → has_status confirmed m ≡ false
      → 1 + owns o m ≤ count_confirmed_by_org_and_type o owner db + owns o m'
  enough_unconfirmed m m' h =
      let none_lost : is_confirmed o owner m ≡ false = ground arith in
      rw none_lost (omega (arith, s.owned))

module _ (env : Env) {o : ℕ} (db : Db) (s : Sound o db) where
  pub leave_organization-Sound :
      (org_id : ℕ) (m : Membership)
      → find_membership m.uuid db.memberships ≡ some m
      → (m.org_uuid == org_id) ≡ true
      → Ends (Sound o) (leave_organization env org_id m) db
  unfolding leave_organization
  leave_organization-Sound org_id m found org = after_require _ _ _ db s (λ is_member.
      after_keep_an_owner s (has_type owner m) org_id _ (λ two.
        last_write _ db
          (Sound-delete env m db s found (enough s m org_id org (λ both. two (ground arith))))))

  pub delete_member_impl-Sound :
      (h : AdminHeaders) (org_id member_id : ℕ)
      → Ends (Sound o) (delete_member_impl env h org_id member_id) db
  unfolding delete_member_impl
  delete_member_impl-Sound h org_id member_id = after_require _ _ _ db s (λ _. after_gets _ _ db (
      after_some_or _ _ _ db s (λ m e.
        let (found, org) =
          find-check (λ x. x.uuid) member_id (λ x. x.org_uuid == org_id) db.memberships m e in
        after_require _ _ _ db s (λ _.
          after_keep_an_owner s (has_type owner m && has_status confirmed m) org_id _
            (λ two. last_write _ db (Sound-delete env m db s found (enough s m org_id org two)))))))

  pub revoke_member_impl-Sound :
      (h : AdminHeaders) (org_id member_id : ℕ)
      → Ends (Sound o) (revoke_member_impl env h org_id member_id) db
  unfolding revoke_member_impl
  revoke_member_impl-Sound h org_id member_id = after_require _ _ _ db s (λ _. after_gets _ _ db (
      after_some_or _ _ _ db s (λ m e.
        let (found, org) =
          find-check (λ x. x.uuid) member_id (λ x. x.org_uuid == org_id) db.memberships m e in
        after_require _ _ _ db s (λ _. after_require _ _ _ db s (λ _. after_require _ _ _ db s (λ _.
          after_keep_an_owner s (has_type owner m) org_id _ (λ two.
            last_write _ db
              (revoked_row m found (enough s m org_id org (λ both. two (ground arith)))))))))))
    where
      revoked_row :
          (m : Membership)
          → find_membership m.uuid db.memberships ≡ some m
          → 1 + owns o m ≤ count_confirmed_by_org_and_type o owner db
          → Sound o (save env (revoke m).0 db)
      revoked_row m found more =
          let (ok, same) =
            revoke-is_valid m
              (every-find (λ x. x.uuid) is_valid m.uuid db.memberships s.valid found) in
          Sound-save env m (revoke m).0 db s
            (ap (λ i. find_membership i db.memberships) same ∙ found) ok (omega (arith, more))

  pub restore_member_impl-Sound :
      (h : AdminHeaders) (org_id member_id : ℕ)
      → Ends (Sound o) (restore_member_impl env h org_id member_id) db
  unfolding restore_member_impl
  restore_member_impl-Sound h org_id member_id = after_require _ _ _ db s (λ _. after_gets _ _ db (
      after_some_or _ _ _ db s (λ m e.
        let (found, org) =
          find-check (λ x. x.uuid) member_id (λ x. x.org_uuid == org_id) db.memberships m e in
        let (ok, same) =
          restore-is_valid m
            (every-find (λ x. x.uuid) is_valid m.uuid db.memberships s.valid found) in
        after_require _ _ _ db s (λ inactive. after_require _ _ _ db s (λ _.
          after_require _ _ _ db s (λ _.
            quietly_then s _ (check_user_allowed-Silent env (restore m).0) (λ d q.
              let s' = Sound-Quiet q s in
              last_write _ d (
                Sound-save env m (restore m).0 d s'
                  (rw q.same (ap (λ i. find_membership i db.memberships) same ∙ found)) ok
                  (enough_unconfirmed s' m (restore m).0 (not_confirmed m.status inactive))))))))))
    where
      not_confirmed : (x : ℤ) → ltb_ℤ x (pos 1) ≡ true → (x ==ℤ pos 2) ≡ false
      not_confirmed (pos n) h = ground arith
      not_confirmed (negsuc n) h = refl
