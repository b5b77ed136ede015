-- ===== src/Server/Organization/Rights.antt =====
-- What an administrator who is no owner cannot do.
pub mod Handlers
use nad_safe_password_manage.Prelude.{
  pos, negsuc, ltb_ℤ, ℕ, ◌≡◌, refl, sym, ap, ◌∙◌, Bool, true, false, not, ◌&&◌, ◌||◌, Option, none,
  some, List, ◌==◌, ==→eq, ==_refl, arith, Bool-cases, inl, inr,
}
use nad_safe_password_manage.Server.Handler.{
  gets, some_or, write, require, when, for_each, bulk, ◌>>=◌, ◌>>◌,
}
use nad_safe_password_manage.Server.Handler.Ends.{
  Ends, after_require, after_some_or, after_gets, after_write, after_step, after_then, last_write,
  in_bulk,
}
use nad_safe_password_manage.Server.Table.{check, find-check, find-put, find-remove, put, remove}
use nad_safe_password_manage.Server.EmergencyAccess.Model.{
  MembershipType, owner, admin, user, manager,
}
use nad_safe_password_manage.Server.Organization.Roles.{
  Membership, has_type, type_code, type_eq, type_ge, at_least, restore, revoke,
}
use nad_safe_password_manage.Server.Organization.Model.{Db, Env, M, find_membership, save, delete}
use nad_safe_password_manage.Server.Organization.Members.{
  AdminHeaders, EditUserData, edit_member, delete_member_impl, revoke_member_impl,
  restore_member_impl, bulk_delete_member, bulk_revoke_members, bulk_restore_members,
}
use nad_safe_password_manage.Server.Organization.Invitations.{mail_confirmed, confirm_invite_impl}
use nad_safe_password_manage.Server.Organization.Sound.{Quiet, Quiet-refl, Quiet-trans, left_groups}
use nad_safe_password_manage.Server.Organization.Silent.{
  Silent, when-Silent, keep_an_owner-Silent, check_user_allowed-Silent,
}
use nad_safe_password_manage.Server.Organization.Owners.Edit.{between}
use nad_safe_password_manage.Server.Organization.Owners.Invite.{mail_confirmed-Silent}

-- The rows of owners, of whatever organization and status, are the same.
pub record SameOwners (a b : Db) : Type 0 where
  pub kept :
      (id : ℕ) (m : Membership)
      → has_type owner m ≡ true
      → find_membership id a.memberships ≡ some m
      → find_membership id b.memberships ≡ some m
  pub made :
      (id : ℕ) (m : Membership)
      → has_type owner m ≡ true
      → find_membership id b.memberships ≡ some m
      → find_membership id a.memberships ≡ some m

pub SameOwners-refl : (a : Db) → SameOwners a a
SameOwners-refl a = record { kept = λ id m own e. e; made = λ id m own e. e }

pub SameOwners-trans : {a b c : Db} → SameOwners a b → SameOwners b c → SameOwners a c
SameOwners-trans p q = record {
  kept = λ id m own e. q.kept id m own (p.kept id m own e);
  made = λ id m own e. p.made id m own (q.made id m own e);
}

pub SameOwners-Quiet : {a b : Db} → Quiet a b → SameOwners a b
SameOwners-Quiet q = record {
  kept = λ id m own e. ap (find_membership id) q.same ∙ e;
  made = λ id m own e. sym (ap (find_membership id) q.same) ∙ e;
}

-- rows found by one identifier alone may differ, and are no owner's
differing :
    {a b : Db} (id : ℕ)
    → ((j : ℕ)
        → (id == j) ≡ false
        → find_membership j b.memberships ≡ find_membership j a.memberships)
    → ((m : Membership) → find_membership id a.memberships ≡ some m → has_type owner m ≡ false)
    → ((m : Membership) → find_membership id b.memberships ≡ some m → has_type owner m ≡ false)
    → SameOwners a b
differing {a} {b} id others before after = record {
  kept = λ j m own e. elim (Bool-cases (id == j)) [
    | inl same ↦
        let at_id = ap (λ n. find_membership n a.memberships) (==→eq id j same) ∙ e in
        let clash : true ≡ false = sym own ∙ before m at_id in cc
    | inr other ↦ others j other ∙ e
  ];
  made = λ j m own e. elim (Bool-cases (id == j)) [
    | inl same ↦
        let at_id = ap (λ n. find_membership n b.memberships) (==→eq id j same) ∙ e in
        let clash : true ≡ false = sym own ∙ after m at_id in cc
    | inr other ↦ sym (others j other) ∙ e
  ];
}

is_that :
    {o : Option Membership} {m x : Membership}
    → o ≡ some m
    → has_type owner m ≡ false
    → o ≡ some x
    → has_type owner x ≡ false
is_that {o} {m} {x} e non e' = let same : m ≡ x = cc in sym (ap (has_type owner) same) ∙ non

pub revoke_same : (m : Membership) → ((revoke m).0.uuid ≡ m.uuid) × ((revoke m).0.atype ≡ m.atype)
unfolding revoke
revoke_same m = elim (Bool-cases (ltb_ℤ (negsuc 0) m.status)) [
  | inl active ↦ rw active (refl, refl)
  | inr inactive ↦ rw inactive (refl, refl)
]

pub restore_same :
    (m : Membership) → ((restore m).0.uuid ≡ m.uuid) × ((restore m).0.atype ≡ m.atype)
unfolding restore
restore_same m = elim (Bool-cases (ltb_ℤ m.status (pos 0))) [
  | inl inactive ↦ rw inactive (refl, refl)
  | inr active ↦ rw active (refl, refl)
]

absurd_row : {m : Membership} {A : Type 0} → none ≡ some m → A
absurd_row e = cc

pub saved :
    (env : Env) (m m' : Membership) (d : Db)
    → find_membership m.uuid d.memberships ≡ some m
    → m'.uuid ≡ m.uuid
    → has_type owner m ≡ false
    → has_type owner m' ≡ false
    → SameOwners d (save env m' d)
unfolding save
saved env m m' d found same non non' =
    differing m'.uuid (λ j other. find-put (λ x. x.uuid) j m' d.memberships ∙ rw other refl)
      (λ x e. is_that found non (sym (ap (λ i. find_membership i d.memberships) same) ∙ e))
      (λ x e. is_that {m = m'} there non' e)
  where
    there : find_membership m'.uuid (put (λ x. x.uuid) m' d.memberships) ≡ some m'
    there = find-put (λ x. x.uuid) m'.uuid m' d.memberships ∙ rw (==_refl m'.uuid) refl

pub deleted :
    (env : Env) (m : Membership) (d : Db)
    → find_membership m.uuid d.memberships ≡ some m
    → has_type owner m ≡ false
    → SameOwners d (delete env m d)
unfolding delete remove
deleted env m d found non =
    let at = (left_groups env m d).same in
    differing m.uuid
      (λ j other. find-remove (λ x. x.uuid) j m.uuid _ ∙ rw other (ap (find_membership j) at))
      (λ x e. is_that found non e)
      (λ x e.
        absurd_row (sym (find-remove (λ x. x.uuid) m.uuid m.uuid _ ∙ rw (==_refl m.uuid) refl) ∙ e))
