-- ===== src/Server/Organization/Admission.antt =====
-- What a member has met when a policy check or a confirmation succeeds.
use nad_safe_password_manage.Prelude.{
  List, err, ℕ, ◌≡◌, refl, sym, ap, ◌∙◌, Bool, true, false, not, ◌&&◌, ◌||◌, some, ok, ◌==◌,
  ==_refl, ltb_ℤ, arith, Bool-cases, inl, inr, exists, ◌∷◌, pos, if◌then◌else◌,
}
use nad_safe_password_manage.Server.Handler.{
  pure, fail, when, gets-ok, some_or-ok, require-ok, then-ok, last_write-ok, last_require-ok,
}
use nad_safe_password_manage.Server.Table.{find-put, key-find}
use nad_safe_password_manage.Server.EmergencyAccess.Model.{owner, admin, user}
use nad_safe_password_manage.Server.Organization.Roles.{
  Membership, invited, accepted, status_code, has_status, has_type, type_lt, type_eq,
}
use nad_safe_password_manage.Server.Organization.Model.{
  Db, Env, requires_2fa, mail_error, send, find_membership, find_by_uuid_and_org, save,
}
use nad_safe_password_manage.Server.Organization.Policy.{
  single_org, has_no_twofactor, is_applicable_to_user, is_in_other_org, lacks_2fa,
  find_and_activate_email_2fa, activate_email_2fa, enforce_policies, check_user_allowed,
}
use nad_safe_password_manage.Server.Organization.Members.{AdminHeaders}
use nad_safe_password_manage.Server.Organization.Invitations.{confirm_invite_impl, mail_confirmed}

abbrev pub is_subject_to_policies : Membership → Bool
is_subject_to_policies m = type_lt m.atype admin && ltb_ℤ (status_code invited) m.status

listed : (a id : ℕ) (rest : List ℕ) → a ≡ id → not (exists (λ x. x == id) (a ∷ rest)) ≡ false
listed a id rest same = ground arith

-- after the fallback the account has a second factor, and nothing else has changed
activated :
    (m : Membership) (db d : Db)
    → find_and_activate_email_2fa m.user_uuid db ≡ (ok tt, d)
    → (has_no_twofactor m.user_uuid d ≡ false) × (d ≡ record db { twofactors = d.twofactors })
unfolding find_and_activate_email_2fa activate_email_2fa
activated m db d h =
    let (u, is, h1) = some_or-ok _ _ _ (gets-ok _ _ h) in
    let (_, h2) = require-ok _ _ _ h1 in
    let same : u.uuid ≡ m.user_uuid = key-find (λ x. x.uuid) m.user_uuid db.users is in
    let written = last_write-ok _ h2 in
    (
      ap (has_no_twofactor m.user_uuid) (sym written)
          ∙ listed u.uuid m.user_uuid db.twofactors same,
      sym written ∙ ap (λ x. record db { twofactors = x.twofactors }) written,
    )

-- the step on the second factor
second_factor :
    (env : Env) (m : Membership) (db d : Db) (lacking : Bool)
    → lacks_2fa m db ≡ lacking
    → when lacking
        (if env.email_2fa_auto_fallback
          then find_and_activate_email_2fa m.user_uuid
          else fail requires_2fa)
        db
      ≡ (ok tt, d)
    → (lacks_2fa m d ≡ false) × (d ≡ record db { twofactors = d.twofactors })
unfolding when fail pure
second_factor env m db d false is h =
    let same = ap (λ p. p.1) h in
    (
      ap (lacks_2fa m) (sym same) ∙ is,
      sym same ∙ ap (λ x. record db { twofactors = x.twofactors }) same,
    )
second_factor env m db d true is h = elim (Bool-cases env.email_2fa_auto_fallback) [
  | inl on ↦ let (has, changed) = activated m db d (rw on at h) in (rw has (ground arith), changed)
  | inr off ↦
      let failed : (err requires_2fa, db) ≡ (ok tt, d) = rw off at h in cc (ap (λ p. p.0) failed)
]

untrue : (b : Bool) → not b ≡ true → b ≡ false
untrue b h = ground arith

-- Where the policies apply to a membership - its type is below an admin's, and its status above
-- Invited - and the check of them succeeds, then afterwards its account has a second factor if the
-- organization requires one; no other organization that its account is a confirmed member of below
-- admin, and that allows a single one, forbids it; if this organization allows a single one, the
-- account has accepted no other; and nothing but the second factors has changed.
pub check_user_allowed-ok :
    (env : Env) (m : Membership) (db db' : Db)
    → is_subject_to_policies m ≡ true
    → check_user_allowed env m db ≡ (ok tt, db')
    → (lacks_2fa m db' ≡ false)
      × (is_applicable_to_user m.user_uuid single_org (some m.org_uuid) db ≡ false)
      × (is_in_other_org m db ≡ false)
      × (db' ≡ record db { twofactors = db'.twofactors })
unfolding check_user_allowed enforce_policies when is_applicable_to_user
check_user_allowed-ok env m db db' subject h =
    let (first, h1) = then-ok _ _ db (gets-ok _ _ (rw subject at h)) in
    let (allowed, h2) = require-ok _ _ _ (gets-ok _ _ h1) in
    let (alone, same) = last_require-ok _ _ (gets-ok _ _ h2) in
    let (has, changed) = second_factor env m db _ _ refl first in
    (
      ap (lacks_2fa m) (sym same) ∙ has,
      sym (ap (is_applicable_to_user m.user_uuid single_org (some m.org_uuid)) changed)
          ∙ untrue _ allowed,
      sym (ap (is_in_other_org m) changed) ∙ untrue _ alone,
      sym same ∙ changed ∙ ap (λ x. record db { twofactors = x.twofactors }) same,
    )

mail_confirmed-ok :
    (env : Env) (org_id : ℕ) (m : Membership) (d d' : Db)
    → mail_confirmed env org_id m d ≡ (ok tt, d')
    → d' ≡ record d { outbox = d'.outbox }
unfolding mail_confirmed send
mail_confirmed-ok env org_id m d d' h =
    let (org, _, h1) = some_or-ok _ _ _ (gets-ok _ _ h) in
    let (u, _, h2) = some_or-ok _ _ _ (gets-ok _ _ h1) in
    elim (Bool-cases (env.mail_accepted u.email)) [
      | inl taken ↦
          let same = ap (λ p. p.1) (rw taken at h2) in
          sym same ∙ ap (λ x. record d { outbox = x.outbox }) same
      | inr refused ↦
          let failed : (err mail_error, d) ≡ (ok tt, d') = rw refused at h2 in
          cc (ap (λ p. p.0) failed)
    ]

abbrev pub confirmed_row : Membership → ℕ → Membership
confirmed_row m key = record m { status = pos 2; akey = key }

mailed_step :
    (env : Env) (org_id : ℕ) (m : Membership) (d d' : Db) (test : Bool)
    → when test (mail_confirmed env org_id m) d ≡ (ok tt, d')
    → d' ≡ record d { outbox = d'.outbox }
unfolding when pure
mailed_step env org_id m d d' true h = mail_confirmed-ok env org_id m d d' h
mailed_step env org_id m d d' false h =
    let same : d ≡ d' = ap (λ p. p.1) h in sym same ∙ ap (λ x. record d { outbox = x.outbox }) same

-- mails and the row itself do not bear on the second factor
second_factor_stays :
    (env : Env) (m m' : Membership) (d d' db' : Db)
    → d' ≡ record d { outbox = d'.outbox }
    → save env m' d' ≡ db'
    → lacks_2fa m db' ≡ lacks_2fa m d
unfolding save
second_factor_stays env m m' d d' db' mailed written =
    sym (ap (lacks_2fa m) written) ∙ ap (λ x. lacks_2fa m (save env m' x)) mailed

row-saved :
    (env : Env) (m' : Membership) (d db' : Db)
    → save env m' d ≡ db'
    → find_membership m'.uuid db'.memberships ≡ some m'
unfolding save
row-saved env m' d db' written =
    sym (ap (λ x. find_membership m'.uuid x.memberships) written)
    ∙ find-put (λ x. x.uuid) m'.uuid m' d.memberships
    ∙ rw (==_refl m'.uuid) refl

policies_met :
    (env : Env) (m : Membership) (key : ℕ) (db d : Db)
    → check_user_allowed env (confirmed_row m key) db ≡ (ok tt, d)
    → (not (type_lt m.atype admin)
        || (not (lacks_2fa m d)
            && not (is_applicable_to_user m.user_uuid single_org (some m.org_uuid) db)
            && not (is_in_other_org m db)))
      ≡ true
policies_met env m key db d h = elim (Bool-cases (type_lt m.atype admin)) [
  | inl below ↦
      let (has, allowed, alone, _) =
        check_user_allowed-ok env (confirmed_row m key) db d (rw below refl) h in
      rw (below, has, allowed, alone) refl
  | inr above ↦ rw above refl
]

-- A confirmation that succeeds is of a membership of the organization that was accepted, is asked
-- for by an owner unless the membership is a plain user's, and leaves the row confirmed with the
-- key. A member below admin then has a second factor if the organization requires one, and was
-- neither forbidden to join by another organization's policy nor in another one against this
-- one's.
pub confirm_invite_impl-ok :
    (env : Env) (h : AdminHeaders) (org_id member_id key : ℕ) (db db' : Db)
    → confirm_invite_impl env h org_id member_id key db ≡ (ok tt, db')
    → (m : Membership) × (find_by_uuid_and_org member_id org_id db ≡ some m)
      × (has_status accepted m ≡ true)
      × ((has_type user m || type_eq h.membership_type owner) ≡ true)
      × (find_membership m.uuid db'.memberships ≡ some (confirmed_row m key))
      × ((not (type_lt m.atype admin)
            || (not (lacks_2fa m db')
                && not (is_applicable_to_user m.user_uuid single_org (some m.org_uuid) db)
                && not (is_in_other_org m db)))
          ≡ true)
unfolding confirm_invite_impl
confirm_invite_impl-ok env h org_id member_id key db db' success =
    let (_, h1) = require-ok _ _ _ success in
    let (_, h2) = require-ok _ _ _ h1 in
    let (m, found, h3) = some_or-ok _ _ _ (gets-ok _ _ h2) in
    let (rights, h4) = require-ok _ _ _ h3 in
    let (was, h5) = require-ok _ _ _ h4 in
    let (checked, h6) = then-ok _ _ db h5 in
    let (mailed, h7) = then-ok _ _ _ h6 in
    let written = last_write-ok _ h7 in
    let m' = confirmed_row m key in
    let d1 : Db = (check_user_allowed env m' db).1 in
    let d2 : Db = (when env.mail_enabled (mail_confirmed env org_id m') d1).1 in
    let stays =
      second_factor_stays env m m' d1 d2 db'
        (mailed_step env org_id m' d1 d2 env.mail_enabled mailed) written in
    (
      m,
      found,
      was,
      ground arith,
      row-saved env m' d2 db' written,
      rw stays (policies_met env m key db d1 checked),
    )
