-- ===== src/Server/Organization/Owners/Invite.antt =====
-- The way of an invited member to a confirmed one keeps the invariant.
use nad_safe_password_manage.Prelude.{
  ℕ, ◌≡◌, refl, sym, ap, ◌∙◌, Bool, true, false, not, Option, some, ◌==◌, &&-true, arith,
  if◌then◌else◌, ◌==ℤ◌, ℤ, pos, negsuc,
}
use nad_safe_password_manage.Server.Handler.{gets, some_or, write, when, ◌>>=◌, ◌>>◌}
use nad_safe_password_manage.Server.Handler.Ends.{
  Ends, after_require, after_some_or, after_gets, after_write, last_write, in_either, in_when,
}
use nad_safe_password_manage.Server.Table.{find-check}
use nad_safe_password_manage.Server.Table.Count.{every-find}
use nad_safe_password_manage.Server.EmergencyAccess.Model.{is_some, or_else}
use nad_safe_password_manage.Server.Organization.Roles.{
  Membership, MembershipStatus, invited, accepted, confirmed, status_code, type_from_i32,
  has_status,
}
use nad_safe_password_manage.Server.Organization.Model.{
  User, Db, Env, M, invite, invite_accepted, invite_confirmed, take_invitation, save_invitation,
  find_membership, find_organization, not_found, save, send,
}
use nad_safe_password_manage.Server.Organization.Members.{AdminHeaders}
use nad_safe_password_manage.Server.Organization.Invitations.{
  InviteClaims, reinvite_member_impl, accept_org_invite, accept_as_member, accept_invite,
  mail_confirmed, confirm_invite_impl, unwrap_or,
}
use nad_safe_password_manage.Server.Organization.Sound.{
  Sound, Sound-save, Sound-Quiet, Quiet, Quiet-refl, Quiet-trans, is_valid, is_valid_status,
}
use nad_safe_password_manage.Server.Organization.Silent.{
  Silent, bind-Silent, gets-Silent, some_or-Silent, when-Silent, write-Silent, send-Silent,
  save_invitation-Silent, take_invitation-Quiet, check_user_allowed-Silent,
}
use nad_safe_password_manage.Server.Organization.Owners.{quietly_then, enough_unconfirmed}

pub mail_confirmed-Silent :
    (env : Env) (org_id : ℕ) (m : Membership) → Silent (mail_confirmed env org_id m)
unfolding mail_confirmed
mail_confirmed-Silent env org_id m = bind-Silent (gets-Silent _) (λ found.
    bind-Silent (some_or-Silent _ found) (λ org.
      bind-Silent (gets-Silent _)
        (λ known. bind-Silent (some_or-Silent _ known) (λ u. send-Silent env _))))

abbrev is_pending : MembershipStatus → Bool
is_pending confirmed = false
is_pending _ = true

one_status :
    (st : MembershipStatus) (x : ℤ)
    → is_pending st ≡ true
    → (x ==ℤ status_code st) ≡ true
    → (x ==ℤ status_code confirmed) ≡ false
one_status st (pos n) p h = ground arith
one_status st (negsuc n) p h = refl

-- a row that is not confirmed yet takes another status
advanced :
    (env : Env) {o : ℕ} {db d : Db} (m m' : Membership) (st : MembershipStatus)
    → Sound o db
    → find_membership m.uuid db.memberships ≡ some m
    → is_pending st ≡ true
    → has_status st m ≡ true
    → is_valid_status m'.status ≡ true
    → m'.atype ≡ m.atype
    → m'.uuid ≡ m.uuid
    → Quiet db d
    → Sound o (save env m' d)
advanced env {o} {db} {d} m m' st s found p st_is status same_type same_uuid q =
    let ok = every-find (λ x. x.uuid) is_valid m.uuid db.memberships s.valid found in
    let (_, t) = &&-true (is_valid_status m.status) (is_some (type_from_i32 m.atype)) ok in
    let s' = Sound-Quiet q s in
    Sound-save env m m' d s'
      (rw q.same (ap (λ i. find_membership i db.memberships) same_uuid ∙ found))
      (rw (status, same_type) t) (enough_unconfirmed s' m m' (one_status st m.status p st_is))

abbrev unmailed : Env → Membership → User → M (Unit {0})
unmailed env m u =
    if not (is_some u.password_hash)
    then save_invitation env u.email
    else write (take_invitation env u.email) >> write (save env (record m { status = pos 1 }))

module _ (env : Env) {o : ℕ} (db : Db) (s : Sound o db) where
  pub confirm_invite_impl-Sound :
      (h : AdminHeaders) (org_id member_id key : ℕ)
      → Ends (Sound o) (confirm_invite_impl env h org_id member_id key) db
  unfolding confirm_invite_impl
  confirm_invite_impl-Sound h org_id member_id key = after_require _ _ _ db s (λ _.
      after_require _ _ _ db s (λ _. after_gets _ _ db (
        after_some_or _ _ _ db s (λ m e.
          let (found, _) =
            find-check (λ x. x.uuid) member_id (λ x. x.org_uuid == org_id) db.memberships m e in
          after_require _ _ _ db s (λ _. after_require _ _ _ db s (λ st.
            quietly_then s _ (check_user_allowed-Silent env _) (λ d q.
              quietly_then (Sound-Quiet q s) _ (when-Silent _ (mail_confirmed-Silent env org_id _))
                (λ d' q'. last_write _ d' (
                  advanced env m (record m { status = pos 2; akey = key }) accepted s found refl st
                    refl refl refl (Quiet-trans q q'))))))))))

  pub reinvite_member_impl-Sound :
      (org_id member_id : ℕ) → Ends (Sound o) (reinvite_member_impl env org_id member_id) db
  unfolding reinvite_member_impl
  reinvite_member_impl-Sound org_id member_id = after_gets _ _ db (
      after_some_or _ _ _ db s (λ m e.
        let (found, _) =
          find-check (λ x. x.uuid) member_id (λ x. x.org_uuid == org_id) db.memberships m e in
        after_require _ _ _ db s (λ st. after_gets _ _ db (
          after_some_or _ _ _ db s (λ u _. after_require _ _ _ db s (λ _. after_gets _ _ db (
            after_some_or _ _ _ db s (λ org _.
              in_either env.mail_enabled (send env (invite u.email org.name)) (unmailed env m u) db
                (λ _. silently (send-Silent env _))
                (λ _.
                  in_either (not (is_some u.password_hash)) (save_invitation env u.email)
                    (write (take_invitation env u.email)
                      >> write (save env (record m { status = pos 1 })))
                    db (λ _. silently (save_invitation-Silent env u.email))
                    (λ _.
                      quietly_then s _ (write-Silent _ (take_invitation-Quiet env u.email)) (λ d q.
                        last_write _ d (
                          advanced env m (record m { status = pos 1 }) invited s found refl st refl
                            refl refl q))))))))))))
    where
      silently : {m : M (Unit {0})} → Silent m → Ends (Sound o) m db
      silently {m} silent = record { holds = Sound-Quiet (silent db db (Quiet-refl db)).holds s }

  pub accept_org_invite-Sound :
      (who : User) (m m1 : Membership) (key : Option ℕ)
      → find_membership m.uuid db.memberships ≡ some m
      → m1 ≡ record m { invited_by_email = m1.invited_by_email }
      → Ends (Sound o) (accept_org_invite env who m1 key) db
  unfolding accept_org_invite
  accept_org_invite-Sound who m m1 key found same = after_require _ _ _ db s (λ st.
      quietly_then s _ (check_user_allowed-Silent env _)
        (λ d q. after_write _ _ d (announced (save env m' d) (saved st q))))
    where
      m' : Membership
      m' = record m1 { status = pos 1; reset_password_key = key }

      saved : {d : Db} → has_status invited m1 ≡ true → Quiet db d → Sound o (save env m' d)
      saved st q =
          advanced env m m' invited s found refl (sym (ap (has_status invited) same) ∙ st) refl
            (ap (λ x. x.atype) same) (ap (λ x. x.uuid) same) q

      announced :
          (d : Db)
          → Sound o d
          → Ends
              (Sound o)
              (gets (find_organization m1.org_uuid) >>= λ organization. when env.mail_enabled (
                some_or not_found organization >>= λ org.
                send env
                  (invite_accepted (unwrap_or m1.invited_by_email org.billing_email) org.name)))
              d
      announced d s' = after_gets _ _ d (
          in_when env.mail_enabled _ d s' (λ _. after_some_or _ _ _ d s' (λ org _. record {
            holds = Sound-Quiet (send-Silent env _ d d (Quiet-refl d)).holds s';
          })))

  pub accept_as_member-Sound :
      (who : User) (claims : InviteClaims) (key : Option ℕ)
      → Ends (Sound o) (accept_as_member env who claims key) db
  unfolding accept_as_member
  accept_as_member-Sound who claims key = after_gets _ _ db (
      after_some_or _ _ _ db s (λ m e.
        let (found, _) =
          find-check (λ x. x.uuid) claims.member_id (λ x. x.org_uuid == claims.org_id)
            db.memberships m e in
        after_gets _ _ db (
          after_require _ _ _ db s (λ _.
            accept_org_invite-Sound who m
              (record m { invited_by_email = or_else m.invited_by_email claims.invited_by_email }) _
              found refl))))

module _ (env : Env) {o : ℕ} (db : Db) (s : Sound o db) where
  pub accept_invite-Sound :
      (fake_admin org_name : ℕ) (who : User) (org_id member_id : ℕ) (token : Option InviteClaims)
      (key : Option ℕ)
      → Ends (Sound o) (accept_invite env fake_admin org_name who org_id member_id token key) db
  unfolding accept_invite
  accept_invite-Sound fake_admin org_name who org_id member_id token key =
      after_some_or _ _ _ db s (λ claims _. after_require _ _ _ db s (λ _.
        after_require _ _ _ db s (λ _. after_require _ _ _ db s (λ _.
          quietly_then s _ (write-Silent _ (take_invitation-Quiet env claims.email)) (λ d q.
            let s' = Sound-Quiet q s in
            in_either (claims.member_id == fake_admin)
              (when env.mail_enabled (send env (invite_confirmed claims.email org_name)))
              (accept_as_member env who claims key) d
              (λ _. in_when env.mail_enabled _ d s' (λ _. record {
                holds = Sound-Quiet (send-Silent env _ d d (Quiet-refl d)).holds s';
              }))
              (λ _. accept_as_member-Sound env d s' who claims key))))))
