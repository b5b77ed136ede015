-- ===== src/Server/Organization/Owners/Send.antt =====
-- Inviting by a list of addresses keeps the invariant, if the mail server takes the mails.
use nad_safe_password_manage.Prelude.{
  ℕ, suc, ◌≡◌, refl, Bool, true, false, not, ◌&&◌, ◌||◌, Option, none, some, List, [], ◌∷◌, ◌==◌,
  ==→eq, arith, Bool-cases, inl, inr, if◌then◌else◌,
}
use nad_safe_password_manage.Server.Handler.{pure, when, for_each, attempt, ◌>>=◌, ◌>>◌}
use nad_safe_password_manage.Server.Handler.Ends.{
  Ends, after_require, after_some_or, after_write, after_step, last_pure,
}
use nad_safe_password_manage.Server.EmergencyAccess.Model.{is_some, MembershipType}
use nad_safe_password_manage.Server.Organization.Roles.{
  Membership, invited, accepted, status_code, type_code, type_from_i32, new,
}
use nad_safe_password_manage.Server.Organization.Model.{User, Db, Env, M, get_uuid, send}
use nad_safe_password_manage.Server.Organization.Members.{AdminHeaders, add_collection, add_group}
use nad_safe_password_manage.Server.Organization.Invitations.{
  Invitee, InviteData, validate, known_invitee, find_or_create_invitee, mail_or_undo, invite_one,
  invite_all, send_invite,
}
use nad_safe_password_manage.Server.Organization.Sound.{
  Sound, Sound-save_new, Sound-Quiet, Quiet, Quiet-trans, Drawn, kept, is_valid_status,
}
use nad_safe_password_manage.Server.Organization.Silent.{
  Silent, then-Silent, bind-Silent, gets-Silent, some_or-Silent, require-Silent, pure-Silent,
  when-Silent, for_each-Silent, save_invitation-Silent, create_user-Silent, add_collection-Silent,
  add_group-Silent,
}
use nad_safe_password_manage.Server.Organization.Owners.{quietly, quietly_then}
use nad_safe_password_manage.Server.Organization.Owners.Edit.{known_type}

module _ {o : ℕ} where
  pub after_get_uuid :
      {A : Type 0} (k : ℕ → M A) (db : Db)
      → Sound o db
      → ((id : ℕ) (d : Db) → Drawn id d → Quiet db d → Ends (Sound o) (k id) d)
      → Ends (Sound o) (get_uuid >>= k) db
  unfolding get_uuid ◌>>=◌
  after_get_uuid k db s h = record {
    holds =
        (h (db.uuid_at db.drawn) (record db { drawn = suc db.drawn }) drawn_id
          (record { same = refl; same_uuids = refl; more_drawn = omega arith })).holds;
  }
    where
      drawn_id : Drawn (db.uuid_at db.drawn) (record db { drawn = suc db.drawn })
      drawn_id = record {
        absent = s.fresh db.drawn (omega arith);
        later = λ n more. elim (Bool-cases (db.uuid_at db.drawn == db.uuid_at n)) [
          | inl same ↦ absurd (
              omega (
                arith,
                more,
                s.distinct db.drawn n (==→eq (db.uuid_at db.drawn) (db.uuid_at n) same),
              ))
          | inr other ↦ other
        ];
      }

module _ (env : Env) where
  find_or_create_invitee-Silent :
      (org_id email : ℕ) → Silent (find_or_create_invitee env org_id email)
  unfolding find_or_create_invitee
  find_or_create_invitee-Silent org_id email = bind-Silent (gets-Silent _) known
    where
      known : (u : Option User) → Silent (known_invitee env org_id email u)
      known none = then-Silent (require-Silent _ _) (
          then-Silent (require-Silent _ _) (
            then-Silent (when-Silent _ (save_invitation-Silent env email))
              (bind-Silent (create_user-Silent env email) (λ u. pure-Silent _))))
      known (some u) =
          bind-Silent (gets-Silent _) (λ row. then-Silent (require-Silent _ _) (pure-Silent _))

  validate-Silent : (org_id : ℕ) (request : InviteData) → Silent (validate org_id request)
  unfolding validate
  validate-Silent org_id request = bind-Silent (gets-Silent _) (λ a.
      then-Silent (require-Silent _ _) (bind-Silent (gets-Silent _) (λ b. require-Silent _ _)))

  module _ (delivered : (a : ℕ) → env.mail_accepted a ≡ true) where
    mail_or_undo-Silent :
        (org_id : ℕ) (created : Bool) (u : User) (m : Membership)
        → Silent (mail_or_undo env org_id created u m)
    unfolding mail_or_undo attempt send ◌>>=◌ pure
    mail_or_undo-Silent org_id created u m = bind-Silent (gets-Silent _) (λ organization.
        bind-Silent (some_or-Silent _ organization) (λ org a b q. record {
          holds = rw (delivered u.email) (Quiet-trans q (kept refl refl refl));
        }))

    invite_one-Sound :
        {o : ℕ} (db : Db)
        → Sound o db
        → (h : AdminHeaders) (org_id : ℕ) (request : InviteData) (t : MembershipType)
          (access_all created : Bool) (email : ℕ)
        → Ends (Sound o) (invite_one env h org_id request t access_all created email) db
    unfolding invite_one new
    invite_one-Sound db s h org_id request t access_all created email =
        quietly s _ (find_or_create_invitee-Silent org_id email) (λ invitee d q.
          let s1 = Sound-Quiet q s in
          after_get_uuid _ d s1 (λ id d1 drawn q1.
            let s2 = Sound-Quiet q1 s1 in
            after_write _ _ d1
              (finish (Sound-save_new env _ d1 s2 drawn (starts invitee.is_accepted)) invitee _)))
      where
        starts :
            (b : Bool)
            → (is_valid_status (status_code (if b then accepted else invited))
                && is_some (type_from_i32 (type_code t)))
              ≡ true
        starts true = known_type t
        starts false = known_type t

        finish :
            {o : ℕ} {d : Db}
            → Sound o d
            → (invitee : Invitee) (m : Membership)
            → Ends
                (Sound o)
                (when env.mail_enabled
                    (mail_or_undo env org_id (created || invitee.created) invitee.account m)
                  >> (when (not access_all) (
                        for_each request.collections
                          (add_collection env org_id invitee.account.uuid))
                      >> (for_each request.groups (add_group env m.uuid)
                          >> pure (created || invitee.created))))
                d
        finish s invitee m =
            quietly_then s _ (when-Silent _ (mail_or_undo-Silent org_id _ invitee.account m))
              (λ d1 q1.
                quietly_then (Sound-Quiet q1 s) _
                  (when-Silent _ (
                    for_each-Silent request.collections
                      (add_collection-Silent env org_id invitee.account.uuid)))
                  (λ d2 q2.
                    let to2 = Quiet-trans q1 q2 in
                    quietly_then (Sound-Quiet to2 s) _
                      (for_each-Silent request.groups (add_group-Silent env m.uuid))
                      (λ d3 q3. last_pure _ d3 (Sound-Quiet (Quiet-trans to2 q3) s))))

    invite_all-Sound :
        {o : ℕ} (db : Db)
        → Sound o db
        → (h : AdminHeaders) (org_id : ℕ) (request : InviteData) (t : MembershipType)
          (access_all created : Bool) (emails : List ℕ)
        → Ends (Sound o) (invite_all env h org_id request t access_all created emails) db
    invite_all-Sound db s h org_id request t access_all created [] = last_pure tt db s
    invite_all-Sound {o} db s h org_id request t access_all created (email ∷ emails) =
        after_step (Sound o) _ _ db
          (invite_one-Sound db s h org_id request t access_all created email) (λ d s'. s')
          (λ created' d s'. invite_all-Sound d s' h org_id request t access_all created' emails)

    pub send_invite-Sound :
        {o : ℕ} (db : Db)
        → Sound o db
        → (h : AdminHeaders) (org_id : ℕ) (request : InviteData)
        → Ends (Sound o) (send_invite env h org_id request) db
    unfolding send_invite
    send_invite-Sound db s h org_id request = after_require _ _ _ db s (λ _.
        quietly_then s _ (validate-Silent org_id request) (λ d q.
          let s' = Sound-Quiet q s in
          after_some_or _ _ _ d s' (λ t _.
            after_require _ _ _ d s'
              (λ _. invite_all-Sound d s' h org_id request t _ false request.emails))))
