-- ===== src/Server/Organization/Rights/Handlers.antt =====
-- The handlers of Members and Invitations, asked by an administrator who is no owner.
use nad_safe_password_manage.Prelude.{
  pos, ℕ, ◌≡◌, refl, ap, ◌∙◌, Bool, true, false, not, ◌&&◌, ◌||◌, Option, some, List, ◌==◌, arith,
}
use nad_safe_password_manage.Server.Handler.{require, bulk, ◌>>◌}
use nad_safe_password_manage.Server.Handler.Ends.{
  Ends, after_require, after_some_or, after_gets, after_then, last_write, in_bulk,
}
use nad_safe_password_manage.Server.Table.{check, find-check}
use nad_safe_password_manage.Server.EmergencyAccess.Model.{
  MembershipType, owner, admin, user, manager,
}
use nad_safe_password_manage.Server.Organization.Roles.{
  Membership, has_type, type_code, type_eq, type_ge, at_least, restore, revoke,
}
use nad_safe_password_manage.Server.Organization.Model.{
  Db, Env, ids_do_not_match, M, find_membership, save,
}
use nad_safe_password_manage.Server.Organization.Members.{
  AdminHeaders, EditUserData, edit_member, delete_member_impl, revoke_member_impl,
  restore_member_impl, bulk_delete_member, bulk_revoke_members, bulk_restore_members,
}
use nad_safe_password_manage.Server.Organization.Invitations.{confirm_invite_impl}
use nad_safe_password_manage.Server.Organization.Bulk.{
  ConfirmData, bulk_confirm_invite, some_keys, in_confirm_all,
}
use nad_safe_password_manage.Server.Organization.Sound.{Quiet, Quiet-refl}
use nad_safe_password_manage.Server.Organization.Silent.{
  Silent, when-Silent, keep_an_owner-Silent, check_user_allowed-Silent,
}
use nad_safe_password_manage.Server.Organization.Owners.Edit.{between}
use nad_safe_password_manage.Server.Organization.Owners.Invite.{mail_confirmed-Silent}
use nad_safe_password_manage.Server.Organization.Rights.{
  SameOwners, SameOwners-refl, SameOwners-trans, SameOwners-Quiet, saved, deleted, revoke_same,
  restore_same,
}
use nad_safe_password_manage.Server.Organization.Requests.{
  AdminRequest, edits, deletes, revokes, restores, reinvites, deletes_all, revokes_all,
  restores_all, reinvites_all, invites, confirms, confirms_all, sets_policy, serve,
}

abbrev retyped : Membership → Bool → MembershipType → Membership
retyped m access_all t = record m { access_all = access_all; atype = type_code t }

module _ (env : Env) (h : AdminHeaders) (no_owner : type_eq h.membership_type owner ≡ false) where
  module _ (db : Db) (org_id member_id : ℕ) where
    -- the row of a request, found
    found_row :
        (m : Membership)
        → check (λ x. x.org_uuid == org_id) (find_membership member_id db.memberships) ≡ some m
        → find_membership m.uuid db.memberships ≡ some m
    found_row m e =
        (find-check (λ x. x.uuid) member_id (λ x. x.org_uuid == org_id) db.memberships m e).0

    quietly :
        {m : M (Unit {0})} (k : M (Unit {0}))
        → Silent m
        → ((d : Db) → Quiet db d → Ends (SameOwners db) k d)
        → Ends (SameOwners db) (m >> k) db
    quietly {m} k silent next =
        after_then (Quiet db) m k db (silent db db (Quiet-refl db)) (λ d q. SameOwners-Quiet q) next

    saved_later :
        {d : Db} (m m' : Membership)
        → find_membership m.uuid db.memberships ≡ some m
        → m'.uuid ≡ m.uuid
        → has_type owner m ≡ false
        → has_type owner m' ≡ false
        → Quiet db d
        → SameOwners db (save env m' d)
    saved_later {d} m m' found same non non' q =
        SameOwners-trans (SameOwners-Quiet q) (saved env m m' d (rw q.same found) same non non')

    deletes_none : Ends (SameOwners db) (delete_member_impl env h org_id member_id) db
    unfolding delete_member_impl
    deletes_none =
        let start = SameOwners-refl db in
        after_require _ _ _ db start (λ _. after_gets _ _ db (
          after_some_or _ _ _ db start (λ m e. after_require _ _ _ db start (λ allowed.
            quietly _ (keep_an_owner-Silent _ org_id) (λ d q. last_write _ d (
              SameOwners-trans (SameOwners-Quiet q)
                (deleted env m d (rw q.same (found_row m e)) (ground (arith, no_owner)))))))))

    confirms_none :
        (key : ℕ) → Ends (SameOwners db) (confirm_invite_impl env h org_id member_id key) db
    unfolding confirm_invite_impl
    confirms_none key =
        let start = SameOwners-refl db in
        after_require _ _ _ db start (λ _. after_require _ _ _ db start (λ _. after_gets _ _ db (
          after_some_or _ _ _ db start (λ m e. after_require _ _ _ db start (λ allowed.
            after_require _ _ _ db start (λ _. quietly _ (check_user_allowed-Silent env _) (λ d q.
              after_then (Quiet db) _ _ d
                (when-Silent _ (mail_confirmed-Silent env org_id _) db d q)
                (λ d' q'. SameOwners-Quiet q')
                (λ d' q'. last_write _ d' (
                  saved_later m (record m { status = pos 2; akey = key }) (found_row m e) refl
                    (ground (arith, no_owner)) (ground (arith, no_owner)) q')))))))))

    revokes_none : Ends (SameOwners db) (revoke_member_impl env h org_id member_id) db
    unfolding revoke_member_impl
    revokes_none =
        let start = SameOwners-refl db in
        after_require _ _ _ db start (λ _. after_gets _ _ db (
          after_some_or _ _ _ db start (λ m e. after_require _ _ _ db start (λ _.
            after_require _ _ _ db start (λ _. after_require _ _ _ db start (λ allowed.
              quietly _ (keep_an_owner-Silent _ org_id) (λ d q.
                let (same, same_type) = revoke_same m in
                let non : has_type owner m ≡ false = ground (arith, no_owner) in
                last_write _ d (
                  saved_later m (revoke m).0 (found_row m e) same non
                    (ap (λ x. x == 0) same_type ∙ non) q))))))))

    restores_none : Ends (SameOwners db) (restore_member_impl env h org_id member_id) db
    unfolding restore_member_impl
    restores_none =
        let start = SameOwners-refl db in
        after_require _ _ _ db start (λ _. after_gets _ _ db (
          after_some_or _ _ _ db start (λ m e. after_require _ _ _ db start (λ _.
            after_require _ _ _ db start (λ _. after_require _ _ _ db start (λ allowed.
              quietly _ (check_user_allowed-Silent env _) (λ d q.
                let (same, same_type) = restore_same m in
                let non : has_type owner m ≡ false = ground (arith, no_owner) in
                last_write _ d (
                  saved_later m (restore m).0 (found_row m e) same non
                    (ap (λ x. x == 0) same_type ∙ non) q))))))))

    -- Making a row an owner's is a change of its type to one that is at least an admin's.
    new_type_is_none :
        (t : MembershipType) (m : Membership)
        → not (
            not (has_type t m)
            && (type_ge m.atype admin || at_least t admin)
            && not (type_eq h.membership_type owner))
          ≡ true
        → has_type owner m ≡ false
        → type_eq t owner ≡ false
    new_type_is_none owner m allowed non = ground (arith, no_owner)
    new_type_is_none admin m allowed non = refl
    new_type_is_none user m allowed non = refl
    new_type_is_none manager m allowed non = refl

    edits_none :
        (request : EditUserData)
        → Ends (SameOwners db) (edit_member env h org_id member_id request) db
    unfolding edit_member
    edits_none request =
        let start = SameOwners-refl db in
        after_require _ _ _ db start (λ _. after_some_or _ _ _ db start (λ t _. after_gets _ _ db (
          after_some_or _ _ _ db start (λ m e. after_require _ _ _ db start (λ changing.
            after_require _ _ _ db start (λ allowed.
              quietly _ (keep_an_owner-Silent _ org_id) (λ d0 q0.
                after_then (Quiet db) _ _ d0 (check_user_allowed-Silent env _ db d0 q0)
                  (λ d q. SameOwners-Quiet q)
                  (λ d q.
                    let non : has_type owner m ≡ false = ground (arith, no_owner) in
                    between env m org_id _ request.collections request.groups q
                      (λ d' q'. SameOwners-Quiet q')
                      (λ d' q'. last_write _ d' (
                        saved_later m (retyped m _ t) (found_row m e) refl non
                          (new_type_is_none t m changing non) q'))))))))))

-- one member or several: editing, deleting, revoking, restoring and confirming
abbrev pub changes_members : AdminRequest → Bool
changes_members (edits id request) = true
changes_members (deletes id) = true
changes_members (revokes id) = true
changes_members (restores id) = true
changes_members (confirms id key) = true
changes_members (deletes_all ids) = true
changes_members (revokes_all ids) = true
changes_members (restores_all ids) = true
changes_members (confirms_all keys) = true
changes_members _ = false

module _ (env : Env) (h : AdminHeaders) (no_owner : type_eq h.membership_type owner ≡ false)
    (db : Db) (org_id : ℕ) where
  in_all :
      {A : Type 0} (f : A → M (Unit {0})) (items : List A)
      → ((a : A) (d : Db) → Ends (SameOwners d) (f a) d)
      → Ends (SameOwners db) (require (org_id == h.org_id) ids_do_not_match >> bulk f items) db
  in_all f items each = after_require _ _ _ db (SameOwners-refl db) (λ _.
      in_bulk f items db (SameOwners-refl db)
        (λ a d same. record { holds = SameOwners-trans same (each a d).holds }))

  confirm_all-none :
      (keys : Option (List ConfirmData))
      → Ends (SameOwners db) (bulk_confirm_invite env h org_id keys) db
  unfolding bulk_confirm_invite
  confirm_all-none keys = after_require _ _ _ db (SameOwners-refl db) (λ _.
      in_confirm_all env h org_id
        (λ id key d same. record {
          holds = SameOwners-trans same (confirms_none env h no_owner d org_id id key).holds;
        })
        (some_keys keys) db (SameOwners-refl db))

  -- An administrator who is no owner, and who edits, deletes, revokes, restores or confirms a
  -- member, or several, leaves the rows of owners as they are, in this organization and in any
  -- other, and makes no new ones: a row of an owner is found after the request exactly where it
  -- was found before.
  pub owners_untouched :
      (request : AdminRequest)
      → changes_members request ≡ true
      → SameOwners db (serve env h org_id request db)
  unfolding bulk_delete_member bulk_revoke_members bulk_restore_members
  owners_untouched (edits id request) is = (edits_none env h no_owner db org_id id request).holds
  owners_untouched (deletes id) is = (deletes_none env h no_owner db org_id id).holds
  owners_untouched (revokes id) is = (revokes_none env h no_owner db org_id id).holds
  owners_untouched (restores id) is = (restores_none env h no_owner db org_id id).holds
  owners_untouched (confirms id key) is = (confirms_none env h no_owner db org_id id key).holds
  owners_untouched (deletes_all ids) is =
      (in_all _ ids (λ id d. deletes_none env h no_owner d org_id id)).holds
  owners_untouched (revokes_all ids) is =
      (in_all _ ids (λ id d. revokes_none env h no_owner d org_id id)).holds
  owners_untouched (restores_all ids) is =
      (in_all _ ids (λ id d. restores_none env h no_owner d org_id id)).holds
  owners_untouched (confirms_all keys) is = (confirm_all-none keys).holds
  owners_untouched (reinvites id) is = cc
  owners_untouched (reinvites_all ids) is = cc
  owners_untouched (invites request) is = cc
  owners_untouched (sets_policy t enabled text) is = cc
