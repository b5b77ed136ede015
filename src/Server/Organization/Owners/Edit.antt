-- ===== src/Server/Organization/Owners/Edit.antt =====
-- Editing a member keeps the invariant.
use nad_safe_password_manage.Prelude.{
  ℕ, ◌+◌, ◌≤◌, ◌≡◌, refl, ap, Bool, true, not, List, some, ◌&&◌, ◌==◌, &&-true, arith, Bool-cases,
  inl, inr,
}
use nad_safe_password_manage.Server.Handler.{write, when, for_each, ◌>>◌}
use nad_safe_password_manage.Server.Handler.Ends.{
  Ends, after_require, after_some_or, after_gets, after_then, last_write,
}
use nad_safe_password_manage.Server.Table.{find-check}
use nad_safe_password_manage.Server.Table.Count.{every-find}
use nad_safe_password_manage.Server.EmergencyAccess.Model.{
  is_some, MembershipType, owner, admin, user, manager,
}
use nad_safe_password_manage.Server.Organization.Roles.{
  Membership, confirmed, type_code, type_from_i32, has_status, has_type, type_eq,
}
use nad_safe_password_manage.Server.Organization.Model.{
  Db, Env, M, find_membership, is_confirmed, save, delete_collections_of, delete_groups_of,
  count_confirmed_by_org_and_type,
}
use nad_safe_password_manage.Server.Organization.Members.{
  AdminHeaders, EditUserData, CollectionData, edit_member, add_collection, add_group,
}
use nad_safe_password_manage.Server.Organization.Sound.{
  Sound, Sound-save, Sound-Quiet, Quiet, kept, delete_groups_of-Quiet, is_valid, is_valid_status,
  owns,
}
use nad_safe_password_manage.Server.Organization.Silent.{
  when-Silent, for_each-Silent, write-Silent, check_user_allowed-Silent, add_collection-Silent,
  add_group-Silent,
}
use nad_safe_password_manage.Server.Organization.Owners.{after_keep_an_owner, quietly_then}

pub known_type : (t : MembershipType) → is_some (type_from_i32 (type_code t)) ≡ true
known_type owner = refl
known_type admin = refl
known_type user = refl
known_type manager = refl

-- the writes of the request between the checks and the row itself
pub between :
    (env : Env) (m : Membership) (org_id : ℕ) (access_all : Bool)
    (collections : List CollectionData) (groups : List ℕ) {k : M (Unit {0})} {P : Db → Type 0}
    {a b : Db}
    → Quiet a b
    → ((d : Db) → Quiet a d → P d)
    → ((d : Db) → Quiet a d → Ends P k d)
    → Ends P
        (write (delete_collections_of m.user_uuid org_id)
          >> (when (not access_all) (for_each collections (add_collection env org_id m.user_uuid))
              >> (write (delete_groups_of env m.uuid)
                  >> (for_each groups (add_group env m.uuid) >> k))))
        b
between env m org_id access_all collections groups {k} {P} {a} {b} q stop h =
    after_then (Quiet a) _ _ b (write-Silent _ (λ d. kept refl refl refl) a b q) stop (λ d1 q1.
      after_then (Quiet a) _ _ d1
        (when-Silent _ (for_each-Silent collections (add_collection-Silent env org_id m.user_uuid))
          a d1 q1)
        stop
        (λ d2 q2.
          after_then (Quiet a) _ _ d2
            (write-Silent _ (λ d. delete_groups_of-Quiet env m.uuid d) a d2 q2) stop
            (λ d3 q3.
              after_then (Quiet a) _ _ d3
                (for_each-Silent groups (add_group-Silent env m.uuid) a d3 q3) stop h)))

module _ (env : Env) {o : ℕ} where
  -- an owner that stays an owner is not lost, and another is not the last
  enough_retyped :
      {db : Db}
      → Sound o db
      → (m : Membership) (org_id : ℕ) (access_all : Bool) (t : MembershipType)
      → (m.org_uuid == org_id) ≡ true
      → ((has_type owner m && not (type_eq t owner) && has_status confirmed m) ≡ true
          → 2 ≤ count_confirmed_by_org_and_type org_id owner db)
      → 1 + owns o m
        ≤ count_confirmed_by_org_and_type o owner db
          + owns o (record m { access_all = access_all; atype = type_code t })
  enough_retyped {db} s m org_id access_all t same two =
      elim (Bool-cases (is_confirmed o owner m)) [
        | inr fails ↦ rw fails (omega (arith, s.owned))
        | inl is ↦
            let org_is : org_id ≡ o = ground arith in
            let more = ap (λ x. count_confirmed_by_org_and_type x owner db) org_is in
            elim (Bool-cases (type_eq t owner)) [
              | inl stays ↦ ground (arith, s.owned)
              | inr changes ↦
                  let lost : (has_type owner m && not (type_eq t owner) && has_status confirmed m)
                      ≡ true =
                    ground arith in
                  rw is (omega (arith, two lost, more))
            ]
      ]

  saved :
      {db d : Db} (access_all : Bool) (org_id : ℕ)
      → Sound o db
      → (m : Membership) (t : MembershipType) → (m.org_uuid == org_id) ≡ true
      → ((has_type owner m && not (type_eq t owner) && has_status confirmed m) ≡ true
          → 2 ≤ count_confirmed_by_org_and_type org_id owner db)
      → find_membership m.uuid db.memberships ≡ some m
      → Quiet db d
      → Sound o (save env (record m { access_all = access_all; atype = type_code t }) d)
  saved {db} {d} access_all org_id s m t org two found q =
      let ok = every-find (λ x. x.uuid) is_valid m.uuid db.memberships s.valid found in
      let (status, _) = &&-true (is_valid_status m.status) (is_some (type_from_i32 m.atype)) ok in
      Sound-save env m (record m { access_all = access_all; atype = type_code t }) d
        (Sound-Quiet q s) (rw q.same found) (rw (status, known_type t) refl)
        (rw q.same (enough_retyped s m org_id access_all t org two))

  pub edit_member-Sound :
      (db : Db)
      → Sound o db
      → (h : AdminHeaders) (org_id member_id : ℕ) (request : EditUserData)
      → Ends (Sound o) (edit_member env h org_id member_id request) db
  unfolding edit_member
  edit_member-Sound db s h org_id member_id request = after_require _ _ _ db s (λ _.
      after_some_or _ _ _ db s (λ t _. after_gets _ _ db (
        after_some_or _ _ _ db s (λ m e.
          let (found, org) =
            find-check (λ x. x.uuid) member_id (λ x. x.org_uuid == org_id) db.memberships m e in
          after_require _ _ _ db s (λ _. after_require _ _ _ db s (λ _.
            after_keep_an_owner s
              (has_type owner m && not (type_eq t owner) && has_status confirmed m) org_id _
              (λ two. quietly_then s _ (check_user_allowed-Silent env _) (λ d q.
                between env m org_id _ request.collections request.groups q
                  (λ d' q'. Sound-Quiet q' s)
                  (λ d' q'. last_write _ d' (saved _ org_id s m t org two found q'))))))))))
