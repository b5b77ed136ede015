-- ===== src/Server/Organization/Owners/Policies.antt =====
-- Creating an organization and setting a policy keep the invariant: what a policy revokes are no
-- owners.
use nad_safe_password_manage.Prelude.{
  ℕ, ◌≡◌, refl, ap, ◌∙◌, Bool, true, false, some, List, [], ◌∷◌, ◌==◌, arith,
}
use nad_safe_password_manage.Server.Handler.{pure, write, when, for_each, ◌>>◌}
use nad_safe_password_manage.Server.Handler.Ends.{
  Ends, after_require, after_some_or, after_gets, after_write, after_then, last_write, last_pure,
  in_when,
}
use nad_safe_password_manage.Server.Table.{find-put, put, Rows, Rows-keep_if, Rows-other}
use nad_safe_password_manage.Server.Table.Count.{every-find}
use nad_safe_password_manage.Server.EmergencyAccess.Model.{owner, admin}
use nad_safe_password_manage.Server.Organization.Roles.{Membership, has_type, type_lt, new, revoke}
use nad_safe_password_manage.Server.Organization.Model.{
  User, Organization, Collection, OrgPolicy, Db, Env, Error, M, find_membership, is_confirmed, save,
}
use nad_safe_password_manage.Server.Organization.Policy.{OrgPolicyType, save_policy}
use nad_safe_password_manage.Server.Organization.Members.{AdminHeaders}
use nad_safe_password_manage.Server.Organization.Settings.{
  OrgData, first_owner, create_organization, enforce_2fa_on, enforce_2fa_policy_for_org,
  mail_single_org, enforce_single_org_on, enforce_single_org, check_dependent_policy, put_policy,
}
use nad_safe_password_manage.Server.Organization.Sound.{
  Sound, Sound-save, Sound-save_new, Sound-Quiet, Quiet, Quiet-refl, Quiet-trans, Drawn-Quiet, kept,
  is_valid,
}
use nad_safe_password_manage.Server.Organization.Silent.{
  Silent, then-Silent, bind-Silent, gets-Silent, some_or-Silent, require-Silent, when-Silent,
  write-Silent, get_uuid-Silent, send-Silent,
}
use nad_safe_password_manage.Server.Organization.Owners.{quietly, quietly_then, revoke-is_valid}
use nad_safe_password_manage.Server.Organization.Owners.Send.{after_get_uuid}

below_admin : (m : Membership) → type_lt m.atype admin ≡ true → has_type owner m ≡ false
below_admin m h = ground arith

mail_single_org-Silent : (env : Env) (m : Membership) → Silent (mail_single_org env m)
unfolding mail_single_org
mail_single_org-Silent env m = bind-Silent (gets-Silent _) (λ found.
    bind-Silent (some_or-Silent _ found) (λ org.
      bind-Silent (gets-Silent _)
        (λ known. bind-Silent (some_or-Silent _ known) (λ u. send-Silent env _))))

-- The invariant holds, and only the row with this identifier may have changed.
record Only (o id : ℕ) (a b : Db) : Type 0 where
  sound : Sound o b
  others :
      (j : ℕ)
      → (id == j) ≡ false
      → find_membership j b.memberships ≡ find_membership j a.memberships

module _ (env : Env) {o : ℕ} where
  Only-Quiet : {id : ℕ} {a b : Db} → Sound o a → Quiet a b → Only o id a b
  Only-Quiet s q = record { sound = Sound-Quiet q s; others = λ j _. ap (find_membership j) q.same }

  -- a member that is no owner is revoked, after a mail
  revoked_one :
      {db : Db} (m : Membership) (mail : M (Unit {0}))
      → Sound o db
      → find_membership m.uuid db.memberships ≡ some m
      → type_lt m.atype admin ≡ true
      → Silent mail
      → Ends (Only o m.uuid db) (mail >> write (save env (revoke m).0)) db
  unfolding save
  revoked_one {db} m mail s found below silent =
      after_then (Quiet db) mail _ db (silent db db (Quiet-refl db)) (λ d q. Only-Quiet s q)
        (λ d q.
          let (ok, same) =
            revoke-is_valid m
              (every-find (λ x. x.uuid) is_valid m.uuid db.memberships s.valid found) in
          let s' = Sound-Quiet q s in
          let no_owner : is_confirmed o owner m ≡ false = ground (arith, below_admin m below) in
          last_write _ d (record {
            sound =
                Sound-save env m (revoke m).0 d s'
                  (rw q.same (ap (λ i. find_membership i db.memberships) same ∙ found)) ok
                  (rw no_owner (omega (arith, s'.owned)));
            others = λ j other.
                find-put (λ x. x.uuid) j (revoke m).0 d.memberships
                ∙ rw (ap (λ i. i == j) same ∙ other) (ap (find_membership j) q.same);
          }))

  -- the loop over the rows as they were read
  each_row :
      (rows : List Membership) (f : Membership → M (Unit {0})) (db : Db)
      → Sound o db
      → Rows (λ m. m.uuid) rows db.memberships
      → ((m : Membership) (d : Db)
          → Sound o d
          → find_membership m.uuid d.memberships ≡ some m
          → Ends (Only o m.uuid d) (f m) d)
      → Ends (Sound o) (for_each rows f) db
  unfolding Rows
  each_row [] f db s rows h = last_pure tt db s
  each_row (m ∷ rest) f db s (found, alone, rows) h =
      after_then (Only o m.uuid db) (f m) (for_each rest f) db (h m db s found)
        (λ d only. only.sound)
        (λ d only.
          each_row rest f d only.sound
            (Rows-other (λ x. x.uuid) m.uuid rest db.memberships d.memberships alone only.others
              rows)
            h)

  enforce_single_org-Sound :
      (org_id : ℕ) (db : Db) → Sound o db → Ends (Sound o) (enforce_single_org env org_id) db
  unfolding enforce_single_org enforce_single_org_on
  enforce_single_org-Sound org_id db s = after_gets _ _ db (
      each_row _ _ db s (Rows-keep_if (λ m. m.uuid) _ db.memberships s.unique) (λ m d s' found.
        after_gets _ _ d (
          in_when _ _ d (Only-Quiet s' (Quiet-refl d)) (λ is.
            revoked_one m _ s' found (ground arith)
              (when-Silent env.mail_enabled (mail_single_org-Silent env m))))))

  enforce_2fa_policy_for_org-Sound :
      (org_id : ℕ) (db : Db)
      → Sound o db
      → Ends (Sound o) (enforce_2fa_policy_for_org env org_id) db
  unfolding enforce_2fa_policy_for_org enforce_2fa_on
  enforce_2fa_policy_for_org-Sound org_id db s = after_gets _ _ db (
      after_some_or _ _ _ db s (λ org _. after_gets _ _ db (
        each_row _ _ db s (Rows-keep_if (λ m. m.uuid) _ db.memberships s.unique) (λ m d s' found.
          after_gets _ _ d (
            in_when _ _ d (Only-Quiet s' (Quiet-refl d)) (λ is. after_gets _ _ d (
              revoked_one m _ s' found (ground arith) (
                when-Silent env.mail_enabled
                  (bind-Silent (some_or-Silent _ _) (λ u. send-Silent env _))))))))))

check_dependent_policy-Silent :
    (org_id : ℕ) (t : OrgPolicyType) (enabled : Bool)
    → Silent (check_dependent_policy org_id t enabled)
unfolding check_dependent_policy
check_dependent_policy-Silent org_id t enabled =
    bind-Silent (gets-Silent _) (λ a.
      then-Silent (require-Silent _ _) (bind-Silent (gets-Silent _) (λ b. require-Silent _ _)))

save_policy-Quiet : (p : OrgPolicy) (d : Db) → Quiet d (save_policy p d)
unfolding save_policy
save_policy-Quiet p d = kept refl refl refl

module _ (env : Env) {o : ℕ} where
  -- a step under a test that keeps the invariant
  tested :
      {A : Type 0} (test : Bool) (m : M (Unit {0})) (k : M A) (db : Db)
      → Sound o db
      → Ends (Sound o) m db
      → ((d : Db) → Sound o d → Ends (Sound o) k d)
      → Ends (Sound o) (when test m >> k) db
  tested test m k db s hm hk =
      after_then (Sound o) (when test m) k db (in_when test m db s (λ _. hm)) (λ d s'. s') hk

  pub put_policy-Sound :
      (db : Db)
      → Sound o db
      → (h : AdminHeaders) (org_id pol_type : ℕ) (enabled : Bool) (text : ℕ)
      → Ends (Sound o) (put_policy env h org_id pol_type enabled text) db
  unfolding put_policy
  put_policy-Sound db s h org_id pol_type enabled text = after_require _ _ _ db s (λ _.
      after_some_or _ _ _ db s (λ t _.
        quietly_then s _ (when-Silent _ (check_dependent_policy-Silent org_id t enabled)) (λ d q.
          let s1 = Sound-Quiet q s in
          tested _ _ _ d s1 (enforce_2fa_policy_for_org-Sound env org_id d s1) (λ d2 s2.
            tested _ _ _ d2 s2 (enforce_single_org-Sound env org_id d2 s2) (λ d3 s3.
              quietly s3 _ get_uuid-Silent (λ id d4 q4.
                let s4 = Sound-Quiet q4 s3 in
                after_gets _ _ d4 (
                  quietly_then s4 _ (write-Silent _ (save_policy-Quiet _))
                    (λ d5 q5. last_pure _ d5 (Sound-Quiet q5 s4)))))))))

  pub create_organization-Sound :
      (db : Db)
      → Sound o db
      → (who : User) (request : OrgData) → Ends (Sound o) (create_organization env who request) db
  unfolding create_organization new
  create_organization-Sound db s who request = after_require _ _ _ db s (λ _. after_gets _ _ db (
      after_require _ _ _ db s (λ _. quietly s _ get_uuid-Silent (λ org_id d1 q1.
        let s1 = Sound-Quiet q1 s in
        after_get_uuid _ d1 s1 (λ id d2 drawn q2.
          let s2 = Sound-Quiet q2 s1 in
          quietly s2 _ get_uuid-Silent (λ collection d3 q3.
            let s3 = Sound-Quiet q3 s2 in
            after_require _ _ _ d3 s3 (λ _.
              quietly_then s3 _ (write-Silent _ (λ d. kept refl refl refl)) (λ d4 q4.
                let s4 = Sound-Quiet q4 s3 in
                after_write _ _ d4 (
                  added _ _ (first_owner id who.uuid org_id request.key) d4 (
                    Sound-save_new env _ d4 s4 (Drawn-Quiet (Quiet-trans q3 q4) drawn)
                      refl))))))))))
    where
      added :
          (c : Collection) (org : Organization) (m : Membership) (d : Db)
          → Sound o (save env m d)
          → Ends {E = Error}
              (Sound o)
              (write (λ x. record x { collections = put (λ y. y.uuid) c x.collections })
                >> pure org)
              (save env m d)
      added c org m d s' =
          quietly_then s' _ (write-Silent _ (λ x. kept refl refl refl))
            (λ d' q'. last_pure _ d' (Sound-Quiet q' s'))
