-- ===== src/Server/Organization/Sound.antt =====
-- The invariant of the memberships, and the writes that keep it.
use nad_safe_password_manage.Prelude.{
  ℕ, ◌+◌, ◌≤◌, ◌≡◌, refl, sym, ap, ◌∙◌, Bool, true, false, ◌&&◌, Option, none, some, List, ◌==◌,
  leb, ==→eq, every, arith, Bool-cases, inl, inr, ℤ, pos, negsuc,
}
use nad_safe_password_manage.Server.Table.{
  remove, Unique, find-put, find-remove, Unique-put, Unique-keep_if,
}
use nad_safe_password_manage.Server.Table.Count.{
  bit, count_if-put, count_if-put_new, count_if-remove, every-put, every_kept,
}
use nad_safe_password_manage.Server.EmergencyAccess.Model.{is_some, owner}
use nad_safe_password_manage.Server.Organization.Roles.{Membership, type_from_i32}
use nad_safe_password_manage.Server.Organization.Model.{
  Db, Env, find_membership, is_confirmed, save, delete, count_confirmed_by_org_and_type, GroupUser,
  touch_member, delete_groups_of, save_group_user, delete_collections_of, update_uuid_revision,
}

-- -128, -127 and -126 of a revoked row, and 0, 1 and 2 of another
abbrev pub is_valid_status : ℤ → Bool
is_valid_status (pos n) = leb n 2
is_valid_status (negsuc n) = leb 125 n && leb n 127

abbrev pub is_valid : Membership → Bool
is_valid m = is_valid_status m.status && is_some (type_from_i32 m.atype)

abbrev pub memberships_of : Db → List Membership
memberships_of db = db.memberships

abbrev pub owns : ℕ → Membership → ℕ
owns o = bit (λ m. m.uuid) (is_confirmed o owner)

pub record Sound (o : ℕ) (db : Db) : Type 0 where
  pub unique : Unique (λ m. m.uuid) db.memberships
  pub valid : every is_valid db.memberships ≡ true
  pub owned : 1 ≤ count_confirmed_by_org_and_type o owner db
  pub fresh : (n : ℕ) → db.drawn ≤ n → find_membership (db.uuid_at n) db.memberships ≡ none
  pub distinct : (n k : ℕ) → db.uuid_at n ≡ db.uuid_at k → n ≡ k

-- A step that leaves the memberships alone, and may draw identifiers.
pub record Quiet (a b : Db) : Type 0 where
  pub same : b.memberships ≡ a.memberships
  pub same_uuids : b.uuid_at ≡ a.uuid_at
  pub more_drawn : a.drawn ≤ b.drawn

-- an identifier that has been drawn, and that no membership has
pub record Drawn (id : ℕ) (db : Db) : Type 0 where
  pub absent : find_membership id db.memberships ≡ none
  pub later : (n : ℕ) → db.drawn ≤ n → (id == db.uuid_at n) ≡ false

pub Quiet-refl : (a : Db) → Quiet a a
Quiet-refl a = record { same = refl; same_uuids = refl; more_drawn = omega arith }

pub Quiet-trans : {a b c : Db} → Quiet a b → Quiet b c → Quiet a c
Quiet-trans p q = record {
  same = q.same ∙ p.same;
  same_uuids = q.same_uuids ∙ p.same_uuids;
  more_drawn = omega (arith, p.more_drawn, q.more_drawn);
}

pub Drawn-Quiet : {id : ℕ} {a b : Db} → Quiet a b → Drawn id a → Drawn id b
Drawn-Quiet q d = record {
  absent = rw q.same d.absent;
  later = λ n h. rw q.same_uuids (d.later n (omega (arith, h, q.more_drawn)));
}

touch_member-Quiet :
    (env : Env) (o : Option Membership) (db : Db) → Quiet db (touch_member env o db)
touch_member-Quiet env none db = Quiet-refl db
touch_member-Quiet env (some m) db = record {
  same = refl;
  same_uuids = refl;
  more_drawn = omega arith;
}

-- a write that leaves the memberships and the generator alone
pub kept :
    {a b : Db}
    → b.memberships ≡ a.memberships
    → b.uuid_at ≡ a.uuid_at
    → b.drawn ≡ a.drawn
    → Quiet a b
kept e f g = record { same = e; same_uuids = f; more_drawn = omega (arith, g) }

pub delete_groups_of-Quiet : (env : Env) (id : ℕ) (db : Db) → Quiet db (delete_groups_of env id db)
delete_groups_of-Quiet env id db =
    Quiet-trans (touch_member-Quiet env (find_membership id db.memberships) db)
      (kept refl refl refl)

pub save_group_user-Quiet :
    (env : Env) (g : GroupUser) (db : Db) → Quiet db (save_group_user env g db)
unfolding save_group_user
save_group_user-Quiet env g db =
    Quiet-trans
      (touch_member-Quiet env (find_membership g.users_organizations_uuid db.memberships) db)
      (kept refl refl refl)

pub left_groups :
    (env : Env) (m : Membership) (db : Db)
    → Quiet db (
        delete_groups_of env m.uuid
          (delete_collections_of m.user_uuid m.org_uuid (update_uuid_revision env m.user_uuid db)))
left_groups env m db = Quiet-trans (kept refl refl refl) (delete_groups_of-Quiet env m.uuid _)

module _ {o : ℕ} where
  pub Sound-Quiet : {a b : Db} → Quiet a b → Sound o a → Sound o b
  Sound-Quiet q s = record {
    unique = rw q.same s.unique;
    valid = rw q.same s.valid;
    owned = rw q.same s.owned;
    fresh = λ n h. rw (q.same, q.same_uuids) (s.fresh n (omega (arith, h, q.more_drawn)));
    distinct = λ n k h. s.distinct n k (rw q.same_uuids at h);
  }

  module _ (env : Env) (m m' : Membership) (db : Db) where
    -- a row that is there is saved anew
    pub Sound-save :
        Sound o db
        → find_membership m'.uuid db.memberships ≡ some m
        → is_valid m' ≡ true
        → 1 + owns o m ≤ count_confirmed_by_org_and_type o owner db + owns o m'
        → Sound o (save env m' db)
    unfolding save
    Sound-save s found ok enough = record {
      unique = Unique-put (λ x. x.uuid) m' db.memberships s.unique;
      valid = every-put (λ x. x.uuid) is_valid m' db.memberships s.valid ok;
      owned = omega (
        arith,
        enough,
        count_if-put (λ x. x.uuid) (is_confirmed o owner) m' db.memberships found,
      );
      fresh = λ n h.
          find-put (λ x. x.uuid) (db.uuid_at n) m' db.memberships
          ∙ elim (Bool-cases (m'.uuid == db.uuid_at n)) [
            | inl same ↦
                let clash : some m ≡ none =
                  sym found
                  ∙ ap (λ id. find_membership id db.memberships) (==→eq m'.uuid (db.uuid_at n) same)
                  ∙ s.fresh n h in
                cc
            | inr other ↦ rw other (s.fresh n h)
          ];
      distinct = s.distinct;
    }

  -- a row is added under an identifier that has just been drawn
  pub Sound-save_new :
      (env : Env) (m' : Membership) (db : Db)
      → Sound o db
      → Drawn m'.uuid db
      → is_valid m' ≡ true
      → Sound o (save env m' db)
  unfolding save
  Sound-save_new env m' db s d ok = record {
    unique = Unique-put (λ x. x.uuid) m' db.memberships s.unique;
    valid = every-put (λ x. x.uuid) is_valid m' db.memberships s.valid ok;
    owned = omega (
      arith,
      s.owned,
      count_if-put_new (λ x. x.uuid) (is_confirmed o owner) m' db.memberships d.absent,
    );
    fresh = λ n h.
        find-put (λ x. x.uuid) (db.uuid_at n) m' db.memberships ∙ rw (d.later n h) (s.fresh n h);
    distinct = s.distinct;
  }

  removed :
      (m : Membership) (a : Db)
      → Sound o a
      → find_membership m.uuid a.memberships ≡ some m
      → 1 + owns o m ≤ count_confirmed_by_org_and_type o owner a
      → Sound o (record a { memberships = remove (λ x. x.uuid) m.uuid a.memberships })
  unfolding remove
  removed m a s found enough = record {
    unique = Unique-keep_if (λ x. x.uuid) _ a.memberships s.unique;
    valid = every_kept is_valid _ a.memberships s.valid;
    owned = omega (
      arith,
      enough,
      count_if-remove (λ x. x.uuid) (is_confirmed o owner) m.uuid a.memberships s.unique found,
    );
    fresh = λ n h.
        find-remove (λ x. x.uuid) (a.uuid_at n) m.uuid a.memberships
        ∙ elim (Bool-cases (m.uuid == a.uuid_at n)) [
          | inl same ↦ rw same refl
          | inr other ↦ rw other (s.fresh n h)
        ];
    distinct = s.distinct;
  }

  -- A row is deleted that is not the organization's last confirmed owner.
  pub Sound-delete :
      (env : Env) (m : Membership) (db : Db)
      → Sound o db
      → find_membership m.uuid db.memberships ≡ some m
      → 1 + owns o m ≤ count_confirmed_by_org_and_type o owner db
      → Sound o (delete env m db)
  unfolding delete
  Sound-delete env m db s found enough =
      removed m _ (Sound-Quiet (left_groups env m db) s) (rw (left_groups env m db).same found)
        (rw (left_groups env m db).same enough)
