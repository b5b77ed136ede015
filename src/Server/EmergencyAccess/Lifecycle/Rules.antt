-- ===== src/Server/EmergencyAccess/Lifecycle/Rules.antt =====
-- What a handler does to the row of one emergency access, put together from what its steps do.
use nad_safe_password_manage.Prelude.{
  ℕ, ◌≡◌, refl, sym, ap, ◌∙◌, Bool, true, false, Option, none, some, ok, err, Result, arith, ◌==◌,
  ==_iff, Bool-cases, inl, inr, List, if◌then◌else◌,
}
use nad_safe_password_manage.Server.Handler.{
  continue, pure, gets, some_or, write, require, when, ◌>>=◌, ◌>>◌,
}
use nad_safe_password_manage.Server.Table.{
  check, find-check, find-put, find-remove, remove, Unique, Unique-put, Unique-keep_if,
}
use nad_safe_password_manage.Server.EmergencyAccess.Model.{
  EmergencyAccess, Db, Env, Error, M, find_ea, save, delete, send, Mail, opt_eq, is_status,
  EmergencyAccessStatus,
}
use nad_safe_password_manage.Server.EmergencyAccess.Lifecycle.{Actor, Change, Changes, stays, more}

abbrev pub row : ℕ → Db → Option EmergencyAccess
row j db = find_ea j db.emergency_access

-- What happened to the row and to the keys of the table.
pub record Moves (env : Env) (who : Actor) (j : ℕ) (db db' : Db) : Type 0 where
  pub changes : Changes env who (row j db) (row j db')
  pub unique : Unique (λ r. r.uuid) db.emergency_access → Unique (λ r. r.uuid) db'.emergency_access

pub record Lawful {A : Type 0} (env : Env) (who : Actor) (j : ℕ) (m : M A) (db : Db) : Type 0 where
  pub moves : Moves env who j db (m db).1

module _ {env : Env} {who : Actor} where
  join :
      {o p q : Option EmergencyAccess}
      → Changes env who o p
      → Changes env who p q
      → Changes env who o q
  join (stays o) b = b
  join (more a rest) b = more a (join rest b)

  pub congruent :
      {o p o' p' : Option EmergencyAccess}
      → o ≡ o'
      → p ≡ p'
      → Changes env who o' p'
      → Changes env who o p
  congruent e f h = rw e (rw f h)

module _ {env : Env} {who : Actor} {j : ℕ} where
  pub kept : {db db' : Db} → db'.emergency_access ≡ db.emergency_access → Moves env who j db db'
  kept same = record {
    changes = congruent refl (ap (find_ea j) same) (stays _);
    unique = λ u. rw same u;
  }

  pub in_turn :
      {db db' db'' : Db}
      → Moves env who j db db'
      → Moves env who j db' db''
      → Moves env who j db db''
  in_turn a b = record { changes = join a.changes b.changes; unique = λ u. b.unique (a.unique u) }

  pub after_require :
      {A : Type 0} (test : Bool) (e : Error) (k : M A) (db : Db)
      → (test ≡ true → Lawful env who j k db)
      → Lawful env who j (require test e >> k) db
  unfolding ◌>>◌ ◌>>=◌ require
  after_require true e k db h = record { moves = (h refl).moves }
  after_require false e k db h = record { moves = kept refl }

  pub after_some_or :
      {A B : Type 0} (e : Error) (o : Option A) (k : A → M B) (db : Db)
      → ((a : A) → o ≡ some a → Lawful env who j (k a) db)
      → Lawful env who j (some_or e o >>= k) db
  unfolding ◌>>=◌ some_or
  after_some_or e none k db h = record { moves = kept refl }
  after_some_or e (some a) k db h = record { moves = (h a refl).moves }

  pub after_gets :
      {A B : Type 0} (f : Db → A) (k : A → M B) (db : Db)
      → Lawful env who j (k (f db)) db
      → Lawful env who j (gets f >>= k) db
  unfolding ◌>>=◌ gets
  after_gets f k db h = record { moves = h.moves }

  pub after_write :
      {B : Type 0} (f : Db → Db) (k : M B) (db : Db)
      → Moves env who j db (f db)
      → Lawful env who j k (f db)
      → Lawful env who j (write f >> k) db
  unfolding ◌>>◌ ◌>>=◌ write
  after_write f k db a h = record { moves = in_turn a h.moves }

  pub last_write :
      (f : Db → Db) (db : Db) → Moves env who j db (f db) → Lawful env who j (write f) db
  unfolding write
  last_write f db a = record { moves = a }

  unchanged :
      {A : Type 0} (m : M A) (db : Db)
      → (m db).1.emergency_access ≡ db.emergency_access
      → Lawful env who j m db
  unchanged m db e = record { moves = kept e }

  pub last_pure : {A : Type 0} (a : A) (db : Db) → Lawful env who j (pure a) db
  unfolding pure
  last_pure a db = unchanged _ db refl

  pub last_send : (mail : Mail) (db : Db) → Lawful env who j (send env mail) db
  last_send mail db = unchanged (send env mail) db (ground arith)

  pub last_mail :
      {A : Type 0} (test : Bool) (mail : Mail) (a : A) (db : Db)
      → Lawful env who j (when test (send env mail) >> pure a) db
  unfolding ◌>>◌ ◌>>=◌ when pure
  last_mail true mail a db = unchanged _ db (ground arith)
  last_mail false mail a db = unchanged _ db refl

  -- a step that leaves the table alone
  pub after_quiet :
      {A B : Type 0} (m : M A) (k : A → M B) (db : Db)
      → (m db).1.emergency_access ≡ db.emergency_access
      → ((a : A) (db' : Db)
          → db'.emergency_access ≡ db.emergency_access
          → Lawful env who j (k a) db')
      → Lawful env who j (m >>= k) db
  unfolding ◌>>=◌
  after_quiet m k db same h = record { moves = continued (m db).0 (m db).1 same }
    where
      continued :
          (a : Result Error _) (db' : Db)
          → db'.emergency_access ≡ db.emergency_access
          → Moves env who j db (continue a k db').1
      continued (err e) db' q = kept q
      continued (ok a) db' q = in_turn (kept q) (h a db' q).moves

  pub after_then :
      {A : Type 0} (m : M (Unit {0})) (k : M A) (db : Db)
      → Lawful env who j m db
      → Lawful env who j k (m db).1
      → Lawful env who j (m >> k) db
  unfolding ◌>>◌ ◌>>=◌
  after_then m k db l h = record { moves = in_turn l.moves (continued (m db).0 (m db).1 h) }
    where
      continued :
          (a : Result Error (Unit {0})) (db' : Db)
          → Lawful env who j k db'
          → Moves env who j db' (continue a (λ _. k) db').1
      continued (err e) db' l' = kept refl
      continued (ok a) db' l' = l'.moves

  pub in_either :
      {A : Type 0} (test : Bool) (m k : M A) (db : Db)
      → Lawful env who j m db
      → Lawful env who j k db
      → Lawful env who j (if test then m else k) db
  in_either true m k db a b = a
  in_either false m k db a b = b

  pub in_when :
      (test : Bool) (m : M (Unit {0})) (db : Db)
      → Lawful env who j m db
      → Lawful env who j (when test m) db
  unfolding when
  in_when true m db a = a
  in_when false m db a = last_pure tt db

module _ {env : Env} {who : Actor} (j : ℕ) where
  -- a save of a row that was `o`
  pub saved :
      (o : Option EmergencyAccess) (r' : EmergencyAccess) (db : Db)
      → find_ea r'.uuid db.emergency_access ≡ o
      → Change env who o (some (record r' { updated_at = env.now }))
      → Moves env who j db (save env r' db)
  unfolding save
  saved o r' db e u =
      let put_is =
        find-put (λ x. x.uuid) j (record r' { updated_at = env.now }) db.emergency_access in
      record {
        changes = elim (Bool-cases (r'.uuid == j)) [
          | inl same ↦
              congruent
                (ap (λ n. find_ea n db.emergency_access) (sym ((==_iff r'.uuid j).0 same)) ∙ e)
                (put_is ∙ rw same) (more u (stays _))
          | inr other ↦ congruent refl (put_is ∙ rw other) (stays (row j db))
        ];
        unique = Unique-put (λ x. x.uuid) (record r' { updated_at = env.now }) db.emergency_access;
      }

  pub deleted :
      (r : EmergencyAccess) (db : Db)
      → find_ea r.uuid db.emergency_access ≡ some r
      → Change env who (some r) none
      → Moves env who j db (delete env r db)
  unfolding delete remove
  deleted r db e u =
      let remove_is = find-remove (λ x. x.uuid) j r.uuid db.emergency_access in
      record {
        changes = elim (Bool-cases (r.uuid == j)) [
          | inl same ↦
              congruent
                (ap (λ n. find_ea n db.emergency_access) (sym ((==_iff r.uuid j).0 same)) ∙ e)
                (remove_is ∙ rw same) (more u (stays _))
          | inr other ↦ congruent refl (remove_is ∙ rw other) (stays (row j db))
        ];
        unique = Unique-keep_if (λ x. x.uuid) _ db.emergency_access;
      }

-- the row that a query by key and test has found
pub checked :
    (id : ℕ) (test : EmergencyAccess → Bool) (t : List EmergencyAccess) (r : EmergencyAccess)
    → check test (find_ea id t) ≡ some r
    → (find_ea r.uuid t ≡ some r) × (test r ≡ true)
checked = find-check (λ x. x.uuid)

pub opt_eq-some : (o : Option ℕ) (n : ℕ) → opt_eq o n ≡ true → o ≡ some n
opt_eq-some o n h = ground arith

pub status_is : (a b : EmergencyAccessStatus) → is_status a b ≡ true → a ≡ b
status_is a b h = ground arith
