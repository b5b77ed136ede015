-- ===== src/Server/Handler.antt =====
-- A request handler: it may stop with an error, and what it has written before stays written.
pub mod Ends
use nad_safe_password_manage.Prelude.{
  ◌≡◌, refl, ap, Bool, true, false, Option, none, some, List, [], ◌∷◌, Result, ok, err,
}

abbrev pub Handler {ℓ} : Type ℓ → Type ℓ → Type ℓ → Type ℓ
Handler Db E A = Db → Result E A × Db

module _ {ℓ} {Db E A : Type ℓ} where
  unfoldable pub pure : A → Handler Db E A
  pure a db = (ok a, db)

  -- `err!`
  unfoldable pub fail : E → Handler Db E A
  fail e db = (err e, db)

  unfoldable pub gets : (Db → A) → Handler Db E A
  gets f db = (ok (f db), db)

  -- `let Some(a) = e else { err! }`
  unfoldable pub some_or : E → Option A → Handler Db E A
  some_or e none db = (err e, db)
  some_or e (some a) db = (ok a, db)

unfoldable pub write {ℓ} : {Db E : Type ℓ} → (Db → Db) → Handler Db E (Unit {ℓ})
write f db = (ok tt, f db)

-- `if !test { err! }`
unfoldable pub require {ℓ} : {Db E : Type ℓ} → Bool → E → Handler Db E (Unit {ℓ})
require true e db = (ok tt, db)
require false e db = (err e, db)

abbrev pub continue {ℓ} : {Db E A B : Type ℓ} → Result E A → (A → Handler Db E B) → Handler Db E B
continue (ok a) f db = f a db
continue (err e) f db = (err e, db)

infixl 5 ◌>>=◌ ◌>>◌
unfoldable pub ◌>>=◌ {ℓ} :
    {Db E A B : Type ℓ} → Handler Db E A → (A → Handler Db E B) → Handler Db E B
◌>>=◌ m f db = let (r, db') = m db in continue r f db'

unfoldable pub ◌>>◌ {ℓ} : {Db E A B : Type ℓ} → Handler Db E A → Handler Db E B → Handler Db E B
m >> k = m >>= λ _. k

-- `if test { m }`
unfoldable pub when {ℓ} : {Db E : Type ℓ} → Bool → Handler Db E (Unit {ℓ}) → Handler Db E (Unit {ℓ})
when true m = m
when false m = pure tt

-- `for a in list { f(a)? }`
abbrev pub for_each :
    {Db E A : Type 0} → List A → (A → Handler Db E (Unit {0})) → Handler Db E (Unit {0})
for_each [] f = pure tt
for_each (a ∷ list) f = f a >> for_each list f

abbrev error_of : {E A : Type 0} → Result E A → Option E
error_of (ok a) = none
error_of (err e) = some e

-- `match m { Ok(..) => .., Err(e) => .. }`: the error is a value, and nothing stops.
unfoldable pub attempt : {Db E A : Type 0} → Handler Db E A → Handler Db E (Option E)
attempt m db = let (r, db') = m db in (ok (error_of r), db')

-- what a bulk request answers: each item with its error
abbrev pub bulk :
    {Db E A : Type 0} → (A → Handler Db E (Unit {0})) → List A → Handler Db E (List (A × Option E))
bulk f [] = pure []
bulk f (a ∷ list) = do error ← attempt (f a); rest ← bulk f list; pure ((a, error) ∷ rest)

-- what a handler that succeeds has passed
module _ {Db E A B : Type 0} {b : B} {db db' : Db} where
  pub gets-ok :
      (f : Db → A) (k : A → Handler Db E B)
      → (gets f >>= k) db ≡ (ok b, db')
      → k (f db) db ≡ (ok b, db')
  unfolding ◌>>=◌ gets
  gets-ok f k h = h

  pub some_or-ok :
      (e : E) (o : Option A) (k : A → Handler Db E B)
      → (some_or e o >>= k) db ≡ (ok b, db')
      → (a : A) × (o ≡ some a) × (k a db ≡ (ok b, db'))
  unfolding ◌>>=◌ some_or
  some_or-ok e none k h = cc (ap (λ p. p.0) h)
  some_or-ok e (some a) k h = (a, refl, h)

module _ {Db E B : Type 0} {b : B} {db db' : Db} where
  pub require-ok :
      (test : Bool) (e : E) (k : Handler Db E B)
      → (require test e >> k) db ≡ (ok b, db')
      → (test ≡ true) × (k db ≡ (ok b, db'))
  unfolding ◌>>◌ ◌>>=◌ require
  require-ok true e k h = (refl, h)
  require-ok false e k h = cc (ap (λ p. p.0) h)

  pub write-ok :
      (f : Db → Db) (k : Handler Db E B) → (write f >> k) db ≡ (ok b, db') → k (f db) ≡ (ok b, db')
  unfolding ◌>>◌ ◌>>=◌ write
  write-ok f k h = h

pub pure-ok :
    {Db E A : Type 0} {a b : A} {db db' : Db}
    → pure {E = E} a db ≡ (ok b, db')
    → (a ≡ b) × (db ≡ db')
unfolding pure
pure-ok h = (cc (ap (λ p. p.0) h), ap (λ p. p.1) h)

module _ {Db E B : Type 0} {b : B} {db' : Db} where
  continue-ok :
      (a : Result E (Unit {0})) (k : Handler Db E B) (d : Db)
      → continue a (λ _. k) d ≡ (ok b, db')
      → (a ≡ ok tt) × (k d ≡ (ok b, db'))
  continue-ok (ok a) k d h = (refl, h)
  continue-ok (err e) k d h = cc (ap (λ p. p.0) h)

  pub then-ok :
      (m : Handler Db E (Unit {0})) (k : Handler Db E B) (db : Db)
      → (m >> k) db ≡ (ok b, db')
      → (m db ≡ (ok tt, (m db).1)) × (k (m db).1 ≡ (ok b, db'))
  unfolding ◌>>◌ ◌>>=◌
  then-ok m k db h =
      let (succeeds, rest) = continue-ok (m db).0 k (m db).1 h in
      (ap (λ a. (a, (m db).1)) succeeds, rest)

pub last_write-ok :
    {Db E : Type 0} {b : Unit {0}} {db db' : Db} (f : Db → Db)
    → write {E = E} f db ≡ (ok b, db')
    → f db ≡ db'
unfolding write
last_write-ok f h = ap (λ p. p.1) h

pub last_require-ok :
    {Db E : Type 0} {db db' : Db} (test : Bool) (e : E)
    → require test e db ≡ (ok tt, db')
    → (test ≡ true) × (db ≡ db')
unfolding require
last_require-ok true e h = (refl, ap (λ p. p.1) h)
last_require-ok false e h = cc (ap (λ p. p.0) h)
