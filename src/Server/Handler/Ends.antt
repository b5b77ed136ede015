-- ===== src/Server/Handler/Ends.antt =====
-- What holds of the state that a handler leaves, by its steps.
use nad_safe_password_manage.Prelude.{
  ◌≡◌, refl, Bool, true, false, Option, none, some, List, [], ◌∷◌, Result, ok, err, if◌then◌else◌,
}
use nad_safe_password_manage.Server.Handler.{
  Handler, pure, gets, some_or, write, require, continue, when, for_each, attempt, bulk, ◌>>=◌,
  ◌>>◌,
}

pub record Ends {Db E A : Type 0} (P : Db → Type 0) (m : Handler Db E A) (db : Db) : Type 0 where
  pub holds : P (m db).1

continue_assoc :
    {Db E A B C : Type 0} (r : Result E A) (k : A → Handler Db E B) (l : B → Handler Db E C)
    (d : Db)
    → continue (continue r k d).0 l (continue r k d).1 ≡ continue r (λ a. k a >>= l) d
unfolding ◌>>=◌
continue_assoc (ok a) k l d = refl
continue_assoc (err e) k l d = refl

module _ {Db E : Type 0} {P : Db → Type 0} where
  pub after_require :
      {B : Type 0} (test : Bool) (e : E) (k : Handler Db E B) (db : Db)
      → P db
      → (test ≡ true → Ends P k db)
      → Ends P (require test e >> k) db
  unfolding ◌>>◌ ◌>>=◌ require
  after_require true e k db p h = record { holds = (h refl).holds }
  after_require false e k db p h = record { holds = p }

  pub after_some_or :
      {A B : Type 0} (e : E) (o : Option A) (k : A → Handler Db E B) (db : Db)
      → P db
      → ((a : A) → o ≡ some a → Ends P (k a) db)
      → Ends P (some_or e o >>= k) db
  unfolding ◌>>=◌ some_or
  after_some_or e none k db p h = record { holds = p }
  after_some_or e (some a) k db p h = record { holds = (h a refl).holds }

  pub after_gets :
      {A B : Type 0} (f : Db → A) (k : A → Handler Db E B) (db : Db)
      → Ends P (k (f db)) db
      → Ends P (gets f >>= k) db
  unfolding ◌>>=◌ gets
  after_gets f k db h = record { holds = h.holds }

  pub after_pure :
      {A B : Type 0} (a : A) (k : A → Handler Db E B) (db : Db)
      → Ends P (k a) db
      → Ends P (pure a >>= k) db
  unfolding ◌>>=◌ pure
  after_pure a k db h = record { holds = h.holds }

  pub after_write :
      {B : Type 0} (f : Db → Db) (k : Handler Db E B) (db : Db)
      → Ends P k (f db)
      → Ends P (write f >> k) db
  unfolding ◌>>◌ ◌>>=◌ write
  after_write f k db h = record { holds = h.holds }

  pub last_write : (f : Db → Db) (db : Db) → P (f db) → Ends {E = E} P (write f) db
  unfolding write
  last_write f db p = record { holds = p }

  pub last_pure : {A : Type 0} (a : A) (db : Db) → P db → Ends {E = E} P (pure a) db
  unfolding pure
  last_pure a db p = record { holds = p }

  -- a step whose state satisfies `Q`, which is enough where it stops
  pub after_step :
      {A B : Type 0} (Q : Db → Type 0) (m : Handler Db E A) (k : A → Handler Db E B) (db : Db)
      → Ends Q m db
      → ((d : Db) → Q d → P d)
      → ((a : A) (d : Db) → Q d → Ends P (k a) d)
      → Ends P (m >>= k) db
  unfolding ◌>>=◌
  after_step Q m k db q stop h = record { holds = continued (m db).0 (m db).1 q.holds }
    where
      continued : (r : Result E _) (d : Db) → Q d → P (continue r k d).1
      continued (err e) d q = stop d q
      continued (ok a) d q = (h a d q).holds

  -- the steps of a first part, one by one
  pub in_turn :
      {A B C : Type 0} (m : Handler Db E A) (k : A → Handler Db E B) (l : B → Handler Db E C)
      (db : Db)
      → Ends P (m >>= λ a. k a >>= l) db
      → Ends P ((m >>= k) >>= l) db
  unfolding ◌>>=◌
  in_turn m k l db h = record { holds = rw (continue_assoc (m db).0 k l (m db).1) h.holds }

  pub after_then :
      {B : Type 0} (Q : Db → Type 0) (m : Handler Db E (Unit {0})) (k : Handler Db E B) (db : Db)
      → Ends Q m db
      → ((d : Db) → Q d → P d)
      → ((d : Db) → Q d → Ends P k d)
      → Ends P (m >> k) db
  unfolding ◌>>◌
  after_then Q m k db q stop h = record {
    holds = (after_step Q m (λ _. k) db q stop (λ _. h)).holds;
  }

  pub in_either :
      {A : Type 0} (test : Bool) (m k : Handler Db E A) (db : Db)
      → (test ≡ true → Ends P m db)
      → (test ≡ false → Ends P k db)
      → Ends P (if test then m else k) db
  in_either true m k db a b = a refl
  in_either false m k db a b = b refl

  pub in_when :
      (test : Bool) (m : Handler Db E (Unit {0})) (db : Db)
      → P db
      → (test ≡ true → Ends P m db)
      → Ends P (when test m) db
  unfolding when
  in_when true m db p a = a refl
  in_when false m db p a = last_pure tt db p

  pub in_for_each :
      {A : Type 0} (list : List A) (f : A → Handler Db E (Unit {0})) (db : Db)
      → P db
      → ((a : A) (d : Db) → P d → Ends P (f a) d)
      → Ends P (for_each list f) db
  in_for_each [] f db p h = last_pure tt db p
  in_for_each (a ∷ list) f db p h =
      after_then P (f a) (for_each list f) db (h a db p) (λ d q. q)
        (λ d q. in_for_each list f d q h)

  pub in_attempt : {A : Type 0} (m : Handler Db E A) (db : Db) → Ends P m db → Ends P (attempt m) db
  unfolding attempt
  in_attempt m db h = record { holds = h.holds }

  pub in_bulk :
      {A : Type 0} (f : A → Handler Db E (Unit {0})) (list : List A) (db : Db)
      → P db
      → ((a : A) (d : Db) → P d → Ends P (f a) d)
      → Ends P (bulk f list) db
  in_bulk f [] db p h = last_pure [] db p
  in_bulk f (a ∷ list) db p h =
      after_step P (attempt (f a)) _ db (in_attempt (f a) db (h a db p)) (λ d q. q)
        (λ error d q.
          after_step P (bulk f list) _ d (in_bulk f list d q h) (λ _ p'. p')
            (λ rest d' p'. last_pure ((a, error) ∷ rest) d' p'))
