-- ===== src/Server/Table.antt =====
-- A database table with a primary key: a list of rows, and what the queries by key do to it.
pub mod Count
use nad_safe_password_manage.Prelude.{
  ℕ, ◌≡◌, refl, Bool, true, false, not, Option, none, some, List, [], ◌∷◌, ◌==◌, ==_iff, ==_refl,
  sym, ap, ◌∙◌, keep_if, if◌then◌else◌, arith, Bool-cases, inl, inr,
}

abbrev pub map_option {ℓ κ} : {A : Type ℓ} {B : Type κ} → (A → B) → Option A → Option B
map_option f none = none
map_option f (some a) = some (f a)

-- `filter(test).first()` among rows that the key has singled out
abbrev pub check {ℓ} : {A : Type ℓ} → (A → Bool) → Option A → Option A
check test none = none
check test (some a) = if test a then some a else none

pub check-some {ℓ} :
    {A : Type ℓ} (test : A → Bool) (o : Option A) (r : A)
    → check test o ≡ some r
    → (o ≡ some r) × (test r ≡ true)
check-some test none r e = cc
check-some test (some x) r e = elim (Bool-cases (test x)) [
  | inl holds ↦ let same : x ≡ r = ground arith in (ap some same, ap test (sym same) ∙ holds)
  | inr fails ↦ ground arith
]

-- `.first()`
abbrev pub first {ℓ} : {A : Type ℓ} → List A → Option A
first [] = none
first (x ∷ xs) = some x

module _ {ℓ} {A : Type ℓ} (key : A → ℕ) where
  unfoldable pub find : ℕ → List A → Option A
  find id [] = none
  find id (r ∷ t) = if key r == id then some r else find id t

  -- `replace_into`, `on_conflict(key).do_update()`
  unfoldable pub put : A → List A → List A
  put r [] = r ∷ []
  put r (x ∷ t) = if key x == key r then r ∷ t else x ∷ put r t

  -- `update(table.filter(key.eq(id))).set(..)`
  unfoldable pub modify : ℕ → (A → A) → List A → List A
  modify id f [] = []
  modify id f (x ∷ t) = (if key x == id then f x else x) ∷ modify id f t

  -- `delete(table.filter(key.eq(id)))`
  unfoldable pub remove : ℕ → List A → List A
  remove id = keep_if (λ x. not (key x == id))

  pub key-find : (id : ℕ) (t : List A) {r : A} → find id t ≡ some r → key r ≡ id
  unfolding find
  key-find id [] e = cc
  key-find id (x ∷ t) e = elim (Bool-cases (key x == id)) [
    | inl same ↦ ground arith
    | inr other ↦ key-find id t (rw other at e)
  ]

  pub find-put :
      (j : ℕ) (r : A) (t : List A) → find j (put r t) ≡ (if key r == j then some r else find j t)
  unfolding find put
  find-put j r [] = refl
  find-put j r (x ∷ t) = ground (arith, find-put j r t)

  pub find-modify :
      (j id : ℕ) (f : A → A) (t : List A)
      → ((x : A) → key (f x) ≡ key x)
      → find j (modify id f t) ≡ (if id == j then map_option f (find j t) else find j t)
  unfolding find modify
  find-modify j id f [] h = ground arith
  find-modify j id f (x ∷ t) h = ground (arith, h x, find-modify j id f t h)

  pub find-remove :
      (j id : ℕ) (t : List A) → find j (remove id t) ≡ (if id == j then none else find j t)
  unfolding find remove
  find-remove j id [] = ground arith
  find-remove j id (x ∷ t) = ground (arith, find-remove j id t)

  -- no two rows have the same key
  unfoldable pub Unique : List A → Type ℓ
  Unique [] = Unit {ℓ}
  Unique (x ∷ t) = (find (key x) t ≡ none) × Unique t

  -- The rows of a list are rows of the table, each under its own key.
  unfoldable pub Rows : List A → List A → Type ℓ
  Rows [] t = Unit {ℓ}
  Rows (r ∷ rs) t = (find (key r) t ≡ some r) × (find (key r) rs ≡ none) × Rows rs t

  find-keep_if :
      (id : ℕ) (test : A → Bool) (t : List A) → find id t ≡ none → find id (keep_if test t) ≡ none
  unfolding find
  find-keep_if id test [] e = refl
  find-keep_if id test (x ∷ t) e = ground (arith, find-keep_if id test t)

  -- what a row of the tail is found as in the whole
  find-tail :
      (id : ℕ) (x : A) (t : List A) (r : A)
      → find (key x) t ≡ none
      → find id t ≡ some r
      → find id (x ∷ t) ≡ some r
  unfolding find
  find-tail id x t r absent found = elim (Bool-cases (key x == id)) [
    | inl same ↦
        let clash : none ≡ some r =
          sym absent ∙ ap (λ n. find n t) ((==_iff (key x) id).0 same) ∙ found in
        cc
    | inr other ↦ rw other found
  ]

  find-head : (x : A) (t : List A) → find (key x) (x ∷ t) ≡ some x
  unfolding find
  find-head x t = rw (==_refl (key x))

  find-none :
      (id : ℕ) (r : A) (t : List A)
      → find id (r ∷ t) ≡ none
      → ((id == key r) ≡ false) × (find id t ≡ none)
  unfolding find
  find-none id r t e = ground arith

  Rows-part :
      (test : A → Bool) (t whole : List A)
      → Unique t
      → ((id : ℕ) (r : A) → find id t ≡ some r → find id whole ≡ some r)
      → Rows (keep_if test t) whole
  unfolding Rows Unique
  Rows-part test [] whole u h = tt
  Rows-part test (x ∷ t) whole (absent, u) h =
      let tail = Rows-part test t whole u (λ id r e. h id r (find-tail id x t r absent e)) in
      elim (Bool-cases (test x)) [
        | inl kept ↦ rw kept (h (key x) x (find-head x t), find-keep_if (key x) test t absent, tail)
        | inr dropped ↦ rw dropped tail
      ]

  -- the rows that a query selects
  pub Rows-keep_if : (test : A → Bool) (t : List A) → Unique t → Rows (keep_if test t) t
  Rows-keep_if test t u = Rows-part test t t u (λ id r e. e)

  -- what changes no other row changes none of these
  pub Rows-other :
      (id : ℕ) (rs t t' : List A)
      → find id rs ≡ none
      → ((j : ℕ) → (id == j) ≡ false → find j t' ≡ find j t)
      → Rows rs t
      → Rows rs t'
  unfolding Rows find
  Rows-other id [] t t' absent same h = tt
  Rows-other id (r ∷ rs) t t' absent same (found, alone, rest) =
      let (other, absent') = find-none id r rs absent in
      (same (key r) other ∙ found, alone, Rows-other id rs t t' absent' same rest)

  pub Rows-modify :
      (id : ℕ) (f : A → A) (rs t : List A)
      → ((x : A) → key (f x) ≡ key x)
      → find id rs ≡ none
      → Rows rs t
      → Rows rs (modify id f t)
  Rows-modify id f rs t keeps absent =
      Rows-other id rs t (modify id f t) absent
        (λ j other. find-modify j id f t keeps ∙ rw other refl)

  pub Unique-keep_if : (test : A → Bool) (t : List A) → Unique t → Unique (keep_if test t)
  unfolding Unique
  Unique-keep_if test [] u = tt
  Unique-keep_if test (x ∷ t) (absent, u) =
      let rest = Unique-keep_if test t u in
      elim (Bool-cases (test x)) [
        | inl kept ↦ rw kept (find-keep_if (key x) test t absent, rest)
        | inr dropped ↦ rw dropped rest
      ]

  pub Unique-put : (r : A) (t : List A) → Unique t → Unique (put r t)
  unfolding Unique put find
  Unique-put r [] u = (refl, tt)
  Unique-put r (x ∷ t) (absent, u) = elim (Bool-cases (key x == key r)) [
    | inl same ↦ rw same (ap (λ n. find n t) (sym ((==_iff (key x) (key r)).0 same)) ∙ absent, u)
    | inr other ↦
        let other' : (key r == key x) ≡ false = ground arith in
        rw other (find-put (key x) r t ∙ rw other' absent, Unique-put r t u)
  ]

  pub Unique-modify :
      (id : ℕ) (f : A → A) (t : List A)
      → ((x : A) → key (f x) ≡ key x)
      → Unique t
      → Unique (modify id f t)
  unfolding Unique modify
  Unique-modify id f [] keeps u = tt
  Unique-modify id f (x ∷ t) keeps (absent, u) =
      let still : find (key x) (modify id f t) ≡ none =
        find-modify (key x) id f t keeps ∙ rw absent (ground arith) in
      let same_key : key (if key x == id then f x else x) ≡ key x = ground (arith, keeps x) in
      (ap (λ n. find n (modify id f t)) same_key ∙ still, Unique-modify id f t keeps u)

  -- the row that a query by key and test has found
  pub find-check :
      (id : ℕ) (test : A → Bool) (t : List A) (r : A)
      → check test (find id t) ≡ some r
      → (find (key r) t ≡ some r) × (test r ≡ true)
  find-check id test t r e =
      let (found, holds) = check-some test (find id t) r e in
      (ap (λ n. find n t) (key-find id t found) ∙ found, holds)

  -- what `filter(..).first()` has found
  pub find-first :
      (test : A → Bool) (t : List A) {r : A}
      → Unique t
      → first (keep_if test t) ≡ some r
      → (find (key r) t ≡ some r) × (test r ≡ true)
  unfolding Unique
  find-first test [] u e = cc
  find-first test (x ∷ t) {r} (absent, u) e = elim (Bool-cases (test x)) [
    | inl holds ↦
        let is_r : x ≡ r = ground arith in
        (rw (sym is_r) (find-head x t), ap test (sym is_r) ∙ holds)
    | inr fails ↦
        let (found, holds) = find-first test t u (rw fails at e) in
        (find-tail (key r) x t r absent found, holds)
  ]
