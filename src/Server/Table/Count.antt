-- ===== src/Server/Table/Count.antt =====
-- How many rows of a table pass a test, and whether all do, after a query.
use nad_safe_password_manage.Prelude.{
  ℕ, ◌+◌, ◌≡◌, refl, sym, ap, ◌∙◌, Bool, true, none, some, List, [], ◌∷◌, ◌==◌, ==_iff, keep_if,
  count_if, every, every-cons, if◌then◌else◌, arith, Bool-cases, inl, inr,
}
use nad_safe_password_manage.Server.Table.{find, put, remove, Unique}

module _ {ℓ} {A : Type ℓ} (key : A → ℕ) (test : A → Bool) where
  abbrev pub bit : A → ℕ
  bit a = if test a then 1 else 0

  pub count_if-put :
      (r : A) {old : A} (t : List A)
      → find key (key r) t ≡ some old
      → count_if test (put key r t) + bit old ≡ count_if test t + bit r
  unfolding find put
  count_if-put r [] e = cc
  count_if-put r {old} (x ∷ t) e = elim (Bool-cases (key x == key r)) [
    | inl same ↦ let is_old : x ≡ old = ground arith in rw same (ground (arith, ap bit is_old))
    | inr other ↦ let rest = count_if-put r t (rw other at e) in rw other (ground (arith, rest))
  ]

  pub count_if-put_new :
      (r : A) (t : List A)
      → find key (key r) t ≡ none
      → count_if test (put key r t) ≡ count_if test t + bit r
  unfolding find put
  count_if-put_new r [] e = ground arith
  count_if-put_new r (x ∷ t) e = elim (Bool-cases (key x == key r)) [
    | inl same ↦ ground arith
    | inr other ↦ let rest = count_if-put_new r t (rw other at e) in rw other (ground (arith, rest))
  ]

  remove-none : (id : ℕ) (t : List A) → find key id t ≡ none → remove key id t ≡ t
  unfolding find remove
  remove-none id [] e = refl
  remove-none id (x ∷ t) e = ground (arith, remove-none id t)

  pub count_if-remove :
      (id : ℕ) {r : A} (t : List A)
      → Unique key t
      → find key id t ≡ some r
      → count_if test (remove key id t) + bit r ≡ count_if test t
  unfolding find remove Unique
  count_if-remove id [] u e = cc
  count_if-remove id {r} (x ∷ t) (absent, u) e = elim (Bool-cases (key x == id)) [
    | inl same ↦
        let is_r : x ≡ r = ground arith in
        let gone : find key id t ≡ none =
          ap (λ n. find key n t) (sym ((==_iff (key x) id).0 same)) ∙ absent in
        rw same (ground (arith, ap bit is_r, ap (count_if test) (remove-none id t gone)))
    | inr other ↦
        let rest = count_if-remove id t u (rw other at e) in rw other (ground (arith, rest))
  ]

  pub every-put :
      (r : A) (t : List A) → every test t ≡ true → test r ≡ true → every test (put key r t) ≡ true
  unfolding put
  every-put r [] h hr = ground arith
  every-put r (x ∷ t) h hr =
      let (hx, ht) = every-cons test x t h in ground (arith, every-put r t ht hr)

  pub every-find :
      (id : ℕ) {r : A} (t : List A) → every test t ≡ true → find key id t ≡ some r → test r ≡ true
  unfolding find
  every-find id [] h e = cc
  every-find id {r} (x ∷ t) h e =
      let (hx, ht) = every-cons test x t h in
      elim (Bool-cases (key x == id)) [
        | inl same ↦ let is_r : x ≡ r = ground arith in ap test (sym is_r) ∙ hx
        | inr other ↦ every-find id t ht (rw other at e)
      ]

module _ {ℓ} {A : Type ℓ} where
  pub every_kept :
      (test kept : A → Bool) (t : List A) → every test t ≡ true → every test (keep_if kept t) ≡ true
  every_kept test kept [] h = refl
  every_kept test kept (x ∷ t) h =
      let (hx, ht) = every-cons test x t h in ground (arith, every_kept test kept t ht)
