-- ===== src/Crypto/PasswordGen/Required.antt =====
-- The steps of the generator over any `Rng` with the documented behaviour: each of them ends, and
-- appends characters of its pool, as many as it is asked for.
use mathlib.Core.List.{append-nil, append_assoc}
use nad_safe_password_manage.Prelude.{
  ℕ, zero, suc, ◌-◌, ◌<◌, ◌≡◌, refl, ap, ◌∙◌, Bool, true, false, Option, some, [], ◌∷◌, ◌++◌, Bytes,
  ◌==◌, ltb, length, get_elem?, get_elem?-lt, every, every-append, length-append, if◌then◌else◌,
  arith, Bool-cases, inl, inr,
}
use nad_safe_password_manage.Crypto.PasswordGen.{
  Rng, RngLaws, contains, filter_ambiguous, uppercase, lowercase, digits, symbols, pick, push_loop,
  push_required, fill,
}

abbrev pub AllIn : Bytes → Bytes → Type 0
AllIn pool bytes = every (contains pool) bytes ≡ true

contains-get_elem? :
    (pool : Bytes) (i : ℕ) {b : ℕ} → get_elem? pool i ≡ some b → contains pool b ≡ true
contains-get_elem? [] i e = cc
contains-get_elem? (x ∷ pool) zero e = ground arith
contains-get_elem? (x ∷ pool) (suc i) e = ground (arith, contains-get_elem? pool i e)

pub AllIn-append : (pool a b : Bytes) → AllIn pool a → AllIn pool b → AllIn pool (a ++ b)
AllIn-append pool a b ha hb = rw (every-append (contains pool) a b) (rw ha hb)

module _ {S : Type 0} (rng : Rng S) (laws : RngLaws rng) where
  pub pick_total :
      (pool : Bytes) (s : S)
      → 0 < length pool
      → (b : ℕ) × (s' : S) × (pick rng pool s ≡ some (b, s')) × (contains pool b ≡ true)
  unfolding pick
  pick_total pool s h =
      let (b, found) =
        get_elem?-lt pool (rng.gen_range (length pool) s).0 (laws.gen_range-lt (length pool) s h) in
      let nonempty : (length pool == 0) ≡ false = ground arith in
      (
        b,
        (rng.gen_range (length pool) s).1,
        rw (nonempty, pick) (rw (found, pick)),
        contains-get_elem? pool _ found,
      )

  -- what a step has appended to `buf`
  abbrev Appends : Bytes → ℕ → Bytes → Option (Bytes × S) → Type 0
  Appends pool n buf result =
      (added : Bytes) × (s' : S) × (result ≡ some (buf ++ added, s'))
      × (length added ≡ n)
      × AllIn pool added

  push_loop_total :
      (pool : Bytes) (count : ℕ) (buf : Bytes) (s : S)
      → 0 < length pool
      → Appends pool count buf (push_loop rng pool count buf s)
  unfolding push_loop
  push_loop_total pool zero buf s h = ([], s, rw append-nil, refl, refl)
  push_loop_total pool (suc count) buf s h =
      let (b, s1, picked, member) = pick_total pool s h in
      let (added, s', pushed, len, all) = push_loop_total pool count (buf ++ b ∷ []) s1 h in
      let nonempty : (length pool == 0) ≡ false = ground arith in
      (
        b ∷ added,
        s',
        rw (nonempty, push_loop)
            (rw (picked, push_loop) (pushed ∙ rw (append_assoc buf (b ∷ []) added))),
        ap suc len,
        rw member all,
      )

  pub push_required_total :
      (enabled : Bool) (pool : Bytes) (avoid : Bool) (count : ℕ) (buf : Bytes) (s : S)
      → 0 < length (filter_ambiguous pool avoid)
      → Appends
          (filter_ambiguous pool avoid)
          (if enabled then count else 0)
          buf
          (push_required rng enabled pool avoid count buf s)
  unfolding push_required
  push_required_total true pool avoid count buf s h =
      push_loop_total (filter_ambiguous pool avoid) count buf s h
  push_required_total false pool avoid count buf s h = ([], s, rw append-nil, refl, refl)

  -- The loop ends within its rounds, at the length asked for.
  pub fill_total :
      (rounds : ℕ) (pool : Bytes) (len : ℕ) (password : Bytes) (s : S)
      → 0 < length pool
      → len - length password < rounds
      → Appends pool (len - length password) password (fill rng rounds pool len password s)
  unfolding fill
  fill_total zero pool len password s h r = absurd (omega arith)
  fill_total (suc rounds) pool len password s h r = elim (Bool-cases (ltb (length password) len)) [
    | inl more ↦
        let (b, s1, picked, member) = pick_total pool s h in
        let longer = length-append password (b ∷ []) in
        let short : length password < len = ground arith in
        let (added, s', filled, count, all) =
          fill_total rounds pool len (password ++ b ∷ []) s1 h (omega (arith, longer, short)) in
        (
          b ∷ added,
          s',
          rw (more, fill) (rw (picked, fill) (filled ∙ rw (append_assoc password (b ∷ []) added))),
          omega (arith, count, longer, short),
          rw member all,
        )
    | inr done ↦ ([], s, rw (done, fill) (rw append-nil), ground arith, refl)
  ]

-- every class has characters left without the ambiguous ones
pub pools_nonempty :
    (avoid : Bool)
    → (0 < length (filter_ambiguous uppercase avoid))
      × (0 < length (filter_ambiguous lowercase avoid))
      × (0 < length (filter_ambiguous digits avoid))
      × (0 < length (filter_ambiguous symbols avoid))
unfolding filter_ambiguous
pools_nonempty true = omega arith
pools_nonempty false = omega arith
