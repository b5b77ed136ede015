-- ===== src/Crypto/PasswordGen/Password.antt =====
-- What `generate_password` promises, for every configuration and every `Rng`.
use nad_safe_password_manage.Prelude.{
  ℕ, ◌+◌, ◌^◌, ◌<◌, ◌≤◌, ◌≡◌, sym, ap, ◌∙◌, Bool, true, false, not, Option, none, some, ◌++◌, Bytes,
  Str, Result, ok, err, ◌==◌, ltb, leb, length, if◌then◌else◌, Option-cases, every, count_if,
  count_if-append, count_if-every, length-append, every_mono, arith, Bool-cases, inl, inr, ◌||◌,
}
use nad_safe_password_manage.Prelude.Counts.{count_if-perm, length-perm, every-perm}
use nad_safe_password_manage.Crypto.PasswordGen.{
  PasswordConfig, GenError, no_charset, too_short, Rng, RngLaws, contains, uppercase, lowercase,
  digits, symbols, charset, Build, min_sum, min_total, build_password, generate_password,
}
use nad_safe_password_manage.Crypto.PasswordGen.Charset.{
  class_of, any_class, charset_nonempty, every-contains, is_unambiguous, charset_unambiguous,
}
use nad_safe_password_manage.Crypto.PasswordGen.Generated.{
  Satisfies, wanted, Parts, joined, Generated, generate_lem,
}

min_total_exact :
    (build : Build) (cfg : PasswordConfig)
    → min_sum cfg < 2 ^ 64
    → min_total build cfg ≡ some (min_sum cfg)
unfolding min_total
min_total_exact build cfg h = ground arith

length-joined :
    (cfg : PasswordConfig) (p : Parts cfg)
    → length (joined p)
      ≡ wanted cfg.uppercase cfg.min_uppercase
        + wanted cfg.lowercase cfg.min_lowercase
        + wanted cfg.numbers cfg.min_numbers
        + wanted cfg.symbols cfg.min_special
length-joined cfg p = omega (
  arith,
  length-append (((p.upper) ++ p.lower) ++ p.number) p.special,
  length-append ((p.upper) ++ p.lower) p.number,
  length-append p.upper p.lower,
  p.upper_is.0,
  p.lower_is.0,
  p.number_is.0,
  p.special_is.0,
)

wanted-le : (b : Bool) (n : ℕ) → wanted b n ≤ n
wanted-le b n = ground arith

-- a group's members are counted in the whole
count_joined :
    (q : ℕ → Bool) (cfg : PasswordConfig) (p : Parts cfg) (filling : Bytes)
    → count_if q (joined p ++ filling)
      ≡ count_if q p.upper
        + count_if q p.lower
        + count_if q p.number
        + count_if q p.special
        + count_if q filling
count_joined q cfg p filling = omega (
  arith,
  count_if-append q (joined p) filling,
  count_if-append q ((p.upper ++ p.lower) ++ p.number) p.special,
  count_if-append q (p.upper ++ p.lower) p.number,
  count_if-append q p.upper p.lower,
)

module _ {S : Type 0} (build : Build) (rng : Rng S) (cfg : PasswordConfig) (s : S)
    (g : Generated build rng cfg s) where
  counted :
      (q : ℕ → Bool) (part : Bytes) (n : ℕ)
      → length part ≡ n
      → every q part ≡ true
      → count_if q part ≤ count_if q (joined g.parts ++ g.filling)
      → n ≤ count_if q g.pw
  counted q part n l h k = omega (arith, count_if-perm q g.mixed, count_if-every q part h)

  length-made : min_sum cfg ≤ cfg.length → length (joined g.parts ++ g.filling) ≡ cfg.length
  length-made fits = omega (
    arith,
    length-append (joined g.parts) g.filling,
    g.filling_is,
    length-joined cfg g.parts,
    wanted-le cfg.uppercase cfg.min_uppercase,
    wanted-le cfg.lowercase cfg.min_lowercase,
    wanted-le cfg.numbers cfg.min_numbers,
    wanted-le cfg.symbols cfg.min_special,
  )

  satisfied : min_sum cfg ≤ cfg.length → Satisfies cfg g.pw
  satisfied fits = record {
    length_is = length-perm g.mixed ∙ length-made fits;
    in_charset = every-perm (contains (charset cfg)) g.mixed g.all_in;
    enough_uppercase =
        counted _ g.parts.upper _ g.parts.upper_is.0 g.parts.upper_is.1
          (omega (arith, count_joined (contains (class_of cfg uppercase)) cfg g.parts g.filling));
    enough_lowercase =
        counted _ g.parts.lower _ g.parts.lower_is.0 g.parts.lower_is.1
          (omega (arith, count_joined (contains (class_of cfg lowercase)) cfg g.parts g.filling));
    enough_numbers =
        counted _ g.parts.number _ g.parts.number_is.0 g.parts.number_is.1
          (omega (arith, count_joined (contains (class_of cfg digits)) cfg g.parts g.filling));
    enough_special =
        counted _ g.parts.special _ g.parts.special_is.0 g.parts.special_is.1
          (omega (arith, count_joined (contains (class_of cfg symbols)) cfg g.parts g.filling));
  }

abbrev pub refused : {S : Type 0} → Option (Result GenError Str × S) → Bool
refused none = false
refused (some (ok pw, s)) = false
refused (some (err e, s)) = true

abbrev pub panics : {S : Type 0} → Option (Result GenError Str × S) → Bool
panics none = true
panics (some r) = false

module _ {S : Type 0} (build : Build) (rng : Rng S) (laws : RngLaws rng) (cfg : PasswordConfig)
    (s : S) where
  -- the result, by what the guards find
  no_classes : any_class cfg ≡ false → generate_password rng build cfg s ≡ some (err no_charset, s)
  unfolding generate_password
  no_classes none_enabled =
      let empty : (length (charset cfg) == 0) ≡ true = ground (arith, charset_nonempty cfg) in
      rw empty

  has_classes : any_class cfg ≡ true → (length (charset cfg) == 0) ≡ false
  has_classes classes = ground (arith, charset_nonempty cfg)

  overflowing :
      any_class cfg ≡ true → min_total build cfg ≡ none → generate_password rng build cfg s ≡ none
  unfolding generate_password
  overflowing classes over = rw (has_classes classes) (rw (over, generate_password))

  guarded :
      (total : ℕ)
      → any_class cfg ≡ true
      → min_total build cfg ≡ some total
      → generate_password rng build cfg s ≡ (
          if ltb cfg.length total
          then some (err (too_short cfg.length), s)
          else build_password rng build cfg s)
  unfolding generate_password
  guarded total classes sum = rw (has_classes classes) (rw (sum, generate_password))

  made : any_class cfg ≡ true → Generated build rng cfg s
  made classes = generate_lem build rng laws cfg s (ground (arith, charset_nonempty cfg))

  accepted :
      any_class cfg ≡ true
      → min_sum cfg < 2 ^ 64
      → min_sum cfg ≤ cfg.length
      → cfg.length ≤ build.capacity
      → (g : Generated build rng cfg s) × (generate_password rng build cfg s
          ≡ some (ok g.pw, g.state))
  accepted classes exact fits room =
      let g = made classes in
      let long : ltb cfg.length (min_sum cfg) ≡ false = ground arith in
      let roomy : leb (length (joined g.parts ++ g.filling)) build.capacity ≡ true =
        rw (length-made build rng cfg s g fits) (ground arith) in
      (
        g,
        guarded (min_sum cfg) classes (min_total_exact build cfg exact)
            ∙ rw long (g.returned ∙ rw roomy),
      )

module _ {S : Type 0} (build : Build) (rng : Rng S) (laws : RngLaws rng) where
  -- If a class is enabled and the length, a `usize` up to which a vector can grow, is at least the
  -- sum of the four minimums, a password is returned: it has exactly the length, only characters
  -- of the enabled classes, and at least the minimum of each enabled class.
  pub generate_password-Satisfies :
      (cfg : PasswordConfig) (s : S)
      → any_class cfg ≡ true
      → min_sum cfg ≤ cfg.length
      → cfg.length < 2 ^ 64
      → cfg.length ≤ build.capacity
      → (pw : Str) × (s' : S) × (generate_password rng build cfg s ≡ some (ok pw, s'))
        × Satisfies cfg pw
  generate_password-Satisfies cfg s classes fits usize room =
      let (g, returned) = accepted build rng laws cfg s classes (omega arith) fits room in
      (g.pw, g.state, returned, satisfied build rng cfg s g fits)

  -- If the sum of the minimums does not overflow a `usize`, and a vector can grow to the length
  -- asked for, then generation does not panic, with overflow checks or without, whatever the random
  -- numbers; and it is refused exactly if no class is enabled or the length is below the sum.
  pub generate_password_outcome :
      (cfg : PasswordConfig) (s : S)
      → min_sum cfg < 2 ^ 64
      → cfg.length ≤ build.capacity
      → (panics (generate_password rng build cfg s) ≡ false)
        × (refused (generate_password rng build cfg s)
            ≡ (not (any_class cfg) || ltb cfg.length (min_sum cfg)))
  generate_password_outcome cfg s exact room = elim (Bool-cases (any_class cfg)) [
    | inr none_enabled ↦
        let e = no_classes build rng laws cfg s none_enabled in
        (ap panics e, ap refused e ∙ sym (rw none_enabled))
    | inl classes ↦ elim (Bool-cases (ltb cfg.length (min_sum cfg))) [
      | inl short ↦
          let choice =
            guarded build rng laws cfg s (min_sum cfg) classes (min_total_exact build cfg exact) in
          let e : generate_password rng build cfg s ≡ some (err (too_short cfg.length), s) =
            rw short at choice in
          (ap panics e, ap refused e ∙ sym (rw short (rw classes)))
      | inr long ↦
          let (g, e) = accepted build rng laws cfg s classes exact (ground arith) room in
          (ap panics e, ap refused e ∙ sym (rw classes (rw long)))
    ]
  ]

  unambiguous_made :
      (cfg : PasswordConfig) (s s' : S) (pw : Str)
      → cfg.avoid_ambiguous ≡ true
      → any_class cfg ≡ true
      → build_password rng build cfg s ≡ some (ok pw, s')
      → every is_unambiguous pw ≡ true
  unambiguous_made cfg s s' pw avoid classes e =
      let g = made build rng laws cfg s classes in
      let same : g.pw ≡ pw = ground (arith, g.returned) in
      rw same at (
        every-perm is_unambiguous g.mixed (
          every_mono (contains (charset cfg)) is_unambiguous _
            (λ b. every-contains is_unambiguous (charset cfg) b (charset_unambiguous cfg avoid))
            g.all_in))

  -- With `avoid_ambiguous`, no returned password holds one of the characters of `Il1O0`.
  pub generate_password_unambiguous :
      (cfg : PasswordConfig) (s s' : S) (pw : Str)
      → cfg.avoid_ambiguous ≡ true
      → generate_password rng build cfg s ≡ some (ok pw, s')
      → every is_unambiguous pw ≡ true
  generate_password_unambiguous cfg s s' pw avoid e = elim (Bool-cases (any_class cfg)) [
    | inr none_enabled ↦
        let clash : true ≡ false =
          ap refused (sym (no_classes build rng laws cfg s none_enabled) ∙ e) in
        cc
    | inl classes ↦ elim (Option-cases (min_total build cfg)) [
      | inl over ↦
          let clash : true ≡ false =
            ap panics (sym (overflowing build rng laws cfg s classes over) ∙ e) in
          cc
      | inr (total, sum) ↦
          let is = sym (guarded build rng laws cfg s total classes sum) ∙ e in
          elim (Bool-cases (ltb cfg.length total)) [
            | inl short ↦
                let refusal : some (err (too_short cfg.length), s) ≡ some (ok pw, s') =
                  rw short at is in
                let clash : true ≡ false = ap refused refusal in cc
            | inr long ↦ unambiguous_made cfg s s' pw avoid classes (rw long at is)
          ]
    ]
  ]
