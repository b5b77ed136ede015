-- ===== src/Crypto/PasswordGen/Generated.antt =====
-- What `generate_password` returns, for every configuration.
use mathlib.Core.List.{Perm}
use nad_safe_password_manage.Prelude.{
  ℕ, ◌+◌, ◌-◌, ◌<◌, ◌≤◌, ◌≡◌, refl, Bool, true, false, some, [], ◌∷◌, ◌++◌, Bytes, Str, ok, ltb,
  length, every, every_mono, count_if, if◌then◌else◌, arith,
}
use nad_safe_password_manage.Prelude.Counts.{every-perm}
use nad_safe_password_manage.Crypto.PasswordGen.{
  PasswordConfig, Rng, RngLaws, contains, uppercase, lowercase, digits, symbols, charset, Build,
  grown, required, from_ascii, build_password,
}
use nad_safe_password_manage.Crypto.PasswordGen.Required.{
  AllIn, AllIn-append, push_required_total, fill_total, pools_nonempty,
}
use nad_safe_password_manage.Crypto.PasswordGen.Charset.{
  class_of, in_uppercase, in_lowercase, in_digits, in_symbols, every-contains, charset-ascii,
}

abbrev pub wanted : Bool → ℕ → ℕ
wanted enabled n = if enabled then n else 0

-- A password has the length asked for, only characters of the enabled classes, and of every
-- enabled class at least the number asked for.
pub record Satisfies (cfg : PasswordConfig) (pw : Str) : Type 0 where
  pub length_is : length pw ≡ cfg.length
  pub in_charset : every (contains (charset cfg)) pw ≡ true
  pub enough_uppercase :
      wanted cfg.uppercase cfg.min_uppercase ≤ count_if (contains (class_of cfg uppercase)) pw
  pub enough_lowercase :
      wanted cfg.lowercase cfg.min_lowercase ≤ count_if (contains (class_of cfg lowercase)) pw
  pub enough_numbers :
      wanted cfg.numbers cfg.min_numbers ≤ count_if (contains (class_of cfg digits)) pw
  pub enough_special :
      wanted cfg.symbols cfg.min_special ≤ count_if (contains (class_of cfg symbols)) pw

-- the bytes before the shuffle, in their groups
pub record Parts (cfg : PasswordConfig) : Type 0 where
  pub upper : Bytes
  pub lower : Bytes
  pub number : Bytes
  pub special : Bytes
  pub upper_is :
      (length upper ≡ wanted cfg.uppercase cfg.min_uppercase) × AllIn (class_of cfg uppercase) upper
  pub lower_is :
      (length lower ≡ wanted cfg.lowercase cfg.min_lowercase) × AllIn (class_of cfg lowercase) lower
  pub number_is :
      (length number ≡ wanted cfg.numbers cfg.min_numbers) × AllIn (class_of cfg digits) number
  pub special_is :
      (length special ≡ wanted cfg.symbols cfg.min_special) × AllIn (class_of cfg symbols) special

abbrev pub joined : {cfg : PasswordConfig} → Parts cfg → Bytes
joined p = ((([] ++ p.upper) ++ p.lower) ++ p.number) ++ p.special

module _ {S : Type 0} (rng : Rng S) (laws : RngLaws rng) (cfg : PasswordConfig) where
  required_total : (s : S) → (p : Parts cfg) × (s' : S) × (required rng cfg s ≡ some (joined p, s'))
  unfolding required
  required_total s =
      let (nu, nl, nd, ns) = pools_nonempty cfg.avoid_ambiguous in
      let (a, s1, ea, la, ia) =
        push_required_total rng laws cfg.uppercase uppercase cfg.avoid_ambiguous cfg.min_uppercase
          [] s nu in
      let (b, s2, eb, lb, ib) =
        push_required_total rng laws cfg.lowercase lowercase cfg.avoid_ambiguous cfg.min_lowercase
          ([] ++ a) s1 nl in
      let (d, s3, ed, ld, id) =
        push_required_total rng laws cfg.numbers digits cfg.avoid_ambiguous cfg.min_numbers
          (([] ++ a) ++ b) s2 nd in
      let (e, s4, ee, le, ie) =
        push_required_total rng laws cfg.symbols symbols cfg.avoid_ambiguous cfg.min_special
          ((([] ++ a) ++ b) ++ d) s3 ns in
      (
        record {
          upper = a;
          lower = b;
          number = d;
          special = e;
          upper_is = (la, ia);
          lower_is = (lb, ib);
          number_is = (ld, id);
          special_is = (le, ie);
        },
        s4,
        rw (ea, required) (rw (eb, required) (rw (ed, required) ee)),
      )

AllIn-group :
    (enabled : Bool) (pool cs part : Bytes) (n : ℕ)
    → length part ≡ wanted enabled n
    → AllIn pool part
    → ((b : ℕ) → enabled ≡ true → contains pool b ≡ true → contains cs b ≡ true)
    → AllIn cs part
AllIn-group true pool cs part n l h k =
    every_mono (contains pool) (contains cs) part (λ b. k b refl) h
AllIn-group false pool cs [] n l h k = refl
AllIn-group false pool cs (x ∷ part) n l h k = absurd (omega arith)

AllIn-joined : (cfg : PasswordConfig) (p : Parts cfg) → AllIn (charset cfg) (joined p)
AllIn-joined cfg p =
    AllIn-append (charset cfg) _ p.special
      (AllIn-append (charset cfg) _ p.number
        (AllIn-append (charset cfg) p.upper p.lower
          (AllIn-group cfg.uppercase _ _ p.upper _ p.upper_is.0 p.upper_is.1 (in_uppercase cfg))
          (AllIn-group cfg.lowercase _ _ p.lower _ p.lower_is.0 p.lower_is.1 (in_lowercase cfg)))
        (AllIn-group cfg.numbers _ _ p.number _ p.number_is.0 p.number_is.1 (in_digits cfg)))
      (AllIn-group cfg.symbols _ _ p.special _ p.special_is.0 p.special_is.1 (in_symbols cfg))

-- from a set of ASCII characters comes a text
text_of_charset :
    (cfg : PasswordConfig) (pw : Bytes) → AllIn (charset cfg) pw → every (λ b. ltb b 128) pw ≡ true
text_of_charset cfg pw h =
    every_mono (contains (charset cfg)) (λ b. ltb b 128) pw
      (λ b m. every-contains (λ x. ltb x 128) (charset cfg) b (charset-ascii cfg) m) h

-- the password, its parts before the shuffle, and the characters that filled it up
pub record Generated {S : Type 0} (build : Build) (rng : Rng S) (cfg : PasswordConfig) (s : S)
    : Type 0 where
  pub pw : Bytes
  pub state : S
  pub parts : Parts cfg
  pub filling : Bytes
  pub returned :
      build_password rng build cfg s ≡ grown build (joined parts ++ filling) (some (ok pw, state))
  pub mixed : Perm pw (joined parts ++ filling)
  pub filling_is : length filling ≡ cfg.length - length (joined parts)
  pub all_in : AllIn (charset cfg) (joined parts ++ filling)

module _ {S : Type 0} (build : Build) (rng : Rng S) (laws : RngLaws rng) (cfg : PasswordConfig)
    (s : S) where
  pub generate_lem : 0 < length (charset cfg) → Generated build rng cfg s
  unfolding build_password from_ascii
  generate_lem nonempty =
      let (p, s1, made) = required_total rng laws cfg s in
      let (filling, s2, filled, len, all) =
        fill_total rng laws (cfg.length + 1) (charset cfg) cfg.length (joined p) s1 nonempty
          (omega arith) in
      let before = joined p ++ filling in
      let in_set = AllIn-append (charset cfg) (joined p) filling (AllIn-joined cfg p) all in
      let pw = (rng.shuffle before s2).0 in
      let perm = laws.shuffle-perm before s2 in
      let text = text_of_charset cfg pw (every-perm (contains (charset cfg)) perm in_set) in
      record {
        pw = pw;
        state = (rng.shuffle before s2).1;
        parts = p;
        filling = filling;
        returned =
            rw (made, build_password) (rw (filled, build_password) (rw (text, build_password)));
        mixed = perm;
        filling_is = len;
        all_in = in_set;
      }
