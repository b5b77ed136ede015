-- ===== src/Crypto/PasswordGen/Charset.antt =====
-- The character set: the enabled classes, all ASCII, and nothing ambiguous where that is avoided.
use nad_safe_password_manage.Prelude.{
  ℕ, ◌≡◌, refl, ◌∙◌, Bool, true, false, not, [], ◌∷◌, ◌++◌, Bytes, ◌==◌, ltb, length, every,
  every-append, every-cons, if◌then◌else◌, arith, Bool-cases, inl, inr, ◌||◌,
}
use nad_safe_password_manage.Crypto.PasswordGen.{
  PasswordConfig, contains, filter_ambiguous, ambiguous, uppercase, lowercase, digits, symbols,
  charset,
}

-- the class `pool` without the ambiguous characters, if these are to be avoided
abbrev pub class_of : PasswordConfig → Bytes → Bytes
class_of cfg pool = filter_ambiguous pool cfg.avoid_ambiguous

contains-append : (a b : Bytes) (x : ℕ) → contains (a ++ b) x ≡ (contains a x || contains b x)
contains-append [] b x = refl
contains-append (y ∷ a) b x = ground (arith, contains-append a b x)

filter_ambiguous-symbols : (avoid : Bool) → filter_ambiguous symbols avoid ≡ symbols
unfolding filter_ambiguous
filter_ambiguous-symbols true = refl
filter_ambiguous-symbols false = refl

-- in which of the four parts of the character set a byte is
module _ (cfg : PasswordConfig) (b : ℕ) where
  contains-charset : contains (charset cfg) b ≡ (
      contains (if cfg.uppercase then class_of cfg uppercase else []) b
      || (contains (if cfg.lowercase then class_of cfg lowercase else []) b
          || (contains (if cfg.numbers then class_of cfg digits else []) b
              || contains (if cfg.symbols then symbols else []) b)))
  unfolding charset
  contains-charset = rw contains-append (rw contains-append (rw contains-append refl))

  pub in_uppercase :
      cfg.uppercase ≡ true
      → contains (class_of cfg uppercase) b ≡ true
      → contains (charset cfg) b ≡ true
  in_uppercase e h = contains-charset ∙ rw e (rw h)

  pub in_lowercase :
      cfg.lowercase ≡ true
      → contains (class_of cfg lowercase) b ≡ true
      → contains (charset cfg) b ≡ true
  in_lowercase e h = contains-charset ∙ rw e (rw h (ground arith))

  pub in_digits :
      cfg.numbers ≡ true → contains (class_of cfg digits) b ≡ true → contains (charset cfg) b ≡ true
  in_digits e h = contains-charset ∙ rw e (rw h (ground arith))

  pub in_symbols :
      cfg.symbols ≡ true
      → contains (class_of cfg symbols) b ≡ true
      → contains (charset cfg) b ≡ true
  in_symbols e h =
      contains-charset
      ∙ rw e (rw (rw (filter_ambiguous-symbols cfg.avoid_ambiguous) at h) (ground arith))

pub every-contains :
    (q : ℕ → Bool) (pool : Bytes) (b : ℕ)
    → every q pool ≡ true
    → contains pool b ≡ true
    → q b ≡ true
every-contains q [] b h m = cc
every-contains q (x ∷ pool) b h m =
    let (hx, hp) = every-cons q x pool h in
    elim (Bool-cases (x == b)) [
      | inl same ↦ let e : x ≡ b = ground arith in rw e at hx
      | inr other ↦ every-contains q pool b hp (ground arith)
    ]

every-if :
    (q : ℕ → Bool) (enabled : Bool) (pool : Bytes)
    → every q pool ≡ true
    → every q (if enabled then pool else []) ≡ true
every-if q true pool h = h
every-if q false pool h = refl

every-charset :
    (q : ℕ → Bool) (cfg : PasswordConfig)
    → every q (class_of cfg uppercase) ≡ true
    → every q (class_of cfg lowercase) ≡ true
    → every q (class_of cfg digits) ≡ true
    → every q symbols ≡ true
    → every q (charset cfg) ≡ true
unfolding charset
every-charset q cfg hu hl hd hs = rw every-append (
    rw (every-if q cfg.uppercase _ hu) (
      rw every-append (
        rw (every-if q cfg.lowercase _ hl) (
          rw every-append (rw (every-if q cfg.numbers _ hd) (every-if q cfg.symbols symbols hs))))))

abbrev is_ascii : ℕ → Bool
is_ascii b = ltb b 128

classes-ascii :
    (avoid : Bool)
    → (every is_ascii (filter_ambiguous uppercase avoid) ≡ true)
      × (every is_ascii (filter_ambiguous lowercase avoid) ≡ true)
      × (every is_ascii (filter_ambiguous digits avoid) ≡ true)
unfolding filter_ambiguous
classes-ascii true = (refl, refl, refl)
classes-ascii false = (refl, refl, refl)

pub charset-ascii : (cfg : PasswordConfig) → every (λ b. ltb b 128) (charset cfg) ≡ true
charset-ascii cfg =
    let (u, l, d) = classes-ascii cfg.avoid_ambiguous in every-charset is_ascii cfg u l d refl

abbrev pub is_unambiguous : ℕ → Bool
is_unambiguous b = not (contains ambiguous b)

classes_unambiguous :
    (avoid : Bool)
    → avoid ≡ true
    → (every is_unambiguous (filter_ambiguous uppercase avoid) ≡ true)
      × (every is_unambiguous (filter_ambiguous lowercase avoid) ≡ true)
      × (every is_unambiguous (filter_ambiguous digits avoid) ≡ true)
unfolding filter_ambiguous
classes_unambiguous true e = (refl, refl, refl)
classes_unambiguous false e = cc

pub charset_unambiguous :
    (cfg : PasswordConfig) → cfg.avoid_ambiguous ≡ true → every is_unambiguous (charset cfg) ≡ true
charset_unambiguous cfg e =
    let (u, l, d) = classes_unambiguous cfg.avoid_ambiguous e in
    every-charset is_unambiguous cfg u l d refl

abbrev pub any_class : PasswordConfig → Bool
any_class cfg = cfg.uppercase || cfg.lowercase || cfg.numbers || cfg.symbols

is_nonempty : Bytes → Bool
is_nonempty [] = false
is_nonempty (x ∷ xs) = true

is_nonempty-length : (xs : Bytes) → ltb 0 (length xs) ≡ is_nonempty xs
unfolding is_nonempty
is_nonempty-length [] = refl
is_nonempty-length (x ∷ xs) = ground arith

classes_nonempty :
    (u l n s avoid : Bool)
    → is_nonempty (
        (if u then filter_ambiguous uppercase avoid else [])
        ++ ((if l then filter_ambiguous lowercase avoid else [])
            ++ ((if n then filter_ambiguous digits avoid else []) ++ (if s then symbols else []))))
      ≡ (u || l || n || s)
unfolding is_nonempty filter_ambiguous
classes_nonempty true l n s true = refl
classes_nonempty true l n s false = refl
classes_nonempty false true n s true = refl
classes_nonempty false true n s false = refl
classes_nonempty false false true s true = refl
classes_nonempty false false true s false = refl
classes_nonempty false false false true avoid = refl
classes_nonempty false false false false avoid = refl

-- The character set is empty exactly if no class is enabled.
pub charset_nonempty : (cfg : PasswordConfig) → ltb 0 (length (charset cfg)) ≡ any_class cfg
unfolding charset
charset_nonempty cfg =
    is_nonempty-length (charset cfg)
    ∙ classes_nonempty cfg.uppercase cfg.lowercase cfg.numbers cfg.symbols cfg.avoid_ambiguous
