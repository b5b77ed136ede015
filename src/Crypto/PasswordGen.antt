-- ===== src/Crypto/PasswordGen.antt =====
-- crates/crypto-core/src/password_gen.rs. A step takes the generator's state and returns the new
-- one; `none` is a panic: an index out of range, an empty range, a text that is no UTF-8, a sum that
-- overflows under overflow checks, a vector that cannot grow.
mod Required
pub mod Charset
pub mod Generated
pub mod Password
pub mod Tests
use nad_safe_password_manage.Prelude.{
  ℕ, zero, suc, ◌+◌, ◌%◌, ◌^◌, ◌<◌, ◌≡◌, Bool, true, false, not, Option, none, some, List, [], ◌∷◌,
  ◌++◌, Bytes, Str, Result, ok, err, ◌==◌, ◌&&◌, ltb, leb, length, get_elem?, keep_if, every,
  exists, if◌then◌else◌, arith,
}
use mathlib.Core.List.{Perm}
use nad_safe_password_manage.Std.{codes}

abbrev pub uppercase : Bytes
uppercase = codes "ABCDEFGHIJKLMNOPQRSTUVWXYZ"

abbrev pub lowercase : Bytes
lowercase = codes "abcdefghijklmnopqrstuvwxyz"

abbrev pub digits : Bytes
digits = codes "0123456789"

abbrev pub symbols : Bytes
symbols = codes "!@#$%^&*()_+-=[]{}|;:,.<>?"

abbrev pub ambiguous : Bytes
ambiguous = codes "Il1O0"

pub record PasswordConfig : Type 0 where
  pub length : ℕ
  pub uppercase : Bool
  pub lowercase : Bool
  pub numbers : Bool
  pub symbols : Bool
  pub avoid_ambiguous : Bool
  pub min_uppercase : ℕ
  pub min_lowercase : ℕ
  pub min_numbers : ℕ
  pub min_special : ℕ

abbrev pub password_config_default : PasswordConfig
password_config_default = record {
  length = 20;
  uppercase = true;
  lowercase = true;
  numbers = true;
  symbols = true;
  avoid_ambiguous = false;
  min_uppercase = 1;
  min_lowercase = 1;
  min_numbers = 1;
  min_special = 1;
}

pub data GenError : Type 0 where
  no_charset : GenError
  too_short : ℕ → GenError

-- the crate rand: `gen_range(0..max)` and `shuffle`, over the generator's state
pub record Rng (S : Type 0) : Type 0 where
  pub gen_range : ℕ → S → ℕ × S
  pub shuffle : Bytes → S → Bytes × S

-- A number in the range, if the range is not empty; and the same bytes in another order.
pub record RngLaws {S : Type 0} (rng : Rng S) : Type 0 where
  pub gen_range-lt : (max : ℕ) (s : S) → 0 < max → (rng.gen_range max s).0 < max
  pub shuffle-perm : (bytes : Bytes) (s : S) → Perm (rng.shuffle bytes s).0 bytes

-- `contains(&b)`
abbrev pub contains : Bytes → ℕ → Bool
contains pool b = exists (λ x. x == b) pool

unfoldable pub filter_ambiguous : Bytes → Bool → Bytes
filter_ambiguous pool avoid =
    if not avoid then pool else keep_if (λ b. not (contains ambiguous b)) pool

-- what `generate_password` collects in `charset`
unfoldable pub charset : PasswordConfig → Bytes
charset cfg =
    (if cfg.uppercase then filter_ambiguous uppercase cfg.avoid_ambiguous else [])
    ++ ((if cfg.lowercase then filter_ambiguous lowercase cfg.avoid_ambiguous else [])
        ++ ((if cfg.numbers then filter_ambiguous digits cfg.avoid_ambiguous else [])
            ++ (if cfg.symbols then symbols else [])))

-- How the crate is built, with overflow checks or without, and the length that a `Vec<u8>` can
-- grow to: past `isize::MAX`, or earlier for want of memory, a push does not return.
pub record Build : Type 0 where
  pub overflow_checks : Bool
  pub capacity : ℕ

abbrev pub min_sum : PasswordConfig → ℕ
min_sum cfg = cfg.min_uppercase + cfg.min_lowercase + cfg.min_numbers + cfg.min_special

-- the sum on a 64-bit `usize`, which panics with overflow checks and wraps without
unfoldable pub min_total : Build → PasswordConfig → Option ℕ
min_total build cfg =
    if build.overflow_checks && leb (2 ^ 64) (min_sum cfg)
    then none
    else some (min_sum cfg % 2 ^ 64)

-- The pushes onto the password: the vector only grows, so one of them fails exactly if the finished
-- vector is too long.
abbrev pub grown {ℓ} : {A : Type ℓ} → Build → Bytes → Option A → Option A
grown build password result = if leb (length password) build.capacity then result else none

module _ {S : Type 0} (rng : Rng S) where
  unfoldable pub random_usize : ℕ → S → Option (ℕ × S)
  random_usize max s = if max == 0 then none else some (rng.gen_range max s)

  -- `pool[random_usize(rng, pool.len())]`
  unfoldable pub pick : Bytes → S → Option (ℕ × S)
  unfolding random_usize
  pick pool s = elim (random_usize (length pool) s) [
    | none ↦ none
    | some (idx, s') ↦ elim (get_elem? pool idx) [ none ↦ none | some b ↦ some (b, s') ]
  ]

  -- the loop of `push_required`, on the filtered pool
  unfoldable pub push_loop : Bytes → ℕ → Bytes → S → Option (Bytes × S)
  push_loop pool zero buf s = some (buf, s)
  push_loop pool (suc count) buf s = elim (length pool == 0) [
    | true ↦ push_loop pool count buf s
    | false ↦ elim (pick pool s) [
      | none ↦ none
      | some (b, s') ↦ push_loop pool count (buf ++ b ∷ []) s'
    ]
  ]

  -- `if enabled { push_required(pool, count, &mut required, &mut rng) }`
  unfoldable pub push_required : Bool → Bytes → Bool → ℕ → Bytes → S → Option (Bytes × S)
  push_required enabled pool avoid count buf s =
      if enabled then push_loop (filter_ambiguous pool avoid) count buf s else some (buf, s)

  -- the four calls of `push_required`
  unfoldable pub required : PasswordConfig → S → Option (Bytes × S)
  required cfg s0 =
      let avoid = cfg.avoid_ambiguous in
      elim (push_required cfg.uppercase uppercase avoid cfg.min_uppercase [] s0) [
        | none ↦ none
        | some (buf1, s1) ↦
            elim (push_required cfg.lowercase lowercase avoid cfg.min_lowercase buf1 s1) [
              | none ↦ none
              | some (buf2, s2) ↦
                  elim (push_required cfg.numbers digits avoid cfg.min_numbers buf2 s2) [
                    | none ↦ none
                    | some (buf3, s3) ↦
                        push_required cfg.symbols symbols avoid cfg.min_special buf3 s3
                  ]
            ]
      ]

  -- `while password.len() < cfg.length`; `cfg.length + 1` rounds are enough
  unfoldable pub fill : ℕ → Bytes → ℕ → Bytes → S → Option (Bytes × S)
  fill zero pool len password s = none
  fill (suc rounds) pool len password s = elim (ltb (length password) len) [
    | false ↦ some (password, s)
    | true ↦ elim (pick pool s) [
      | none ↦ none
      | some (b, s') ↦ fill rounds pool len (password ++ b ∷ []) s'
    ]
  ]

  -- `String::from_utf8(..).expect(..)`; for ASCII bytes, as here, the text of these bytes
  unfoldable pub from_ascii : Bytes → Option Str
  from_ascii bytes = if every (λ b. ltb b 128) bytes then some bytes else none

  -- the password of a configuration that is not refused
  unfoldable pub build_password : Build → PasswordConfig → S → Option (Result GenError Str × S)
  build_password build cfg s0 = elim (required cfg s0) [
    | none ↦ none
    | some (start, s1) ↦ elim (fill (cfg.length + 1) (charset cfg) cfg.length start s1) [
      | none ↦ none
      | some (password, s2) ↦
          let (mixed, s3) = rng.shuffle password s2 in
          grown build password
            (elim (from_ascii mixed) [ none ↦ none | some text ↦ some (ok text, s3) ])
    ]
  ]

  unfoldable pub generate_password : Build → PasswordConfig → S → Option (Result GenError Str × S)
  generate_password build cfg s0 =
      if length (charset cfg) == 0 then some (err no_charset, s0) else elim (min_total build cfg) [
        | none ↦ none
        | some total ↦
            if ltb cfg.length total
            then some (err (too_short cfg.length), s0)
            else build_password build cfg s0
      ]
