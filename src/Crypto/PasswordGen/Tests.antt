-- ===== src/Crypto/PasswordGen/Tests.antt =====
-- Examples for crates/crypto-core/src/password_gen.rs, with a counter as the random generator.
use mathlib.Core.List.Perm
use native.Mathlib.Nat.{mod-lt}
use nad_safe_password_manage.Prelude.{
  ℕ, ◌+◌, ◌-◌, ◌^◌, ◌%◌, ◌≡◌, refl, true, false, not, ◌||◌, some, arith, Str, ok, ltb, every,
}
use nad_safe_password_manage.Std.{codes}
use nad_safe_password_manage.Crypto.PasswordGen.{
  PasswordConfig, password_config_default, Rng, RngLaws, generate_password, filter_ambiguous,
  charset, Build, min_sum, min_total, build_password, random_usize, pick, push_loop, push_required,
  required, fill, from_ascii,
}
use nad_safe_password_manage.Crypto.PasswordGen.Charset.{any_class, is_unambiguous}
use nad_safe_password_manage.Crypto.PasswordGen.Generated.{Satisfies}
use nad_safe_password_manage.Crypto.PasswordGen.Password.{
  refused, panics, generate_password-Satisfies, generate_password_outcome,
  generate_password_unambiguous,
}

abbrev pub counter : Rng ℕ
counter = record { gen_range = λ max s. (s % max, s + 1); shuffle = λ bytes s. (bytes, s) }

-- a debug build, with room for a vector of `isize::MAX` bytes
abbrev pub any_build : Build
any_build = record { overflow_checks = true; capacity = 2 ^ 63 - 1 }

pub counter-RngLaws : RngLaws counter
counter-RngLaws = record {
  gen_range-lt = λ max s h. mod-lt s h;
  shuffle-perm = λ bytes s. Perm.refl bytes;
}

generate_password-Satisfies_example :
    (pw : Str) × (s' : ℕ) × (generate_password counter any_build password_config_default 7
      ≡ some (ok pw, s'))
    × Satisfies password_config_default pw
generate_password-Satisfies_example =
    generate_password-Satisfies any_build counter counter-RngLaws password_config_default 7 refl
      (omega arith) (omega arith) (omega arith)

generate_password_outcome_example :
    (panics (generate_password counter any_build password_config_default 7) ≡ false)
    × (refused (generate_password counter any_build password_config_default 7) ≡ (
        not (any_class password_config_default)
        || ltb password_config_default.length (min_sum password_config_default)))
generate_password_outcome_example =
    generate_password_outcome any_build counter counter-RngLaws password_config_default 7
      (omega arith) (omega arith)

abbrev two_digits : PasswordConfig
two_digits = record {
  length = 3;
  uppercase = false;
  lowercase = false;
  numbers = true;
  symbols = false;
  avoid_ambiguous = true;
  min_uppercase = 0;
  min_lowercase = 0;
  min_numbers = 2;
  min_special = 0;
}

two_digits_lem : generate_password counter any_build two_digits 1 ≡ some (ok (codes "345"), 4)
unfolding generate_password build_password filter_ambiguous charset min_total random_usize pick
    push_loop push_required required fill from_ascii
two_digits_lem = refl

generate_password_unambiguous_example : every is_unambiguous (codes "345") ≡ true
generate_password_unambiguous_example =
    generate_password_unambiguous any_build counter counter-RngLaws two_digits 1 4 (codes "345")
      refl two_digits_lem
