-- ===== src/Desktop/Tests.antt =====
-- Examples for the desktop client's commands.
use nad_safe_password_manage.Prelude.{
  ℕ, ◌≡◌, refl, true, false, some, ◌++◌, arith, Bytes, Str, ok, replicate,
}
use nad_safe_password_manage.Crypto.Crates.Toy.{
  toy, toy-CbcLaws, toy-HmacLaws, toy-HkdfLaws, toy-B64Laws,
}
use nad_safe_password_manage.Crypto.EncString.{EncString, parse}
use nad_safe_password_manage.Crypto.MasterKey.{decrypt_user_key}
use nad_safe_password_manage.Crypto.PasswordGen.Charset.{any_class}
use nad_safe_password_manage.Crypto.PasswordGen.Generated.{Satisfies}
use nad_safe_password_manage.Crypto.PasswordGen.Tests.{any_build, counter, counter-RngLaws}
use nad_safe_password_manage.Desktop.Vault.{
  PasswordGenRequest, config_of, generate_user_key, generate_password, generate_user_key_usable,
  generate_password_succeeds,
}

abbrev master_key : Bytes
master_key = replicate 32 7

abbrev drawn : Bytes
drawn = replicate 32 3 ++ replicate 32 4

generate_user_key_usable_example :
    (text : Str) × (enc : EncString) × (generate_user_key toy
        (toy.b64_encode master_key)
        drawn
        (replicate 16 9)
      ≡ ok text)
    × (parse toy text ≡ ok enc)
    × (decrypt_user_key toy (record { bytes = master_key }) enc ≡ ok (record { bytes = drawn }))
generate_user_key_usable_example =
    generate_user_key_usable toy toy-HmacLaws toy-CbcLaws toy-HkdfLaws toy-B64Laws master_key drawn
      (replicate 16 9) (refl, refl) (refl, refl) (refl, refl)

abbrev request : PasswordGenRequest
request = record {
  length = 16;
  uppercase = true;
  lowercase = true;
  numbers = true;
  symbols = false;
  avoid_ambiguous = true;
}

classes : any_class (config_of request) ≡ true
unfolding config_of
classes = refl

generate_password_succeeds_example :
    (pw : Str) × (s' : ℕ) × (generate_password any_build counter request 7 ≡ some (ok pw, s'))
    × Satisfies (config_of request) pw
generate_password_succeeds_example =
    generate_password_succeeds any_build counter counter-RngLaws request 7 classes (omega arith)
      (omega arith) (omega arith)
