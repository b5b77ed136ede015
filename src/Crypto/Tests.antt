-- ===== src/Crypto/Tests.antt =====
-- Examples for the theorems on crates/crypto-core, over the simple instance of the cryptography.
use nad_safe_password_manage.Prelude.{
  ◌/◌, ◌≡◌, ◌≢◌, ◌↔◌, refl, true, some, [], ◌∷◌, ◌++◌, map, Bytes, Str, ok, err, length, replicate,
  every,
}
use nad_safe_password_manage.Std.{codes, is_whitespace}
use nad_safe_password_manage.Crypto.Crates.{IsArray}
use nad_safe_password_manage.Crypto.Crates.Toy.{
  toy, toy-CbcLaws, toy-HmacLaws, toy-Sha1Laws, toy-HkdfLaws, toy-B64Laws, toy-RsaLaws,
}
use nad_safe_password_manage.Crypto.Error.{mac_mismatch}
use nad_safe_password_manage.Crypto.EncString.{
  EncString, SymmetricKey, IsKey, IsWellFormed, encrypt, decrypt, parse, to_string,
}
use nad_safe_password_manage.Crypto.EncString.Seal.{decrypt-mac_mismatch_iff, decrypt-encrypt}
use nad_safe_password_manage.Crypto.EncString.Wire.{ReadsAs, parse-ReadsAs, parse-to_string}
use nad_safe_password_manage.Crypto.UserKey
use nad_safe_password_manage.Crypto.UserKey.{UserKey, decrypt-encrypt_by_user_key}
use nad_safe_password_manage.Crypto.OrgKey
use nad_safe_password_manage.Crypto.OrgKey.{
  OrgKey, generate_rsa_key_pair, encrypt_to_member, decrypt_from_member,
  decrypt_from_member-encrypt_to_member, decrypt-encrypt_by_org_key,
}
use nad_safe_password_manage.Crypto.MasterKey.{
  generate_user_key, decrypt_user_key, decrypt_user_key-generate_user_key,
}
use nad_safe_password_manage.Crypto.Recovery.{
  entropy_to_phrase, phrase_to_entropy, strip, hex, wrap_user_key_with_recovery,
  unwrap_user_key_with_recovery,
}
use nad_safe_password_manage.Crypto.Recovery.Hex.{to_ascii_lowercase}
use nad_safe_password_manage.Crypto.Recovery.Phrase.{
  phrase_to_entropy_iff, phrase_to_entropy-entropy_to_phrase,
}
use nad_safe_password_manage.Crypto.Recovery.Unwrap.{unwrap-wrap}
use nad_safe_password_manage.Crypto.Totp.{
  cleaned, base32_decode, generate_totp, hotp, position, push, decode, trim_end, flat_map,
}
use nad_safe_password_manage.Crypto.Totp.Base32.{Decodes, values, base32_decode-Decodes}
use nad_safe_password_manage.Crypto.Totp.Code.{is_digit, read, generate_totp_code}

abbrev iv : Bytes
iv = replicate 16 9

abbrev key : SymmetricKey
key = record { enc_key = replicate 32 1; mac_key = replicate 32 2 }

key-IsKey : IsKey key
key-IsKey = record { enc_array = (refl, refl); mac_array = (refl, refl) }

abbrev key_bytes : Bytes
key_bytes = replicate 32 3 ++ replicate 32 4

abbrev message : Bytes
message = b'h' ∷ b'i' ∷ []

abbrev forged : EncString
forged = record { enc_type = 2; iv = iv; ct = message; mac = replicate 32 200 }

forged-IsWellFormed : IsWellFormed forged
forged-IsWellFormed = record {
  type_is = refl;
  iv_array = (refl, refl);
  ct_bytes = refl;
  mac_array = (refl, refl);
}

decrypt-mac_mismatch_iff_example :
    (decrypt toy forged key ≡ err mac_mismatch)
    ↔ (toy.hmac_sha256 (replicate 32 2) (iv ++ message) ≢ replicate 32 200)
decrypt-mac_mismatch_iff_example =
    decrypt-mac_mismatch_iff toy toy-HmacLaws forged key forged-IsWellFormed

decrypt-encrypt_example :
    (enc : EncString) × (encrypt toy message key iv ≡ ok enc)
    × IsWellFormed enc
    × (decrypt toy enc key ≡ ok message)
decrypt-encrypt_example =
    decrypt-encrypt toy toy-HmacLaws toy-CbcLaws message key iv key-IsKey (refl, refl) refl

parse-to_string_example : parse toy (to_string toy forged) ≡ ok forged
parse-to_string_example = parse-to_string toy toy-B64Laws forged forged-IsWellFormed

parse-ReadsAs_example : ReadsAs toy (to_string toy forged) forged
parse-ReadsAs_example =
    parse-ReadsAs toy (to_string toy forged) forged
      (parse-to_string toy toy-B64Laws forged forged-IsWellFormed)

abbrev user_key : UserKey
user_key = record { bytes = key_bytes }

decrypt-encrypt_by_user_key_example :
    (enc : EncString) × (UserKey.encrypt toy user_key message iv ≡ ok enc)
    × IsWellFormed enc
    × (UserKey.decrypt toy user_key enc ≡ ok message)
decrypt-encrypt_by_user_key_example =
    decrypt-encrypt_by_user_key toy toy-HmacLaws toy-CbcLaws user_key message iv (refl, refl)
      (refl, refl) refl

abbrev org_key : OrgKey
org_key = record { bytes = key_bytes }

decrypt-encrypt_by_org_key_example :
    (enc : EncString) × (OrgKey.encrypt toy org_key message iv ≡ ok enc)
    × IsWellFormed enc
    × (OrgKey.decrypt toy org_key enc ≡ ok message)
decrypt-encrypt_by_org_key_example =
    decrypt-encrypt_by_org_key toy toy-HmacLaws toy-CbcLaws org_key message iv (refl, refl)
      (refl, refl) refl

pair_is : generate_rsa_key_pair toy message ≡ ok (b'k' ∷ message, b'p' ∷ message)
unfolding generate_rsa_key_pair
pair_is = refl

decrypt_from_member-encrypt_to_member_example :
    (enc : Bytes) × (encrypt_to_member toy org_key (b'p' ∷ message) iv ≡ ok enc)
    × (decrypt_from_member toy enc (b'k' ∷ message) ≡ ok org_key)
decrypt_from_member-encrypt_to_member_example =
    decrypt_from_member-encrypt_to_member toy toy-RsaLaws org_key message iv (b'k' ∷ message)
      (b'p' ∷ message) (refl, refl) pair_is

decrypt_user_key-generate_user_key_example :
    (enc : EncString) × (generate_user_key toy (record { bytes = replicate 32 7 }) key_bytes iv
      ≡ ok (record { bytes = key_bytes }, enc))
    × IsWellFormed enc
    × (decrypt_user_key toy (record { bytes = replicate 32 7 }) enc
        ≡ ok (record { bytes = key_bytes }))
decrypt_user_key-generate_user_key_example =
    decrypt_user_key-generate_user_key toy toy-HkdfLaws toy-HmacLaws toy-CbcLaws
      (record { bytes = replicate 32 7 }) key_bytes iv (refl, refl) (refl, refl) (refl, refl)

abbrev entropy : Bytes
entropy = replicate 32 0xab

abbrev phrase : Str
phrase = codes " ABABABAB abababab" ++ replicate 24 b'a' ++ replicate 24 b'A'

phrase_to_entropy_iff_example :
    (phrase_to_entropy phrase ≡ ok entropy)
    ↔ (IsArray 32 entropy × (map to_ascii_lowercase (strip phrase) ≡ hex entropy))
phrase_to_entropy_iff_example = phrase_to_entropy_iff phrase entropy

phrase_to_entropy-entropy_to_phrase_example :
    phrase_to_entropy (entropy_to_phrase entropy) ≡ ok entropy
phrase_to_entropy-entropy_to_phrase_example =
    phrase_to_entropy-entropy_to_phrase entropy (refl, refl)

unwrap-wrap_example :
    (enc : EncString) × (wrap_user_key_with_recovery toy user_key entropy iv ≡ ok enc)
    × IsWellFormed enc
    × (unwrap_user_key_with_recovery toy enc (entropy_to_phrase entropy) ≡ ok user_key)
unwrap-wrap_example =
    unwrap-wrap toy toy-HkdfLaws toy-HmacLaws toy-CbcLaws user_key entropy iv
      (entropy_to_phrase entropy) (refl, refl) (refl, refl) (refl, refl)
      (phrase_to_entropy-entropy_to_phrase entropy (refl, refl))

abbrev secret_b32 : Str
secret_b32 = codes "gezd gnbv="

base32_decode-Decodes_example :
    Decodes 0 0 (values (cleaned toy secret_b32)) (base32_decode toy secret_b32)
base32_decode-Decodes_example = base32_decode-Decodes toy secret_b32

secret_is : base32_decode toy secret_b32 ≡ ok (codes "12345")
unfolding base32_decode cleaned flat_map trim_end is_whitespace decode push position
secret_is = refl

generate_totp_code_example :
    (code : Str) × (generate_totp toy secret_b32 59 ≡ some (ok code))
    × (length code ≡ 6)
    × (every is_digit code ≡ true)
    × (hotp toy (codes "12345") (59 / 30) 6 ≡ some (read 0 code))
generate_totp_code_example =
    generate_totp_code toy toy-Sha1Laws secret_b32 59 (codes "12345") secret_is
