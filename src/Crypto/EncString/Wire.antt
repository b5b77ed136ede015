-- ===== src/Crypto/EncString/Wire.antt =====
-- The wire format `2.{iv}|{ct}|{mac}`: what `parse` accepts, and the round trip.
use nad_safe_password_manage.Prelude.{
  ℕ, ◌≡◌, ◌≢◌, refl, ◌∙◌, List, [], ◌∷◌, ◌++◌, Str, ok, err, ensure, ok_or, arith, >>=-ok, some,
  ◌==◌, length,
}
use nad_safe_password_manage.Std.{u8_from_str_radix, to_digit}
use nad_safe_password_manage.Std.Decimal.{decimal}
use nad_safe_password_manage.Std.Split.{split_once, splitn, splitn-three}
use nad_safe_password_manage.Crypto.Crates.{Crates, B64Laws}
use nad_safe_password_manage.Crypto.Error.{invalid_enc_string, unsupported_enc_type}
use nad_safe_password_manage.Crypto.EncString.{
  EncString, IsWellFormed, parse_parts, parse, to_string,
}

module _ (c : Crates) where
  -- What `parse` has read: the text has a type prefix that reads as 2, three parts, and parts that
  -- base64-decode to the IV, the ciphertext and the MAC, of 16, any number of and 32 bytes.
  pub record ReadsAs (s : Str) (enc : EncString) : Type 0 where
    pub type_str : Str
    pub iv_b64 : Str
    pub ct_b64 : Str
    pub mac_b64 : Str
    pub rest : Str
    pub prefix : split_once b'.' s ≡ some (type_str, rest)
    pub bars : splitn 3 b'|' rest ≡ iv_b64 ∷ ct_b64 ∷ mac_b64 ∷ []
    pub type_is : (u8_from_str_radix 10 type_str ≡ some 2) × (enc.enc_type ≡ 2)
    pub iv_is : (c.b64_decode iv_b64 ≡ ok enc.iv) × (length enc.iv ≡ 16)
    pub ct_is : c.b64_decode ct_b64 ≡ ok enc.ct
    pub mac_is : (c.b64_decode mac_b64 ≡ ok enc.mac) × (length enc.mac ≡ 32)

  parse_parts_inv :
      (t : ℕ) (parts : List Str) (enc : EncString)
      → parse_parts c t parts ≡ ok enc
      → (a : Str) × (b : Str) × (m : Str) × (parts ≡ a ∷ b ∷ m ∷ [])
        × (enc.enc_type ≡ t)
        × (c.b64_decode a ≡ ok enc.iv)
        × (length enc.iv ≡ 16)
        × (c.b64_decode b ≡ ok enc.ct)
        × (c.b64_decode m ≡ ok enc.mac)
        × (length enc.mac ≡ 32)
  unfolding parse_parts
  parse_parts_inv t [] enc h = cc
  parse_parts_inv t (a ∷ []) enc h = cc
  parse_parts_inv t (a ∷ b ∷ []) enc h = cc
  parse_parts_inv t (a ∷ b ∷ m ∷ x ∷ r) enc h = cc
  parse_parts_inv t (a ∷ b ∷ m ∷ []) enc h = (
    a,
    b,
    m,
    refl,
    ground arith,
    ground arith,
    ground arith,
    ground arith,
    ground arith,
    ground arith,
  )

  -- Whatever `parse` accepts has type 2, an IV of 16 bytes and a MAC of 32 bytes, which are the
  -- decoded parts of the text.
  pub parse-ReadsAs : (s : Str) (enc : EncString) → parse c s ≡ ok enc → ReadsAs s enc
  unfolding parse
  parse-ReadsAs s enc h =
      let ((type_str, rest), e1, h1) = >>=-ok (ok_or _ (split_once b'.' s)) _ h in
      let (t, e2, h2) = >>=-ok (ok_or _ (u8_from_str_radix 10 type_str)) _ h1 in
      let (u, e3, h3) = >>=-ok (ensure (t == 2) _) _ h2 in
      let (a, b, m, bars, type_is, a_is, iv_len, b_is, m_is, mac_len) =
        parse_parts_inv t (splitn 3 b'|' rest) enc h3 in
      let two : t ≡ 2 = ground arith in
      record {
        type_str = type_str;
        iv_b64 = a;
        ct_b64 = b;
        mac_b64 = m;
        rest = rest;
        prefix = ground arith;
        bars = bars;
        type_is = (ground arith, type_is ∙ two);
        iv_is = (a_is, iv_len);
        ct_is = b_is;
        mac_is = (m_is, mac_len);
      }

  -- A text whose prefix is the number of another type is refused with that number.
  pub parse-unsupported :
      (s type_str rest : Str) (t : ℕ)
      → split_once b'.' s ≡ some (type_str, rest)
      → u8_from_str_radix 10 type_str ≡ some t
      → t ≢ 2
      → parse c s ≡ err (invalid_enc_string (unsupported_enc_type t))
  unfolding parse
  parse-unsupported s type_str rest t p q ne = rw (p, q) (ground arith)

  module _ (b64 : B64Laws c) where
    parse_parts_encoded :
        (enc : EncString)
        → IsWellFormed enc
        → parse_parts c 2 (c.b64_encode enc.iv ∷ c.b64_encode enc.ct ∷ c.b64_encode enc.mac ∷ [])
          ≡ ok enc
    unfolding parse_parts
    parse_parts_encoded enc w = rw (b64.decode-encode enc.iv w.iv_array.1) (
        rw (b64.decode-encode enc.ct w.ct_bytes)
          (rw (b64.decode-encode enc.mac w.mac_array.1) (ground arith)))

    bars_encoded :
        (enc : EncString)
        → splitn 3 b'|'
            (c.b64_encode enc.iv ++ (b'|' ∷ (c.b64_encode enc.ct ++ (b'|' ∷ c.b64_encode enc.mac))))
          ≡ c.b64_encode enc.iv ∷ c.b64_encode enc.ct ∷ c.b64_encode enc.mac ∷ []
    bars_encoded enc =
        splitn-three b'|' _ _ _ (b64.encode-lacks-bar enc.iv) (b64.encode-lacks-bar enc.ct)

    parse_typed :
        (enc : EncString) (t : ℕ)
        → t ≡ 2
        → IsWellFormed enc
        → parse c (
            decimal t
            ++ (b'.'
                ∷ (c.b64_encode enc.iv
                    ++ (b'|' ∷ (c.b64_encode enc.ct ++ (b'|' ∷ c.b64_encode enc.mac))))))
          ≡ ok enc
    unfolding parse decimal u8_from_str_radix to_digit split_once
    parse_typed enc t e w = rw e (rw (bars_encoded enc) (parse_parts_encoded enc w))

    -- A well-formed string that is written and parsed again is the same string.
    pub parse-to_string : (enc : EncString) → IsWellFormed enc → parse c (to_string c enc) ≡ ok enc
    unfolding to_string
    parse-to_string enc w = parse_typed enc enc.enc_type w.type_is w
