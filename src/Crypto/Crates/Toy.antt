-- ===== src/Crypto/Crates/Toy.antt =====
-- A simple instance of the operations that has all the documented behaviour: for examples only.
use nad_safe_password_manage.Prelude.{
  ℕ, zero, suc, ◌+◌, ◌-◌, ◌%◌, ◌<◌, ◌≡◌, refl, ap, true, Option, none, some, [], ◌∷◌, map, arith,
  Bytes, Str, Result, ok, err, ◌==◌, ==_refl, ◌&&◌, leb, length, replicate, if◌then◌else◌,
}
use nad_safe_password_manage.Std.Split.{lacks}
use nad_safe_password_manage.Crypto.Crates.{
  Crates, IsArray, CbcLaws, HmacLaws, Sha1Laws, HkdfLaws, B64Laws, RsaLaws, RsaPrivateKey,
  RsaPublicKey, Padding, oaep_sha1, oaep_sha256, oaep_sha512, pkcs1v15,
}

-- the sum of all bytes, on every place
abbrev sum_bytes : Bytes → ℕ
sum_bytes [] = 0
sum_bytes (x ∷ xs) = x + sum_bytes xs

abbrev tag : ℕ → Bytes → Bytes → Bytes
tag n key msg = replicate n ((sum_bytes key + sum_bytes msg) % 256)

abbrev unshift : Str → Result Str Bytes
unshift s = ok (map (λ c. c - 256) s)

abbrev sized : Bytes → Bytes → Bytes → Option Bytes
sized key iv text = if length key == 32 && length iv == 16 then some text else none

-- a key in DER is its bytes after a letter for its kind
abbrev toy_private_der : RsaPrivateKey → Result Str Bytes
toy_private_der key = ok (b'k' ∷ key.numbers)

abbrev toy_public_der : RsaPublicKey → Result Str Bytes
toy_public_der key = ok (b'p' ∷ key.numbers)

abbrev read_private : Bytes → Result Str RsaPrivateKey
read_private [] = err []
read_private (x ∷ der) = if x == b'k' then ok (record { numbers = der }) else err []

abbrev read_public : Bytes → Result Str RsaPublicKey
read_public [] = err []
read_public (x ∷ der) = if x == b'p' then ok (record { numbers = der }) else err []

-- a ciphertext is the message after a number for its padding
abbrev tag_of : Padding → ℕ
tag_of oaep_sha1 = 1
tag_of oaep_sha256 = 2
tag_of oaep_sha512 = 3
tag_of pkcs1v15 = 4

abbrev unpad : Padding → Bytes → Result Str Bytes
unpad padding [] = err []
unpad padding (x ∷ msg) = if x == tag_of padding then ok msg else err []

read_private_lem :
    (key : RsaPrivateKey) (der : Bytes) → toy_private_der key ≡ ok der → read_private der ≡ ok key
read_private_lem key der e = ground arith

read_public_lem :
    (key : RsaPublicKey) (der : Bytes) → toy_public_der key ≡ ok der → read_public der ≡ ok key
read_public_lem key der e = ground arith

unpad_lem : (padding : Padding) (msg : Bytes) → unpad padding (tag_of padding ∷ msg) ≡ ok msg
unpad_lem padding msg = rw (==_refl (tag_of padding))

abbrev pub toy : Crates
toy = record {
  cbc_encrypt = sized;
  cbc_decrypt = sized;
  hmac_sha256 = tag 32;
  hmac_sha1 = tag 20;
  hkdf_from_prk = λ prk. ok prk;
  hkdf_expand = λ prk info n. ok (tag n prk info);
  argon2_params = λ m t p. if leb 8 m then ok tt else err (b'm' ∷ []);
  argon2_hash = λ m t p password salt. ok (tag 32 password salt);
  pbkdf2_sha256 = λ password salt rounds. tag 32 password salt;
  rsa_new = λ seed bits. ok (record { numbers = seed });
  to_public_key = λ key. record { numbers = key.numbers };
  to_pkcs8_der = toy_private_der;
  from_pkcs8_der = read_private;
  to_public_key_der = toy_public_der;
  from_public_key_der = read_public;
  rsa_encrypt = λ padding key noise msg. ok (tag_of padding ∷ msg);
  rsa_decrypt = λ padding key ct. unpad padding ct;
  b64_encode = map (λ b. b + 256);
  b64_decode = unshift;
  to_lowercase = map (λ c. if leb 65 c && leb c 90 then c + 32 else c);
  to_uppercase = λ c. (if leb 97 c && leb c 122 then c - 32 else c) ∷ [];
  as_bytes = λ s. s;
}

replicate-IsArray : (n b : ℕ) → b < 256 → IsArray n (replicate n b)
replicate-IsArray zero b h = (refl, refl)
replicate-IsArray (suc n) b h =
    let (len, bytes) = replicate-IsArray n b h in (ap suc len, ground arith)

tag-IsArray : (n : ℕ) (key msg : Bytes) → IsArray n (tag n key msg)
tag-IsArray n key msg = replicate-IsArray n _ (omega arith)

unshift_shift : (bs : Bytes) → map (λ c. c - 256) (map (λ b. b + 256) bs) ≡ bs
unshift_shift [] = refl
unshift_shift (b ∷ bs) = ground (arith, unshift_shift bs)

shift-lacks-bar : (bs : Bytes) → lacks b'|' (map (λ b. b + 256) bs) ≡ true
shift-lacks-bar [] = refl
shift-lacks-bar (b ∷ bs) = ground (arith, shift-lacks-bar bs)

sized_lem : (key iv text : Bytes) → length key ≡ 32 → length iv ≡ 16 → sized key iv text ≡ some text
sized_lem key iv text p q = ground arith

pub toy-CbcLaws : CbcLaws toy
toy-CbcLaws = record {
  cbc_inverse = λ key iv plaintext k i p.
      (plaintext, sized_lem key iv plaintext k.0 i.0, sized_lem key iv plaintext k.0 i.0, p);
}

pub toy-HmacLaws : HmacLaws toy
toy-HmacLaws = record { hmac_sha256-IsArray = λ key msg. tag-IsArray 32 key msg }

pub toy-Sha1Laws : Sha1Laws toy
toy-Sha1Laws = record { hmac_sha1-length = λ key msg. (tag-IsArray 20 key msg).0 }

pub toy-HkdfLaws : HkdfLaws toy
toy-HkdfLaws = record {
  from_prk-ok = λ prk h. refl;
  expand-ok = λ prk info n h k. (tag n prk info, refl, tag-IsArray n prk info);
}

pub toy-B64Laws : B64Laws toy
toy-B64Laws = record {
  decode-encode = λ bs h. ap ok (unshift_shift bs);
  encode-lacks-bar = λ bs. shift-lacks-bar bs;
}

pub toy-RsaLaws : RsaLaws toy
toy-RsaLaws = record {
  pkcs8_inverse = read_private_lem;
  public_key_inverse = read_public_lem;
  rsa_inverse =
      λ padding seed noise msg bits key e b l. (tag_of padding ∷ msg, refl, unpad_lem padding msg);
}
