-- ===== src/Crypto/Recovery.antt =====
-- crates/crypto-core/src/recovery.rs
pub mod Hex
pub mod Phrase
pub mod Unwrap
use nad_safe_password_manage.Prelude.{
  ℕ, zero, suc, ◌+◌, ◌*◌, ◌/◌, ◌%◌, Bool, not, ◌&&◌, List, [], ◌∷◌, ◌++◌, Bytes, Str, Result, ok,
  err, ◌>>=◌, ◌>>◌, ensure, ok_or, map_err, ◌==◌, ltb, length, take, drop, keep_if, every,
  if◌then◌else◌,
}
use nad_safe_password_manage.Std.{is_whitespace, is_ascii_hexdigit, str_len, u8_from_str_radix}
use nad_safe_password_manage.Crypto.Crates.{Crates}
use nad_safe_password_manage.Crypto.EncString
use nad_safe_password_manage.Crypto.EncString.{EncString}
use nad_safe_password_manage.Crypto.Error.{CryptoError, kdf, invalid_recovery_phrase}
use nad_safe_password_manage.Crypto.UserKey
use nad_safe_password_manage.Crypto.UserKey.{UserKey}

-- b"nadsafe-recovery-v1"
abbrev pub recovery_info : Bytes
recovery_info =
    b'n' ∷ b'a' ∷ b'd' ∷ b's' ∷ b'a' ∷ b'f' ∷ b'e' ∷ b'-' ∷ b'r' ∷ b'e' ∷ b'c' ∷ b'o' ∷ b'v' ∷ b'e'
    ∷ b'r' ∷ b'y' ∷ b'-' ∷ b'v' ∷ b'1' ∷ []

-- on the 32 random bytes that it draws
unfoldable pub generate_recovery_entropy : Bytes → Bytes
generate_recovery_entropy drawn = drawn

-- `{:x}` of a number below 16
unfoldable pub hex_digit : ℕ → ℕ
hex_digit d = if ltb d 10 then 48 + d else 87 + d

-- `{b:02x}` of every byte, collected
unfoldable pub hex : Bytes → Str
unfolding hex_digit
hex [] = []
hex (b ∷ bs) = hex_digit (b / 16) ∷ hex_digit (b % 16) ∷ hex bs

-- `chunks(n)`, one chunk for each round: as many rounds as there are items are enough
unfoldable pub chunks : ℕ → ℕ → Str → List Str
chunks zero n s = []
chunks (suc f) n [] = []
chunks (suc f) n (c ∷ s) = take n (c ∷ s) ∷ chunks f n (drop n (c ∷ s))

-- `join(sep)`
unfoldable pub join : Str → List Str → Str
join sep [] = []
join sep (s ∷ []) = s
join sep (s ∷ t ∷ r) = s ++ (sep ++ join sep (t ∷ r))

unfoldable pub entropy_to_phrase : Bytes → Str
entropy_to_phrase entropy =
    let digits = hex entropy in join (b' ' ∷ []) (chunks (length digits) 8 digits)

-- `phrase.chars().filter(|c| !c.is_whitespace())`
unfoldable pub strip : Str → Str
strip = keep_if (λ c. not (is_whitespace c))

-- the loop over `entropy.iter_mut().enumerate()`, with the rounds left and the index
unfoldable pub bytes_at : ℕ → ℕ → Str → Result CryptoError Bytes
unfolding u8_from_str_radix
bytes_at zero i digits = ok []
bytes_at (suc n) i digits = do
  byte ← ok_or invalid_recovery_phrase (u8_from_str_radix 16 (take 2 (drop (i * 2) digits)))
  rest ← bytes_at n (i + 1) digits
  ok (byte ∷ rest)

unfoldable pub phrase_to_entropy : Str → Result CryptoError Bytes
phrase_to_entropy phrase = do
  let digits = strip phrase
  ensure (str_len digits == 64 && every is_ascii_hexdigit digits) invalid_recovery_phrase
  bytes_at 32 0 digits

module _ (c : Crates) where
  unfoldable pub recovery_key_from_entropy : Bytes → Result CryptoError Bytes
  recovery_key_from_entropy entropy = do
    hk ← map_err kdf (c.hkdf_from_prk entropy)
    map_err kdf (c.hkdf_expand hk recovery_info 64)

  -- `iv` are the 16 random bytes of the encryption
  unfoldable pub wrap_user_key_with_recovery :
      UserKey → Bytes → Bytes → Result CryptoError EncString
  wrap_user_key_with_recovery user_key entropy iv = do
    recovery_key_bytes ← recovery_key_from_entropy entropy
    sym ← EncString.from_bytes recovery_key_bytes
    EncString.encrypt c (UserKey.raw_bytes user_key) sym iv

  unfoldable pub unwrap_user_key_with_recovery : EncString → Str → Result CryptoError UserKey
  unwrap_user_key_with_recovery enc_user_key phrase = do
    entropy ← phrase_to_entropy phrase
    recovery_key_bytes ← recovery_key_from_entropy entropy
    sym ← EncString.from_bytes recovery_key_bytes
    raw ← EncString.decrypt c enc_user_key sym
    UserKey.from_bytes raw
