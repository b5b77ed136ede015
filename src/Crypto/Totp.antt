-- ===== src/Crypto/Totp.antt =====
-- crates/crypto-core/src/totp.rs. `none` is a panic: an index out of range.
pub mod Base32
pub mod Code
use nad_safe_password_manage.Prelude.{
  ℕ, zero, suc, ◌+◌, ◌-◌, ◌*◌, ◌/◌, ◌%◌, ◌^◌, Bool, true, false, not, Option, none, some, List, [],
  ◌∷◌, ◌++◌, Bytes, Str, Result, ok, err, ◌==◌, ltb, leb, get_elem?, keep_if, if◌then◌else◌,
}
use nad_safe_password_manage.Std.{codes, is_whitespace}
use nad_safe_password_manage.Std.Decimal.{zero_padded}
use nad_safe_password_manage.Crypto.Crates.{Crates}

abbrev pub default_period : ℕ
default_period = 30

abbrev pub default_digits : ℕ
default_digits = 6

pub data TotpError : Type 0 where
  invalid_base32 : TotpError

-- `u64::to_be_bytes` for `n` bytes
unfoldable pub to_be_bytes : ℕ → ℕ → Bytes
to_be_bytes zero v = []
to_be_bytes (suc n) v = to_be_bytes n (v / 256) ++ (v % 256) ∷ []

-- `u32::from_be_bytes`
abbrev pub from_be_bytes : ℕ → ℕ → ℕ → ℕ → ℕ
from_be_bytes a b c d = ((a * 256 + b) * 256 + c) * 256 + d

-- the masks 0x0f and 0x7f, of a byte
abbrev pub low_4_bits : ℕ → ℕ
low_4_bits b = b % 16

abbrev pub low_7_bits : ℕ → ℕ
low_7_bits b = b % 128

abbrev pub bind {ℓ κ} : {A : Type ℓ} {B : Type κ} → Option A → (A → Option B) → Option B
bind none f = none
bind (some a) f = f a

-- `hotp` from the 20 bytes of the HMAC
unfoldable pub truncate : Bytes → ℕ → Option ℕ
truncate result digits = bind (get_elem? result 19) λ last.
    let offset = low_4_bits last in
    bind (get_elem? result offset) λ a. bind (get_elem? result (offset + 1)) λ b.
      bind (get_elem? result (offset + 2)) λ c.
        bind (get_elem? result (offset + 3))
          λ d. some (from_be_bytes (low_7_bits a) b c d % (10 ^ digits))

-- `b"ABCDEFGHIJKLMNOPQRSTUVWXYZ234567"`
abbrev pub alphabet : Bytes
alphabet = codes "ABCDEFGHIJKLMNOPQRSTUVWXYZ234567"

-- `iter().position(|&b| b == ch)`
unfoldable pub position : ℕ → Bytes → Option ℕ
position ch [] = none
position ch (b ∷ bs) =
    if b == ch then some 0 else elim (position ch bs) [ none ↦ none | some i ↦ some (suc i) ]

-- the three variables of the loop
pub record Decoder : Type 0 where
  pub bits : ℕ
  pub bit_count : ℕ
  pub output : Bytes

abbrev pub start : Decoder
start = record { bits = 0; bit_count = 0; output = [] }

-- One round, for the value of a character. `bits << 5 | val` is a sum, as `val` is below 32; the
-- shifts are those of a `u32`.
unfoldable pub push : Decoder → ℕ → Decoder
push d val =
    let bits = (d.bits * 32) % 2 ^ 32 + val in
    let bit_count = d.bit_count + 5 in
    if leb 8 bit_count
    then record {
      bits = bits % 2 ^ (bit_count - 8);
      bit_count = bit_count - 8;
      output = d.output ++ ((bits / 2 ^ (bit_count - 8)) % 256) ∷ [];
    }
    else record d { bits = bits; bit_count = bit_count }

-- the loop over the characters; the cast `ch as u8` keeps the low byte
unfoldable pub decode : Decoder → Str → Result TotpError Bytes
decode d [] = ok d.output
decode d (ch ∷ s) = elim (ltb ch 128) [
  | false ↦ err invalid_base32
  | true ↦ elim (position (ch % 256) alphabet) [
    | none ↦ err invalid_base32
    | some val ↦ decode (push d val) s
  ]
]

-- `trim_end_matches('=')`
unfoldable pub trim_end : ℕ → Str → Str
trim_end pad [] = []
trim_end pad (ch ∷ s) = elim (trim_end pad s) [
  | [] ↦ if ch == pad then [] else ch ∷ []
  | x ∷ r ↦ ch ∷ x ∷ r
]

unfoldable pub flat_map : (ℕ → Str) → Str → Str
flat_map f [] = []
flat_map f (ch ∷ s) = f ch ++ flat_map f s

module _ (c : Crates) where
  unfoldable pub hotp : Bytes → ℕ → ℕ → Option ℕ
  hotp secret counter digits = truncate (c.hmac_sha1 secret (to_be_bytes 8 counter)) digits

  -- whitespace and padding stripped, in upper case
  unfoldable pub cleaned : Str → Str
  cleaned input =
      flat_map c.to_uppercase (trim_end b'=' (keep_if (λ ch. not (is_whitespace ch)) input))

  unfoldable pub base32_decode : Str → Result TotpError Bytes
  base32_decode input = decode start (cleaned input)

  unfoldable pub generate_totp : Str → ℕ → Option (Result TotpError Str)
  generate_totp secret_b32 timestamp_secs = elim (base32_decode secret_b32) [
    | err e ↦ some (err e)
    | ok secret ↦
        bind (hotp secret (timestamp_secs / default_period) default_digits)
          λ code. some (ok (zero_padded default_digits code))
  ]
