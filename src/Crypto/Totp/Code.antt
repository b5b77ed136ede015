-- ===== src/Crypto/Totp/Code.antt =====
-- The code: six decimal digits, for any secret that decodes.
use nad_safe_password_manage.Prelude.{
  ℕ, zero, suc, ◌+◌, ◌-◌, ◌*◌, ◌/◌, ◌%◌, ◌^◌, ◌<◌, ◌≤◌, ◌≡◌, refl, sym, ap, ◌∙◌, Bool, true, false,
  some, [], ◌∷◌, ◌++◌, Bytes, Str, ok, ltb, leb, length, length-append, get_elem?-lt, replicate,
  every, every-append, arith, Bool-cases, inl, inr, lt→ltb, ◌&&◌,
}
use native.Mathlib.Nat.{pow-suc}
use nad_safe_password_manage.Std.Decimal.{decimal_rounds, decimal, zero_padded}
use nad_safe_password_manage.Crypto.Crates.{Crates, Sha1Laws}
use nad_safe_password_manage.Crypto.Totp.{
  truncate, hotp, base32_decode, generate_totp, low_4_bits, to_be_bytes,
}

abbrev pub is_digit : ℕ → Bool
is_digit c = leb b'0' c && leb c b'9'

-- the number that digits write
abbrev pub read : ℕ → Str → ℕ
read acc [] = acc
read acc (c ∷ s) = read (acc * 10 + (c - 48)) s

read-snoc : (acc : ℕ) (s : Str) (c : ℕ) → read acc (s ++ c ∷ []) ≡ read acc s * 10 + (c - 48)
read-snoc acc [] c = refl
read-snoc acc (x ∷ s) c = read-snoc (acc * 10 + (x - 48)) s c

last_digit : (n : ℕ) → every is_digit ((48 + n % 10) ∷ []) ≡ true
last_digit n = ground arith

-- what is known of the decimal text of a number below 10 ^ k
record Writes (k n : ℕ) (s : Str) : Type 0 where
  short : length s ≤ k
  digits : every is_digit s ≡ true
  value : read 0 s ≡ n

one_digit : (k f n : ℕ) → ltb n 10 ≡ true → Writes (suc k) n (decimal_rounds (suc f) n)
unfolding decimal_rounds
one_digit k f n h =
    rw h (record { short = omega arith; digits = ground arith; value = omega arith })

more_digits :
    (k f n : ℕ)
    → ltb n 10 ≡ false
    → Writes k (n / 10) (decimal_rounds f (n / 10))
    → Writes (suc k) n (decimal_rounds (suc f) n)
unfolding decimal_rounds
more_digits k f n h w =
    let front = decimal_rounds f (n / 10) in
    let last = 48 + n % 10 in
    rw h (record {
      short = omega (arith, length-append front (last ∷ []), w.short);
      digits = rw (every-append is_digit front (last ∷ [])) (rw w.digits (last_digit n));
      value = rw (read-snoc 0 front last) (omega (arith, w.value));
    })

decimal_rounds-Writes : (k f n : ℕ) → n < f → n < 10 ^ suc k → Writes (suc k) n (decimal_rounds f n)
decimal_rounds-Writes k zero n h l = absurd (omega arith)
decimal_rounds-Writes zero (suc f) n h l = one_digit zero f n (lt→ltb n 10 l)
decimal_rounds-Writes (suc k) (suc f) n h l = elim (Bool-cases (ltb n 10)) [
  | inl one ↦ one_digit (suc k) f n one
  | inr more ↦
      more_digits (suc k) f n more
        (decimal_rounds-Writes k f (n / 10) (ground arith) (omega (arith, pow-suc 10 (suc k), l)))
]

read-zeros : (n : ℕ) (s : Str) → read 0 (replicate n b'0' ++ s) ≡ read 0 s
read-zeros zero s = refl
read-zeros (suc n) s = read-zeros n s

zeros_digits :
    (n : ℕ) → (every is_digit (replicate n b'0') ≡ true) × (length {A = ℕ} (replicate n b'0') ≡ n)
zeros_digits zero = (refl, refl)
zeros_digits (suc n) = let (d, l) = zeros_digits n in (d, ap suc l)

-- A number below 10 ^ width is printed in exactly `width` digits that read as the number.
zero_padded_lem :
    (k n : ℕ)
    → n < 10 ^ suc k
    → (length (zero_padded (suc k) n) ≡ suc k)
      × (every is_digit (zero_padded (suc k) n) ≡ true)
      × (read 0 (zero_padded (suc k) n) ≡ n)
unfolding zero_padded decimal
zero_padded_lem k n h =
    let w = decimal_rounds-Writes k (suc n) n (omega arith) h in
    let text = decimal_rounds (suc n) n in
    let zeros = suc k - length text in
    let (zero_digits, zero_count) = zeros_digits zeros in
    (
      omega (arith, length-append (replicate zeros b'0') text, zero_count, w.short),
      rw (every-append is_digit (replicate zeros b'0') text) (rw zero_digits w.digits),
      read-zeros zeros text ∙ w.value,
    )

-- twenty bytes are enough for every offset
truncate_total :
    (result : Bytes)
    → length result ≡ 20
    → (code : ℕ) × (truncate result 6 ≡ some code) × (code < 10 ^ 6)
unfolding truncate
truncate_total result h =
    let (last, found) = get_elem?-lt result 19 (omega arith) in
    let offset = low_4_bits last in
    let (a, fa) = get_elem?-lt result offset (omega arith) in
    let (b, fb) = get_elem?-lt result (offset + 1) (omega arith) in
    let (c, fc) = get_elem?-lt result (offset + 2) (omega arith) in
    let (d, fd) = get_elem?-lt result (offset + 3) (omega arith) in
    (
      ((((a % 128) * 256 + b) * 256 + c) * 256 + d) % 10 ^ 6,
      rw found (rw fa (rw fb (rw fc (rw fd)))),
      omega arith,
    )

module _ (c : Crates) (sha1 : Sha1Laws c) where
  -- For a secret that decodes, the code is six decimal digits that read as the HOTP value at the
  -- number of whole 30-second periods; no index is out of range.
  pub generate_totp_code :
      (secret_b32 : Str) (timestamp_secs : ℕ) (secret : Bytes)
      → base32_decode c secret_b32 ≡ ok secret
      → (code : Str) × (generate_totp c secret_b32 timestamp_secs ≡ some (ok code))
        × (length code ≡ 6)
        × (every is_digit code ≡ true)
        × (hotp c secret (timestamp_secs / 30) 6 ≡ some (read 0 code))
  unfolding generate_totp hotp
  generate_totp_code secret_b32 t secret e =
      let mac = c.hmac_sha1 secret (to_be_bytes 8 (t / 30)) in
      let (value, truncated, small) =
        truncate_total mac (sha1.hmac_sha1-length secret (to_be_bytes 8 (t / 30))) in
      let (len, digits, reads) = zero_padded_lem 5 value small in
      (
        zero_padded 6 value,
        rw (e, generate_totp) (rw (truncated, generate_totp)),
        len,
        digits,
        truncated ∙ ap some (sym reads),
      )
