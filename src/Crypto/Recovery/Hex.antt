-- ===== src/Crypto/Recovery/Hex.antt =====
-- Hexadecimal text: every pair of digits, in either case, is read as the byte that it writes.
use mathlib.Core.List.{append_assoc}
use nad_safe_password_manage.Prelude.{
  ℕ, zero, suc, ◌+◌, ◌-◌, ◌*◌, ◌/◌, ◌%◌, ◌<◌, ◌≡◌, refl, ap, true, false, [], ◌∷◌, ◌++◌, map, some,
  Bytes, Str, ok, arith, ◌==◌, ltb, lt→ltb, leb, length, every, ◌&&◌, if◌then◌else◌, every-cons,
  drop-length-append, length-append,
}
use nad_safe_password_manage.Std.{is_ascii_hexdigit, to_digit, digits_value, u8_from_str_radix}
use nad_safe_password_manage.Crypto.Crates.{IsBytes}
use nad_safe_password_manage.Crypto.Recovery.{hex_digit, hex, bytes_at}

-- ASCII letters in lower case
abbrev pub to_ascii_lowercase : ℕ → ℕ
to_ascii_lowercase c = if leb b'A' c && leb c b'Z' then c + 32 else c

to_digit_hex :
    (c : ℕ)
    → is_ascii_hexdigit c ≡ true
    → (d : ℕ) × (to_digit 16 c ≡ some d)
      × (d < 16)
      × (to_ascii_lowercase c ≡ hex_digit d)
      × ((c == b'+') ≡ false)
unfolding is_ascii_hexdigit to_digit hex_digit
to_digit_hex c h =
    let d : ℕ = if leb c 57 then c - 48 else if leb c 70 then c - 55 else c - 87 in
    (d, ground arith, ground arith, ground arith, ground arith)

read_two :
    (a b x y : ℕ)
    → to_digit 16 a ≡ some x
    → to_digit 16 b ≡ some y
    → x < 16
    → y < 16
    → (a == b'+') ≡ false
    → u8_from_str_radix 16 (a ∷ b ∷ []) ≡ some (x * 16 + y)
unfolding u8_from_str_radix
read_two a b x y ex ey lx ly p = rw p (rw (ex, digits_value) (rw (ey, digits_value) (ground arith)))

two_digits :
    (a b : ℕ)
    → is_ascii_hexdigit a ≡ true
    → is_ascii_hexdigit b ≡ true
    → (v : ℕ) × (u8_from_str_radix 16 (a ∷ b ∷ []) ≡ some v)
      × (v < 256)
      × (to_ascii_lowercase a ≡ hex_digit (v / 16))
      × (to_ascii_lowercase b ≡ hex_digit (v % 16))
two_digits a b ha hb =
    let (x, ex, lx, wx, px) = to_digit_hex a ha in
    let (y, ey, ly, wy, py) = to_digit_hex b hb in
    let high : (x * 16 + y) / 16 ≡ x = omega arith in
    let low : (x * 16 + y) % 16 ≡ y = omega arith in
    (x * 16 + y, read_two a b x y ex ey lx ly px, omega arith, rw high wx, rw low wy)

pub bytes_at_reads :
    (n i : ℕ) (pre s : Str)
    → length pre ≡ i * 2
    → length s ≡ n * 2
    → every is_ascii_hexdigit s ≡ true
    → (e : Bytes) × (bytes_at n i (pre ++ s) ≡ ok e)
      × (map to_ascii_lowercase s ≡ hex e)
      × (length e ≡ n)
      × IsBytes e
unfolding bytes_at hex
bytes_at_reads zero i pre [] p l h = ([], refl, refl, refl, refl)
bytes_at_reads zero i pre (a ∷ s) p l h = absurd (omega arith)
bytes_at_reads (suc n) i pre [] p l h = absurd (omega arith)
bytes_at_reads (suc n) i pre (a ∷ []) p l h = absurd (omega arith)
bytes_at_reads (suc n) i pre (a ∷ b ∷ s) p l h =
    let (ha, h') = every-cons is_ascii_hexdigit a (b ∷ s) h in
    let (hb, hs) = every-cons is_ascii_hexdigit b s h' in
    let (v, read, small, wa, wb) = two_digits a b ha hb in
    let pre' = pre ++ a ∷ b ∷ [] in
    let (e, rest, written, len, bytes) =
      bytes_at_reads n (i + 1) pre' s (omega (arith, length-append pre (a ∷ b ∷ []))) (omega arith)
        hs in
    (
      v ∷ e,
      rw (drop-length-append pre (a ∷ b ∷ s) (i * 2) p)
          (rw read (let rest' = rw (append_assoc pre (a ∷ b ∷ []) s) at rest in rw rest')),
      rw wa (rw wb (rw written)),
      ap suc len,
      rw (lt→ltb v 256 small) bytes,
    )

hex_digit-injective : (a b : ℕ) → a < 16 → b < 16 → hex_digit a ≡ hex_digit b → a ≡ b
unfolding hex_digit
hex_digit-injective a b ha hb e = ground arith

byte_of_digits : (x y : ℕ) → x / 16 ≡ y / 16 → x % 16 ≡ y % 16 → x ≡ y
byte_of_digits x y h l = omega arith

pub hex-injective : (a b : Bytes) → IsBytes a → IsBytes b → hex a ≡ hex b → a ≡ b
unfolding hex
hex-injective [] [] p q e = refl
hex-injective [] (y ∷ b) p q e = cc
hex-injective (x ∷ a) [] p q e = cc
hex-injective (x ∷ a) (y ∷ b) p q e =
    let (px, pa) = every-cons (λ b. ltb b 256) x a p in
    let (qy, qb) = every-cons (λ b. ltb b 256) y b q in
    let high = hex_digit-injective (x / 16) (y / 16) (ground arith) (ground arith) (cc) in
    let low = hex_digit-injective (x % 16) (y % 16) (omega arith) (omega arith) (cc) in
    cc (hex-injective a b pa qb (cc), byte_of_digits x y high low)

pub length-hex : (e : Bytes) → length (hex e) ≡ length e * 2
unfolding hex
length-hex [] = refl
length-hex (b ∷ e) = omega (arith, length-hex e)
