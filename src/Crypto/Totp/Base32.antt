-- ===== src/Crypto/Totp/Base32.antt =====
-- Base 32 as numbers: the decoded bytes are the leading bits of the number that the characters
-- write in base 32, most significant first.
use nad_safe_password_manage.Prelude.{
  ℕ, zero, suc, ◌+◌, ◌-◌, ◌*◌, ◌/◌, ◌%◌, ◌^◌, ◌<◌, ◌≡◌, refl, true, Option, none, some, List, [],
  ◌∷◌, ◌++◌, Bytes, Str, Result, ok, err, ltb, leb, length, length-append, arith, Bool-cases, inl,
  inr, Option-cases, lt→ltb, ltb→lt, every, every-cons,
}
use nad_safe_password_manage.Crypto.Crates.{Crates, IsBytes}
use nad_safe_password_manage.Crypto.EncString.KeyBytes.{IsBytes-append}
use nad_safe_password_manage.Crypto.Totp.{
  TotpError, invalid_base32, alphabet, position, Decoder, start, push, decode, cleaned,
  base32_decode,
}

-- digits in a base, the most significant first
abbrev pub number : ℕ → ℕ → List ℕ → ℕ
number base acc [] = acc
number base acc (d ∷ ds) = number base (acc * base + d) ds

-- the values of the characters, if all are in the alphabet
pub values : Str → Option (List ℕ)
values [] = some []
values (ch ∷ s) = elim (position ch alphabet) [
  | none ↦ none
  | some v ↦ elim (values s) [ none ↦ none | some vs ↦ some (v ∷ vs) ]
]

number-snoc :
    (base acc : ℕ) (ds : List ℕ) (d : ℕ)
    → number base acc (ds ++ d ∷ []) ≡ number base acc ds * base + d
number-snoc base acc [] d = refl
number-snoc base acc (x ∷ ds) d = number-snoc base (acc * base + x) ds d

-- `total` is the number read so far, from `count` characters
pub record Inv (d : Decoder) (total count : ℕ) : Type 0 where
  pub few : d.bit_count < 8
  pub fits : d.bits < 2 ^ d.bit_count
  pub same : number 256 0 d.output * 2 ^ d.bit_count + d.bits ≡ total
  pub bits_are : 8 * length d.output + d.bit_count ≡ 5 * count

-- the fields of the decoder and the numbers of `Inv`, one by one
abbrev Fits : ℕ → ℕ → Bytes → ℕ → ℕ → Type 0
Fits bits bit_count output total count =
    Inv (record { bits = bits; bit_count = bit_count; output = output }) total count

-- the byte that a round appends, in `Inv`'s equations
appended :
    (o : Bytes) (b : ℕ)
    → (number 256 0 (o ++ b ∷ []) ≡ number 256 0 o * 256 + b)
      × (length (o ++ b ∷ []) ≡ length o + 1)
appended o b = (number-snoc 256 0 o b, length-append o (b ∷ []))

push_cases :
    (bit_count bits total count val : ℕ) (output : Bytes)
    → val < 32
    → Fits bits bit_count output total count
    → Inv
        (push (record { bits = bits; bit_count = bit_count; output = output }) val)
        (total * 32 + val)
        (count + 1)
unfolding push
push_cases zero bits t c v o lt h = omega arith
push_cases (suc zero) bits t c v o lt h = omega arith
push_cases (suc (suc zero)) bits t c v o lt h = omega arith
push_cases (suc (suc (suc zero))) bits t c v o lt h =
    omega (arith, appended o (((bits * 32) % 2 ^ 32 + v) / 1 % 256))
push_cases (suc (suc (suc (suc zero)))) bits t c v o lt h =
    omega (arith, appended o (((bits * 32) % 2 ^ 32 + v) / 2 % 256))
push_cases (suc (suc (suc (suc (suc zero))))) bits t c v o lt h =
    omega (arith, appended o (((bits * 32) % 2 ^ 32 + v) / 4 % 256))
push_cases (suc (suc (suc (suc (suc (suc zero)))))) bits t c v o lt h =
    omega (arith, appended o (((bits * 32) % 2 ^ 32 + v) / 8 % 256))
push_cases (suc (suc (suc (suc (suc (suc (suc zero))))))) bits t c v o lt h =
    omega (arith, appended o (((bits * 32) % 2 ^ 32 + v) / 16 % 256))
push_cases (suc (suc (suc (suc (suc (suc (suc (suc n)))))))) bits t c v o lt h =
    absurd (omega (arith, h.few))

push-Inv :
    (d : Decoder) (total count val : ℕ)
    → val < 32
    → Inv d total count
    → Inv (push d val) (total * 32 + val) (count + 1)
push-Inv d total count val lt h = push_cases d.bit_count d.bits total count val d.output lt h

push-IsBytes : (d : Decoder) (val : ℕ) → IsBytes d.output → IsBytes (push d val).output
unfolding push
push-IsBytes d val h =
    let bits = (d.bits * 32) % 2 ^ 32 + val in
    let b = (bits / 2 ^ (d.bit_count + 5 - 8)) % 256 in
    elim (Bool-cases (leb 8 (d.bit_count + 5))) [
      | inl full ↦
          rw full (IsBytes-append d.output (b ∷ []) h (rw (lt→ltb b 256 (omega arith)) refl))
      | inr room ↦ rw room h
    ]

position-lt : (ch : ℕ) (bs : Bytes) (i : ℕ) → position ch bs ≡ some i → i < length bs
unfolding position
position-lt ch [] i e = cc
position-lt ch (b ∷ bs) i e = elim (Option-cases (position ch bs)) [
  | inl missing ↦ ground arith
  | inr (j, found) ↦ ground (arith, position-lt ch bs j found)
]

position-ascii :
    (ch : ℕ) (bs : Bytes) (i : ℕ)
    → every (λ b. ltb b 128) bs ≡ true
    → position ch bs ≡ some i
    → ltb ch 128 ≡ true
unfolding position
position-ascii ch [] i h e = cc
position-ascii ch (b ∷ bs) i h e = elim (Option-cases (position ch bs)) [
  | inl missing ↦ ground arith
  | inr (j, found) ↦
      ground (arith, position-ascii ch bs j (every-cons (λ x. ltb x 128) b bs h).1 found)
]

-- what the text decodes to: nothing with a foreign character; else whole bytes, whose number
-- followed by `k` bits is the number of the text in base 32
abbrev pub Decodes : ℕ → ℕ → Option (List ℕ) → Result TotpError Bytes → Type 0
Decodes total count none r = r ≡ err invalid_base32
Decodes total count (some vs) r =
    (out : Bytes) × (k : ℕ) × (rest : ℕ) × (r ≡ ok out)
    × IsBytes out
    × (k < 8)
    × (rest < 2 ^ k)
    × (number 256 0 out * 2 ^ k + rest ≡ number 32 total vs)
    × (8 * length out + k ≡ 5 * (count + length vs))

abbrev cons_value : ℕ → Option (List ℕ) → Option (List ℕ)
cons_value v none = none
cons_value v (some vs) = some (v ∷ vs)

module _ (ch : ℕ) (s : Str) (d : Decoder) where
  values_foreign : position ch alphabet ≡ none → values (ch ∷ s) ≡ none
  unfolding values
  values_foreign e = rw (e, values)

  values_known : (v : ℕ) → position ch alphabet ≡ some v → values (ch ∷ s) ≡ cons_value v (values s)
  unfolding values
  values_known v e = rw (e, values) (ground arith)

  low_byte : ltb ch 128 ≡ true → ch % 256 ≡ ch
  low_byte h = omega (arith, ltb→lt ch 128 h)

  decode_foreign : position ch alphabet ≡ none → decode d (ch ∷ s) ≡ err invalid_base32
  unfolding decode
  decode_foreign e = elim (Bool-cases (ltb ch 128)) [
    | inl ascii ↦ rw (ascii, decode) (rw (low_byte ascii) (rw (e, decode)))
    | inr wide ↦ rw (wide, decode)
  ]

  decode_known : (v : ℕ) → position ch alphabet ≡ some v → decode d (ch ∷ s) ≡ decode (push d v) s
  unfolding decode
  decode_known v e =
      let ascii = position-ascii ch alphabet v refl e in
      rw (ascii, decode) (rw (low_byte ascii) (rw (e, decode)))

Decodes-cons :
    (total count v : ℕ) (o : Option (List ℕ)) (r : Result TotpError Bytes)
    → Decodes (total * 32 + v) (count + 1) o r
    → Decodes total count (cons_value v o) r
Decodes-cons total count v none r h = h
Decodes-cons total count v (some vs) r (out, k, rest, e, b, few, fits, same, bits_are) =
    (out, k, rest, e, b, few, fits, same, omega (arith, bits_are))

decode-Decodes :
    (s : Str) (d : Decoder) (total count : ℕ)
    → Inv d total count
    → IsBytes d.output
    → Decodes total count (values s) (decode d s)
decode-Decodes [] d total count h b =
    unfold decode values in
    (d.output, d.bit_count, d.bits, refl, b, h.few, h.fits, h.same, omega (arith, h.bits_are))
decode-Decodes (ch ∷ s) d total count h b = elim (Option-cases (position ch alphabet)) [
  | inl foreign ↦ rw (values_foreign ch s d foreign) (decode_foreign ch s d foreign)
  | inr (v, found) ↦
      let rest =
        decode-Decodes s (push d v) (total * 32 + v) (count + 1)
          (push-Inv d total count v (position-lt ch alphabet v found) h) (push-IsBytes d v b) in
      rw (values_known ch s d v found) (
        rw (decode_known ch s d v found)
          (Decodes-cons total count v (values s) (decode (push d v) s) rest))
]

-- The text is cleaned first: whitespace and the `=` at its end are removed, and the rest is put in
-- upper case. If the cleaned text then has a character outside the alphabet, the secret is refused.
-- Any other is decoded to bytes `out`, the most significant bits first: fewer than 8 bits are
-- dropped, and the number that the characters of the cleaned text write in base 32 is the number of
-- the bytes followed by the dropped bits.
pub base32_decode-Decodes :
    (c : Crates) (input : Str) → Decodes 0 0 (values (cleaned c input)) (base32_decode c input)
unfolding base32_decode
base32_decode-Decodes c input =
    decode-Decodes (cleaned c input) start 0 0
      (record { few = omega arith; fits = omega arith; same = refl; bits_are = refl }) refl
