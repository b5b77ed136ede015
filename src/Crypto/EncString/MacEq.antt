-- ===== src/Crypto/EncString/MacEq.antt =====
-- `constant_time_eq` decides equality of byte arrays.
use Prim.Native.Nat.{bit_or, bit_xor}
use nad_safe_password_manage.Prelude.{
  ℕ, zero, suc, ◌<◌, ◌≡◌, ◌↔◌, refl, sym, ◌∙◌, Bool, true, false, ◌&&◌, [], ◌∷◌, arith, Bytes, ltb,
  ◌==◌, length,
}
use nad_safe_password_manage.Crypto.Crates.{IsBytes, IsArray}
use nad_safe_password_manage.Crypto.EncString.{diff_bytes, constant_time_eq}

-- whether a test holds of each of the first `n` numbers
for_bytes : ℕ → (ℕ → Bool) → Bool
for_bytes zero test = true
for_bytes (suc n) test = for_bytes n test && test n

for_bytes_lem : (test : ℕ → Bool) (n b : ℕ) → b < n → for_bytes n test ≡ true → test b ≡ true
unfolding for_bytes
for_bytes_lem test zero b below h = absurd (omega arith)
for_bytes_lem test (suc n) b below h = ground (arith, for_bytes_lem test n b)

same : Bool → Bool → Bool
same true b = b
same false true = false
same false false = true

same-eq : (a b : Bool) → same a b ≡ true → a ≡ b
unfolding same
same-eq a b h = ground arith

-- what one round of the loop uses, on one pair of bytes
facts : ℕ → ℕ → Bool
facts x y =
    ltb (bit_xor x y) 256
    && ltb (bit_or x y) 256
    && same (bit_xor x y == 0) (x == y)
    && same (bit_or x y == 0) (x == 0 && y == 0)

facts_table : for_bytes 256 (λ x. for_bytes 256 (facts x)) ≡ true
unfolding for_bytes facts same
facts_table = refl

facts_lem : (x y : ℕ) → x < 256 → y < 256 → facts x y ≡ true
facts_lem x y hx hy =
    for_bytes_lem (facts x) 256 y hy
      (for_bytes_lem (λ x. for_bytes 256 (facts x)) 256 x hx facts_table)

bit_xor_byte : (x y : ℕ) → x < 256 → y < 256 → (bit_xor x y < 256) × ((bit_xor x y == 0) ≡ (x == y))
unfolding facts same
bit_xor_byte x y hx hy = ground (arith, facts_lem x y hx hy)

bit_or_byte :
    (x y : ℕ) → x < 256 → y < 256 → (bit_or x y < 256) × ((bit_or x y == 0) ≡ (x == 0 && y == 0))
unfolding facts same
bit_or_byte x y hx hy = ground (arith, facts_lem x y hx hy)

equal : Bytes → Bytes → Bool
equal [] [] = true
equal (x ∷ xs) (y ∷ ys) = x == y && equal xs ys
equal _ _ = false

equal_lem : (xs ys : Bytes) → (equal xs ys ≡ true) ↔ (xs ≡ ys)
unfolding equal
equal_lem [] [] = ground arith
equal_lem [] (y ∷ ys) = ground arith
equal_lem (x ∷ xs) [] = ground arith
equal_lem (x ∷ xs) (y ∷ ys) = ground (arith, equal_lem xs ys)

diff_bytes-equal :
    (diff : ℕ) (a b : Bytes)
    → diff < 256
    → length a ≡ length b
    → IsBytes a
    → IsBytes b
    → (diff_bytes diff a b == 0) ≡ (diff == 0 && equal a b)
unfolding diff_bytes equal
diff_bytes-equal diff [] [] d l p q = ground arith
diff_bytes-equal diff [] (y ∷ b) d l p q = absurd (omega arith)
diff_bytes-equal diff (x ∷ a) [] d l p q = absurd (omega arith)
diff_bytes-equal diff (x ∷ a) (y ∷ b) d l p q =
    let dx = bit_xor_byte x y (ground arith) (ground arith) in
    let dor = bit_or_byte diff (bit_xor x y) d dx.0 in
    ground (
      arith,
      dx,
      dor,
      diff_bytes-equal (bit_or diff (bit_xor x y)) a b dor.0 (omega arith) (ground arith)
          (ground arith),
    )

-- On two arrays of one length the folded differences are zero exactly if the arrays are equal.
pub constant_time_eq_iff :
    (n : ℕ) (a b : Bytes) → IsArray n a → IsArray n b → (constant_time_eq a b ≡ true) ↔ (a ≡ b)
unfolding constant_time_eq
constant_time_eq_iff n a b p q =
    ground (arith, diff_bytes-equal 0 a b (omega arith) (p.0 ∙ sym q.0) p.1 q.1, equal_lem a b)
