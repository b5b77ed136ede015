-- ===== src/Prelude/Counts.antt =====
-- Counting over a list in another order.
use mathlib.Core.List.{Perm, Permᴰ, List, [], ◌∷◌}
use mathlib.Core.Logic.{∥∥₁_elim}
use mathlib.Core.Path.{◌≡◌, refl, ap, ◌∙◌}
use mathlib.Core.Bool.{Bool, true}
use Prim.Native.Nat.{ℕ, ◌≤◌}
use native.Mathlib.Nat.{ℕ_set}
use native.Mathlib.Omega.{arith}
use nad_safe_password_manage.Prelude.Lists.{length, every, count_if, count_if-every}
use nad_safe_password_manage.Prelude.Tests.{if◌then◌else◌}

module _ {ℓ} {A : Type ℓ} where
  count_if-permᴰ : (p : A → Bool) {xs ys : List A} → Permᴰ xs ys → count_if p xs ≡ count_if p ys
  count_if-permᴰ p Permᴰ.nil = refl
  count_if-permᴰ p (Permᴰ.cons e t) =
      omega (arith, ap {B = ℕ} (λ a. if p a then 1 else 0) e, count_if-permᴰ p t)
  count_if-permᴰ p (Permᴰ.swap e f) =
      omega
        (arith, ap {B = ℕ} (λ a. if p a then 1 else 0) e, ap {B = ℕ} (λ a. if p a then 1 else 0) f)
  count_if-permᴰ p (Permᴰ.trans s t) = count_if-permᴰ p s ∙ count_if-permᴰ p t

  pub count_if-perm : (p : A → Bool) {xs ys : List A} → Perm xs ys → count_if p xs ≡ count_if p ys
  count_if-perm p h = ∥∥₁_elim h (ℕ_set _ _) (λ t. count_if-permᴰ p t)

  count_if-all : (xs : List A) → count_if (λ _. true) xs ≡ length xs
  count_if-all [] = refl
  count_if-all (x ∷ xs) = omega (arith, count_if-all xs)

  pub length-perm : {xs ys : List A} → Perm xs ys → length xs ≡ length ys
  length-perm {xs} {ys} h =
      omega (arith, count_if-all xs, count_if-all ys, count_if-perm (λ _. true) h)

  count_if-le : (p : A → Bool) (xs : List A) → count_if p xs ≤ length xs
  count_if-le p [] = omega arith
  count_if-le p (x ∷ xs) = ground (arith, count_if-le p xs)

  every_of_count : (p : A → Bool) (xs : List A) → count_if p xs ≡ length xs → every p xs ≡ true
  every_of_count p [] e = refl
  every_of_count p (x ∷ xs) e = ground (arith, every_of_count p xs, count_if-le p xs)

  pub every-perm :
      (p : A → Bool) {xs ys : List A} → Perm xs ys → every p ys ≡ true → every p xs ≡ true
  every-perm p {xs} {ys} h e =
      every_of_count p xs (omega (arith, count_if-perm p h, length-perm h, count_if-every p ys e))
