-- ===== src/Server/EmergencyAccess/Kept.antt =====
-- What `password_emergency_access` leaves of the memberships and second factors of all accounts.
use nad_safe_password_manage.Prelude.{
  ℕ, ◌≡◌, refl, Bool, true, false, not, ◌||◌, List, [], ◌∷◌, ◌==◌, ==_iff, keep_if, every, arith,
}
use nad_safe_password_manage.Server.EmergencyAccess.Model.{Membership}
use nad_safe_password_manage.Server.EmergencyAccess.Recovery.{is_owner}

-- the rows of one query among those of another that holds of all of them
pub keep_if-within :
    {A : Type 0} (p q : A → Bool) (list : List A)
    → ((a : A) → p a ≡ true → q a ≡ true)
    → keep_if p (keep_if q list) ≡ keep_if p list
keep_if-within p q [] h = refl
keep_if-within p q (a ∷ list) h = ground (arith, h a, keep_if-within p q list h)

pub distinct : (a b c : ℕ) → (a == b) ≡ true → (c == b) ≡ false → (a == c) ≡ false
distinct a b c same other = let is : a ≡ b = (==_iff a b).0 same in ground arith

-- the memberships that are left to the owner of the account, and those that were ownerships
module _ (id : ℕ) where
  pub only_ownerships :
      (list : List Membership)
      → every
          (λ m. is_owner m.atype)
          (keep_if
            (λ m. m.user_uuid == id)
            (keep_if (λ m. not (m.user_uuid == id) || is_owner m.atype) list))
        ≡ true
  only_ownerships [] = refl
  only_ownerships (m ∷ list) = ground (arith, only_ownerships list)

  pub all_ownerships :
      (list : List Membership)
      → keep_if
          (λ m. is_owner m.atype)
          (keep_if
            (λ m. m.user_uuid == id)
            (keep_if (λ m. not (m.user_uuid == id) || is_owner m.atype) list))
        ≡ keep_if (λ m. is_owner m.atype) (keep_if (λ m. m.user_uuid == id) list)
  all_ownerships [] = refl
  all_ownerships (m ∷ list) = ground (arith, all_ownerships list)
