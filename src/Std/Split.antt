-- ===== src/Std/Split.antt =====
-- `str::split_once` and `str::splitn` at a character, and what they do to text joined by it.
use nad_safe_password_manage.Prelude.{
  ℕ, zero, suc, ◌≡◌, Bool, true, not, Option, none, some, List, [], ◌∷◌, ◌++◌, arith, Str, ◌==◌,
  ==_refl, every, if◌then◌else◌,
}

-- the text before and after the first `sep`
unfoldable pub split_once : ℕ → Str → Option (Str × Str)
split_once sep [] = none
split_once sep (c ∷ s) =
    let rest = split_once sep s in
    if c == sep
    then some ([], s)
    else elim rest [ none ↦ none | some (before, after) ↦ some (c ∷ before, after) ]

-- at most `n` pieces, the last one with the rest of the text
unfoldable pub splitn : ℕ → ℕ → Str → List Str
unfolding split_once
splitn zero sep s = []
splitn (suc zero) sep s = s ∷ []
splitn (suc (suc n)) sep s = elim (split_once sep s) [
  | none ↦ s ∷ []
  | some (before, after) ↦ before ∷ splitn (suc n) sep after
]

abbrev pub lacks : ℕ → Str → Bool
lacks sep s = every (λ c. not (c == sep)) s

pub split_once-append :
    (sep : ℕ) (a b : Str) → lacks sep a ≡ true → split_once sep (a ++ sep ∷ b) ≡ some (a, b)
unfolding split_once
split_once-append sep [] b h = rw (==_refl sep)
split_once-append sep (c ∷ a) b h = ground (arith, split_once-append sep a b)

pub splitn-three :
    (sep : ℕ) (a b c : Str)
    → lacks sep a ≡ true
    → lacks sep b ≡ true
    → splitn 3 sep (a ++ sep ∷ (b ++ sep ∷ c)) ≡ a ∷ b ∷ c ∷ []
unfolding splitn
splitn-three sep a b c ha hb =
    rw (split_once-append sep a (b ++ sep ∷ c) ha, splitn)
      (rw (split_once-append sep b c hb, splitn))
