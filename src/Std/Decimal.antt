-- ===== src/Std/Decimal.antt =====
-- `{}` of an unsigned number, and `{:0>width$}`.
use nad_safe_password_manage.Prelude.{
  ℕ, zero, suc, ◌+◌, ◌-◌, ◌/◌, ◌%◌, [], ◌∷◌, ◌++◌, Str, length, replicate, ltb, if◌then◌else◌,
}

-- one digit for each round; `n + 1` rounds are enough
unfoldable pub decimal_rounds : ℕ → ℕ → Str
decimal_rounds zero n = []
decimal_rounds (suc f) n =
    let front = decimal_rounds f (n / 10) in
    if ltb n 10 then (48 + n) ∷ [] else front ++ (48 + n % 10) ∷ []

unfoldable pub decimal : ℕ → Str
unfolding decimal_rounds
decimal n = decimal_rounds (suc n) n

-- filled on the left with `0` up to `width` characters
unfoldable pub zero_padded : ℕ → ℕ → Str
unfolding decimal
zero_padded width n = replicate (width - length (decimal n)) b'0' ++ decimal n
