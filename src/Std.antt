-- ===== src/Std.antt =====
-- What the sources use of Rust's standard library on text and numbers, over code points.
-- Unicode's case tables are no part of this: they are parameters where the sources need them.
pub mod Decimal
pub mod Split
use Prim.Native.Char.{code}
use Prim.Native.String.{String}
use nad_safe_password_manage.Prelude.{
  ℕ, ◌+◌, ◌-◌, ◌*◌, Bool, ◌&&◌, ◌||◌, Option, none, some, [], ◌∷◌, Str, ltb, leb, ◌==◌,
  if◌then◌else◌,
}

-- the characters of a literal
abbrev pub codes : String → Str
codes String.[] = []
codes (String.◌∷◌ c s) = code c ∷ codes s

abbrev within : ℕ → ℕ → ℕ → Bool
within lo hi c = leb lo c && leb c hi

-- `char::is_whitespace`: Unicode's White_Space property
unfoldable pub is_whitespace : ℕ → Bool
is_whitespace c =
    within 9 13 c
    || c == 32
    || c == 0x85
    || c == 0xa0
    || c == 0x1680
    || within 0x2000 0x200a c
    || c == 0x2028
    || c == 0x2029
    || c == 0x202f
    || c == 0x205f
    || c == 0x3000

-- `char::is_ascii_hexdigit`
unfoldable pub is_ascii_hexdigit : ℕ → Bool
is_ascii_hexdigit c = within b'0' b'9' c || within b'a' b'f' c || within b'A' b'F' c

-- `char::len_utf8`, and `str::len`, which counts bytes
unfoldable pub len_utf8 : ℕ → ℕ
len_utf8 c = if ltb c 0x80 then 1 else if ltb c 0x800 then 2 else if ltb c 0x10000 then 3 else 4

unfoldable pub str_len : Str → ℕ
unfolding len_utf8
str_len [] = 0
str_len (c ∷ s) = len_utf8 c + str_len s

-- `char::to_digit(radix)`
unfoldable pub to_digit : ℕ → ℕ → Option ℕ
to_digit radix c =
    let digit : ℕ =
      if within b'0' b'9' c
      then c - 48
      else if within b'a' b'z' c
      then c - 87
      else if within b'A' b'Z' c
      then c - 55
      else radix in
    if ltb digit radix then some digit else none

-- The loop of `from_str_radix`: `None` at a foreign digit or when the value passes `max`.
unfoldable pub digits_value : ℕ → ℕ → ℕ → Str → Option ℕ
digits_value radix max acc [] = some acc
digits_value radix max acc (c ∷ s) = elim (to_digit radix c) [
  | none ↦ none
  | some d ↦
      let value = acc * radix + d in
      let rest = digits_value radix max value s in if ltb max value then none else rest
]

-- `u8::from_str_radix` and, at radix 10, `str::parse::<u8>`: one leading `+` is accepted
unfoldable pub u8_from_str_radix : ℕ → Str → Option ℕ
unfolding digits_value
u8_from_str_radix radix [] = none
u8_from_str_radix radix (c ∷ []) = digits_value radix 255 0 (c ∷ [])
u8_from_str_radix radix (c ∷ d ∷ s) =
    if c == b'+' then digits_value radix 255 0 (d ∷ s) else digits_value radix 255 0 (c ∷ d ∷ s)
