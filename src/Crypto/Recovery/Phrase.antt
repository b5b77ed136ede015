-- ===== src/Crypto/Recovery/Phrase.antt =====
-- What a recovery phrase means: which texts are accepted, and as which entropy.
use mathlib.Core.List.{append-nil, flatten}
use nad_safe_password_manage.Prelude.{
  ℕ, zero, suc, ◌/◌, ◌%◌, ◌<◌, ◌≤◌, ◌≡◌, ◌↔◌, refl, sym, ap, ◌∙◌, Bool, true, false, ◌&&◌, List, [],
  ◌∷◌, ◌++◌, map, Bytes, Str, ok, ensure, >>=-ok, arith, ltb, length, take, drop, every, ◌==◌,
  every-cons, keep_if-append, take-append-drop, length-drop, length-map,
}
use nad_safe_password_manage.Std.{is_ascii_hexdigit, is_whitespace, str_len}
use nad_safe_password_manage.Crypto.Crates.{IsArray, IsBytes}
use nad_safe_password_manage.Crypto.Error.{invalid_recovery_phrase}
use nad_safe_password_manage.Crypto.Recovery.{
  hex_digit, hex, chunks, join, strip, bytes_at, entropy_to_phrase, phrase_to_entropy,
}
use nad_safe_password_manage.Crypto.Recovery.Hex.{
  to_ascii_lowercase, bytes_at_reads, hex-injective, length-hex,
}

flatten-chunks : (f n : ℕ) (s : Str) → length s ≤ f → flatten (chunks f (suc n) s) ≡ s
unfolding chunks flatten
flatten-chunks zero n [] h = refl
flatten-chunks zero n (c ∷ s) h = absurd (omega arith)
flatten-chunks (suc f) n [] h = refl
flatten-chunks (suc f) n (c ∷ s) h =
    ap (λ r. (c ∷ take n s) ++ r) (flatten-chunks f n (drop n s) (omega (arith, length-drop n s)))
    ∙ ap (◌∷◌ c) (take-append-drop n s)

strip-append : (a b : Str) → strip (a ++ b) ≡ strip a ++ strip b
unfolding strip
strip-append a b = keep_if-append _ a b

strip-join : (parts : List Str) → strip (join (b' ' ∷ []) parts) ≡ strip (flatten parts)
unfolding join flatten strip is_whitespace
strip-join [] = refl
strip-join (s ∷ []) = rw append-nil
strip-join (s ∷ t ∷ r) =
    strip-append s _
    ∙ ap (◌++◌ (strip s)) (strip-join (t ∷ r))
    ∙ sym (strip-append s (flatten (t ∷ r)))

hex_digit_facts :
    (d : ℕ)
    → d < 16
    → (is_ascii_hexdigit (hex_digit d) ≡ true)
      × (is_whitespace (hex_digit d) ≡ false)
      × (to_ascii_lowercase (hex_digit d) ≡ hex_digit d)
unfolding hex_digit is_ascii_hexdigit is_whitespace
hex_digit_facts d h = ground arith

strip-hex : (e : Bytes) → IsBytes e → strip (hex e) ≡ hex e
unfolding hex strip
strip-hex [] h = refl
strip-hex (b ∷ e) h =
    let (hb, he) = every-cons (λ x. ltb x 256) b e h in
    let high = (hex_digit_facts (b / 16) (ground arith)).1 in
    let low = (hex_digit_facts (b % 16) (omega arith)).1 in rw high (rw low (rw (strip-hex e he)))

pub strip-entropy_to_phrase : (e : Bytes) → IsBytes e → strip (entropy_to_phrase e) ≡ hex e
unfolding entropy_to_phrase
strip-entropy_to_phrase e h =
    strip-join (chunks (length (hex e)) 8 (hex e))
    ∙ ap strip (flatten-chunks (length (hex e)) 7 (hex e) (omega arith))
    ∙ strip-hex e h

lowercase-hex : (e : Bytes) → IsBytes e → map to_ascii_lowercase (hex e) ≡ hex e
unfolding hex
lowercase-hex [] h = refl
lowercase-hex (b ∷ e) h =
    let (hb, he) = every-cons (λ x. ltb x 256) b e h in
    let high = (hex_digit_facts (b / 16) (ground arith)).2 in
    let low = (hex_digit_facts (b % 16) (omega arith)).2 in
    rw high (rw low (rw (lowercase-hex e he)))

-- digits are digits in either case
hexdigit-lowercase :
    (c d : ℕ) → d < 16 → to_ascii_lowercase c ≡ hex_digit d → is_ascii_hexdigit c ≡ true
unfolding hex_digit is_ascii_hexdigit
hexdigit-lowercase c d h e = ground arith

hexdigits_of_lowercase :
    (s : Str) (e : Bytes)
    → IsBytes e
    → map to_ascii_lowercase s ≡ hex e
    → every is_ascii_hexdigit s ≡ true
unfolding hex
hexdigits_of_lowercase [] e h q = refl
hexdigits_of_lowercase (c ∷ s) [] h q = cc
hexdigits_of_lowercase (c ∷ []) (b ∷ e) h q = cc
hexdigits_of_lowercase (c ∷ d ∷ s) (b ∷ e) h q =
    let (hb, he) = every-cons (λ x. ltb x 256) b e h in
    let first = hexdigit-lowercase c (b / 16) (ground arith) (cc) in
    let second = hexdigit-lowercase d (b % 16) (omega arith) (cc) in
    rw first (rw second (hexdigits_of_lowercase s e he (cc)))

str_len-hexdigits : (s : Str) → every is_ascii_hexdigit s ≡ true → str_len s ≡ length s
unfolding str_len
str_len-hexdigits [] h = refl
str_len-hexdigits (c ∷ s) h =
    let (hc, hs) = every-cons is_ascii_hexdigit c s h in
    rw (str_len-hexdigits s hs) (unfold is_ascii_hexdigit in ground arith)

-- `bytes_at` reads all digits of a text of 64 of them.
reads_digits :
    (s : Str)
    → length s ≡ 64
    → every is_ascii_hexdigit s ≡ true
    → (e : Bytes) × (bytes_at 32 0 s ≡ ok e) × (map to_ascii_lowercase s ≡ hex e) × IsArray 32 e
reads_digits s l h =
    let (e, read, written, len, bytes) = bytes_at_reads 32 0 [] s refl l h in
    (e, read, written, (len, bytes))

accepts :
    (p : Str)
    → length (strip p) ≡ 64
    → every is_ascii_hexdigit (strip p) ≡ true
    → phrase_to_entropy p ≡ bytes_at 32 0 (strip p)
unfolding phrase_to_entropy
accepts p l h = rw (str_len-hexdigits (strip p) h) (rw l (rw h))

accepted_tests :
    (n : ℕ) (b : Bool) {u : Unit {0}}
    → ensure (n == 64 && b) invalid_recovery_phrase ≡ ok u
    → (n ≡ 64) × (b ≡ true)
accepted_tests n b h = ground arith

accepted :
    (p : Str) (e : Bytes)
    → phrase_to_entropy p ≡ ok e
    → (length (strip p) ≡ 64)
      × (every is_ascii_hexdigit (strip p) ≡ true)
      × (bytes_at 32 0 (strip p) ≡ ok e)
unfolding phrase_to_entropy
accepted p e h =
    let (u, tests, read) = >>=-ok (ensure (str_len (strip p) == 64 && _) _) _ h in
    let (len, digits) = accepted_tests (str_len (strip p)) _ tests in
    (sym (str_len-hexdigits (strip p) digits) ∙ len, digits, read)

-- A phrase is accepted as the entropy `e` exactly if `e` is 32 bytes and the phrase without
-- whitespace, in lower case, is the hexadecimal text of `e`. Every other phrase is refused.
pub phrase_to_entropy_iff :
    (p : Str) (e : Bytes)
    → (phrase_to_entropy p ≡ ok e) ↔ (IsArray 32 e × (map to_ascii_lowercase (strip p) ≡ hex e))
phrase_to_entropy_iff p e = (sound, complete)
  where
    sound : phrase_to_entropy p ≡ ok e → IsArray 32 e × (map to_ascii_lowercase (strip p) ≡ hex e)
    sound h =
        let (len, digits, read) = accepted p e h in
        let (e', read', written, array) = reads_digits (strip p) len digits in
        let same : e' ≡ e = cc in (rw same at array, written ∙ ap hex same)

    complete :
        IsArray 32 e × (map to_ascii_lowercase (strip p) ≡ hex e) → phrase_to_entropy p ≡ ok e
    complete h =
        let digits = hexdigits_of_lowercase (strip p) e h.0.1 h.1 in
        let len : length (strip p) ≡ 64 =
          omega
            (arith, ap length h.1, length-map (strip p) to_ascii_lowercase, length-hex e, h.0.0) in
        let (e', read, written, array) = reads_digits (strip p) len digits in
        accepts p len digits ∙ read ∙ ap ok (hex-injective e' e array.1 h.0.1 (sym written ∙ h.1))

-- The phrase that is shown for 32 bytes of entropy is read back as these bytes.
pub phrase_to_entropy-entropy_to_phrase :
    (e : Bytes) → IsArray 32 e → phrase_to_entropy (entropy_to_phrase e) ≡ ok e
phrase_to_entropy-entropy_to_phrase e h =
    (phrase_to_entropy_iff (entropy_to_phrase e) e).1
      (h, ap (map to_ascii_lowercase) (strip-entropy_to_phrase e h.1) ∙ lowercase-hex e h.1)
