-- ===== src/Cron/Interval/Digits.antt =====
-- core/cron.go: a number that was printed is read back, and trimming leaves it alone.
use Prim.Native.Char.{Char, code}
use Prim.Native.String.{[], ◌∷◌}
use echo_client.Prelude.{
  ℕ, zero, suc, ◌+◌, ◌-◌, ◌*◌, ◌/◌, ◌%◌, ◌^◌, ◌<◌, String, Bool, true, false, ◌&&◌, ◌||◌, some, ltb,
  leb, eqb, ◌≡◌, refl, sym, ap, ◌∙◌, inl, inr, arith, Bool-cases, ltb→lt, ltb-false,
}
use echo_client.Prelude.Text.{
  trim_space, trim_left, trim_right, is_space, decimal, digit, digits_before,
}
use echo_client.Prelude.Text.Laws.{code-digit}
use echo_client.Cron.{pos}
use echo_client.Prelude.Text.{to_lower, lower_char}
use echo_client.Cron.Interval.{
  digits_value, magnitude, in_range, atoi, parse_lower, parse_loop_interval_spec,
}

-- The characters that trimming and the lower case leave alone.
unfoldable pub is_plain : ℕ → Bool
is_plain c = (leb b'0' c && leb c b'9') || (leb b'a' c && leb c b'z')

unfoldable pub plain : String → Bool
unfolding is_plain
plain [] = true
plain (c ∷ s) = is_plain (code c) && plain s

plain-space : (c : ℕ) → is_plain c ≡ true → is_space c ≡ false
unfolding is_plain is_space
plain-space c h = ground arith

trim_right-plain : (s : String) → plain s ≡ true → trim_right s ≡ s
unfolding plain trim_right
trim_right-plain [] h = refl
trim_right-plain (c ∷ s) h =
    let here : is_plain (code c) ≡ true = ground (arith, h) in
    let bare = plain-space (code c) here in
    rw (bare, trim_right) (ap (λ t. c ∷ t) (trim_right-plain s (ground (arith, h))))

trim_left-plain : (s : String) → plain s ≡ true → trim_left s ≡ s
unfolding plain trim_left
trim_left-plain [] h = refl
trim_left-plain (c ∷ s) h =
    let here : is_plain (code c) ≡ true = ground (arith, h) in
    let bare = plain-space (code c) here in rw (bare, trim_left) refl

lower_char-plain : (c : Char) → is_plain (code c) ≡ true → lower_char c ≡ c
unfolding is_plain lower_char
lower_char-plain c h =
    let same : (leb b'A' (code c) && leb (code c) b'Z') ≡ false = ground (arith, h) in
    rw (same, lower_char) refl

to_lower-plain : (s : String) → plain s ≡ true → to_lower s ≡ s
unfolding plain to_lower
to_lower-plain [] h = refl
to_lower-plain (c ∷ s) h =
    let here : is_plain (code c) ≡ true = ground (arith, h) in
    rw (lower_char-plain c here) (ap (λ t. c ∷ t) (to_lower-plain s (ground (arith, h))))

pub parse-plain : (s : String) → plain s ≡ true → parse_loop_interval_spec s ≡ parse_lower s
unfolding parse_loop_interval_spec trim_space
parse-plain s h =
    let trimmed : trim_space s ≡ s = ap trim_right (trim_left-plain s h) ∙ trim_right-plain s h in
    ap (λ t. parse_lower (to_lower t)) trimmed ∙ ap parse_lower (to_lower-plain s h)

unfoldable pub numeric : String → Bool
numeric [] = true
numeric (c ∷ s) = (leb b'0' (code c) && leb (code c) b'9') && numeric s

pub numeric-digits_before :
    (fuel n : ℕ) (s : String) → numeric s ≡ true → numeric (digits_before fuel n s) ≡ true
unfolding numeric digits_before
numeric-digits_before zero n s h = h
numeric-digits_before (suc fuel) n s h = elim (Bool-cases (ltb n 10)) [
  | inl e ↦ rw (e, digits_before) (ground (arith, code-digit n (ltb→lt n 10 e), h))
  | inr e ↦
      rw (e, digits_before)
        (numeric-digits_before fuel (n / 10) (digit (n % 10) ∷ s)
          (ground (arith, code-digit (n % 10) (omega arith), h)))
]

digits_value-digit :
    (k d : ℕ) (s : String) → d < 10 → digits_value k (digit d ∷ s) ≡ digits_value (k * 10 + d) s
unfolding digits_value
digits_value-digit k d s h =
    let c = code-digit d h in
    let test : (leb b'0' (code (digit d)) && leb (code (digit d)) b'9') ≡ true = ground arith in
    let same : k * 10 + (code (digit d) - b'0') ≡ k * 10 + d = omega arith in
    rw (test, digits_value) (ap (λ m. digits_value m s) same)

digits_value-digits_before :
    (fuel n : ℕ) (s : String)
    → n < fuel
    → digits_value 0 (digits_before fuel n s) ≡ digits_value n s
unfolding digits_before
digits_value-digits_before zero n s h = absurd (omega arith)
digits_value-digits_before (suc fuel) n s h = elim (Bool-cases (ltb n 10)) [
  | inl one ↦
      rw one (digits_value-digit 0 n s (ltb→lt n 10 one) ∙ ap (λ m. digits_value m s) (omega arith))
  | inr more ↦ rw more (
      digits_value-digits_before fuel (n / 10) (digit (n % 10) ∷ s)
        (omega (arith, ltb-false n 10 more))
      ∙ digits_value-digit (n / 10) (n % 10) s (omega arith)
      ∙ ap (λ m. digits_value m s) (omega arith))
]

digits_value-decimal : (n : ℕ) → digits_value 0 (decimal n) ≡ some n
unfolding decimal digits_value
digits_value-decimal n = digits_value-digits_before (suc n) n [] (omega arith)

digits_before-cons :
    (fuel n : ℕ) (c : Char) (s : String)
    → (d : Char) × (t : String) × (digits_before fuel n (c ∷ s) ≡ d ∷ t)
unfolding digits_before
digits_before-cons zero n c s = (c, s, refl)
digits_before-cons (suc fuel) n c s = elim (Bool-cases (ltb n 10)) [
  | inl e ↦ (digit n, c ∷ s, rw (e, digits_before) refl)
  | inr e ↦
      let (d, t, f) = digits_before-cons fuel (n / 10) (digit (n % 10)) (c ∷ s) in
      (d, t, rw (e, digits_before) f)
]

pub decimal-cons : (n : ℕ) → (d : Char) × (t : String) × (decimal n ≡ d ∷ t)
unfolding decimal digits_before
decimal-cons n = elim (Bool-cases (ltb n 10)) [
  | inl e ↦ (digit n, [], rw (e, digits_before) refl)
  | inr e ↦
      let (d, t, f) = digits_before-cons n (n / 10) (digit (n % 10)) [] in
      (d, t, rw (e, digits_before) f)
]

-- A number that starts with a digit is read by its digits.
atoi-numeric :
    (c : Char) (s : String) (n : ℕ)
    → numeric (c ∷ s) ≡ true
    → digits_value 0 (c ∷ s) ≡ some n
    → n < 2 ^ 63
    → atoi (c ∷ s) ≡ some (pos n)
unfolding numeric atoi magnitude
atoi-numeric c s n h e small =
    let no_minus : eqb (code c) b'-' ≡ false = ground (arith, h) in
    let no_plus : eqb (code c) b'+' ≡ false = ground (arith, h) in
    let fits : ltb n (2 ^ 63) ≡ true = ground arith in
    rw (no_minus, no_plus, atoi) (ap in_range e ∙ rw fits refl)

pub atoi-decimal : (n : ℕ) → n < 2 ^ 63 → atoi (decimal n) ≡ some (pos n)
unfolding decimal numeric
atoi-decimal n small =
    let (c, s, e) = decimal-cons n in
    let digits : numeric (c ∷ s) ≡ true =
      ap numeric (sym e) ∙ numeric-digits_before (suc n) n [] refl in
    let value : digits_value 0 (c ∷ s) ≡ some n =
      ap (digits_value 0) (sym e) ∙ digits_value-decimal n in
    ap atoi e ∙ atoi-numeric c s n digits value small
