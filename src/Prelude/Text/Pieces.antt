-- ===== src/Prelude/Text/Pieces.antt =====
-- The first and the last characters of a text, and how long trimming and printing make it.
use Prim.Native.Nat.{ℕ, zero, suc, ◌+◌, ◌-◌, ◌/◌, ◌%◌, ◌<◌, ◌≤◌}
use Prim.Native.String
use Prim.Native.String.{String, [], ◌∷◌, count}
use mathlib.Core.Logic.{inl, inr}
use mathlib.Core.Path.{◌≡◌, refl, sym, ap, ◌∙◌}
use native.Mathlib.Omega.{arith}
use text.Mathlib.TextLemmas.{length-cons, length-nil, nil-append, cons-append}
use echo_client.Prelude.Tests.{Bool-cases, ltb}
use echo_client.Prelude.Text.{trim_left, trim_right, trim_space, digit, digits_before, decimal}

-- rs[:n] and rs[n:], for the characters rs of a text
unfoldable pub take_chars : ℕ → String → String
take_chars zero s = []
take_chars (suc n) [] = []
take_chars (suc n) (c ∷ s) = c ∷ take_chars n s

unfoldable pub drop_chars : ℕ → String → String
drop_chars zero s = s
drop_chars (suc n) [] = []
drop_chars (suc n) (c ∷ s) = drop_chars n s

pub take-drop_chars : (n : ℕ) (s : String) → String.◌++◌ (take_chars n s) (drop_chars n s) ≡ s
unfolding take_chars drop_chars
take-drop_chars zero s = nil-append s
take-drop_chars (suc n) [] = nil-append []
take-drop_chars (suc n) (c ∷ s) =
    cons-append c (take_chars n s) (drop_chars n s) ∙ ap (λ t. c ∷ t) (take-drop_chars n s)

pub count-take_chars : (n : ℕ) (s : String) → n ≤ count s → count (take_chars n s) ≡ n
unfolding take_chars
count-take_chars zero s h = length-nil
count-take_chars (suc n) [] h = ground (arith, length-nil)
count-take_chars (suc n) (c ∷ s) h =
    ground (arith, length-cons c s, length-cons c (take_chars n s), count-take_chars n s)

pub count-drop_chars : (n : ℕ) (s : String) → count (drop_chars n s) ≡ count s - n
unfolding drop_chars
count-drop_chars zero s = omega arith
count-drop_chars (suc n) [] = ground (arith, length-nil)
count-drop_chars (suc n) (c ∷ s) = ground (arith, length-cons c s, count-drop_chars n s)

count-trim_left : (s : String) → count (trim_left s) ≤ count s
unfolding trim_left
count-trim_left [] = ground arith
count-trim_left (c ∷ s) = ground (arith, length-cons c s, count-trim_left s)

count-trim_right : (s : String) → count (trim_right s) ≤ count s
unfolding trim_right
count-trim_right [] = ground arith
count-trim_right (c ∷ s) =
    ground (arith, length-nil, length-cons c s, length-cons c (trim_right s), count-trim_right s)

pub count-trim_space : (s : String) → count (trim_space s) ≤ count s
unfolding trim_space
count-trim_space s = ground (arith, count-trim_right (trim_left s), count-trim_left s)

digits_grow : (fuel n : ℕ) (r : String) → count r ≤ count (digits_before fuel n r)
unfolding digits_before
digits_grow zero n r = omega arith
digits_grow (suc fuel) n r = ground (
  arith,
  length-cons (digit n) r,
  length-cons (digit (n % 10)) r,
  digits_grow fuel (n / 10) (digit (n % 10) ∷ r),
)

-- A larger number is not printed shorter.
digits_monotone :
    (f g m n : ℕ) (r t : String)
    → m < f
    → n < g
    → m ≤ n
    → count r ≤ count t
    → count (digits_before f m r) ≤ count (digits_before g n t)
unfolding digits_before
digits_monotone zero g m n r t a b h k = absurd (omega arith)
digits_monotone (suc f) zero m n r t a b h k = absurd (omega arith)
digits_monotone (suc f) (suc g) m n r t a b h k =
    let one = length-cons (digit m) r in
    let other = length-cons (digit n) t in
    let more = length-cons (digit (m % 10)) r in
    let further = length-cons (digit (n % 10)) t in
    let grown = digits_grow g (n / 10) (digit (n % 10) ∷ t) in
    elim (Bool-cases (ltb m 10)) [
      | inl e ↦ elim (Bool-cases (ltb n 10)) [ inl e' ↦ ground arith | inr e' ↦ ground arith ]
      | inr e ↦
          let rest =
            digits_monotone f g (m / 10) (n / 10) (digit (m % 10) ∷ r) (digit (n % 10) ∷ t)
              (ground arith) (ground arith) (ground arith) (omega arith) in
          ground arith
    ]

pub count-decimal : (m n : ℕ) → m ≤ n → count (decimal m) ≤ count (decimal n)
unfolding decimal
count-decimal m n h =
    digits_monotone (suc m) (suc n) m n [] [] (omega arith) (omega arith) h (omega arith)

none_left : (n : ℕ) → drop_chars n [] ≡ []
unfolding drop_chars
none_left zero = refl
none_left (suc n) = refl

pub drop-drop_chars : (n m : ℕ) (s : String) → drop_chars m (drop_chars n s) ≡ drop_chars (n + m) s
unfolding drop_chars
drop-drop_chars zero m s = ap (λ k. drop_chars k s) (omega arith)
drop-drop_chars (suc n) m [] = none_left m ∙ sym (none_left (suc n + m))
drop-drop_chars (suc n) m (c ∷ s) =
    let same : suc (n + m) ≡ suc n + m = omega arith in
    drop-drop_chars n m s ∙ ap (λ k. drop_chars k (c ∷ s)) same
