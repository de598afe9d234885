-- ===== src/PromptQueue/Commands/Numbers.antt =====
-- The numbers of /queue: the numeral of a place, with or without a `#`, is read back as that place.
use Prim.Native.Char.{Char, code}
use Prim.Native.String.{[], ◌∷◌}
use mathlib.Core.Path.{subst}
use echo_client.Prelude.{
  ℕ, zero, suc, ◌+◌, ◌-◌, ◌*◌, ◌/◌, ◌%◌, ◌^◌, ◌<◌, String, true, false, ◌&&◌, some, none, Option,
  List, ltb, leb, eqb, ◌≡◌, refl, sym, ap, ◌∙◌, inl, inr, arith, Bool-cases, ltb→lt, lt→ltb,
  ltb-false, length,
}
use echo_client.Prelude.Text.{
  trim_space, trim_left, trim_right, is_space, decimal, digit, digits_before,
}
use echo_client.Prelude.Text.Laws.{code-digit}
use echo_client.Cron.Interval.Digits.{numeric, numeric-digits_before, decimal-cons}
use echo_client.PromptQueue.{QueuedPrompt}
use echo_client.PromptQueue.Commands.{
  trim_hash, index_of_id, is_digit, scan_digits, scan_magnitude, scan_sign, scan_index,
  checked_index, prompt_queue_item_index,
}
use echo_client.PromptQueue.Commands.Names.{NoneHasId, index_of_id-absent}

scan_digits-digit :
    (k d : ℕ) (s : String) → d < 10 → scan_digits k (digit d ∷ s) ≡ scan_digits (k * 10 + d) s
unfolding scan_digits is_digit
scan_digits-digit k d s h =
    let c = code-digit d h in
    let test : (leb b'0' (code (digit d)) && leb (code (digit d)) b'9') ≡ true = ground arith in
    let same : k * 10 + (code (digit d) - b'0') ≡ k * 10 + d = omega arith in
    rw (test, scan_digits) (ap (λ m. scan_digits m s) same)

scan_digits-digits_before :
    (fuel n : ℕ) (s : String) → n < fuel → scan_digits 0 (digits_before fuel n s) ≡ scan_digits n s
unfolding digits_before
scan_digits-digits_before zero n s h = absurd (omega arith)
scan_digits-digits_before (suc fuel) n s h = elim (Bool-cases (ltb n 10)) [
  | inl one ↦
      rw one (scan_digits-digit 0 n s (ltb→lt n 10 one) ∙ ap (λ m. scan_digits m s) (omega arith))
  | inr more ↦ rw more (
      scan_digits-digits_before fuel (n / 10) (digit (n % 10) ∷ s)
        (omega (arith, ltb-false n 10 more))
      ∙ scan_digits-digit (n / 10) (n % 10) s (omega arith)
      ∙ ap (λ m. scan_digits m s) (omega arith))
]

scan_digits-decimal : (n : ℕ) → scan_digits 0 (decimal n) ≡ n
unfolding decimal scan_digits
scan_digits-decimal n = scan_digits-digits_before (suc n) n [] (omega arith)

scan_magnitude-numeric :
    (c : Char) (s : String) (n : ℕ)
    → is_digit (code c) ≡ true
    → scan_digits 0 (c ∷ s) ≡ n
    → n < 2 ^ 63
    → scan_magnitude (c ∷ s) ≡ some n
unfolding scan_magnitude scan_digits
scan_magnitude-numeric c s n d e small =
    let first : scan_digits (code c - b'0') s ≡ n =
      ap (λ m. scan_digits m s) (omega arith) ∙ rw (d, scan_digits) at e in
    rw (d, first, lt→ltb n (2 ^ 63) small) refl

scan_index-numeric :
    (c : Char) (s : String) (n : ℕ)
    → is_digit (code c) ≡ true
    → scan_digits 0 (c ∷ s) ≡ n
    → n < 2 ^ 63
    → scan_index (c ∷ s) ≡ some n
unfolding scan_index scan_sign is_digit is_space
scan_index-numeric c s n d e small =
    let newline : eqb (code c) 10 ≡ false = ground (arith, d) in
    let space : is_space (code c) ≡ false = ground (arith, d) in
    let minus : eqb (code c) b'-' ≡ false = ground (arith, d) in
    let plus : eqb (code c) b'+' ≡ false = ground (arith, d) in
    rw (newline, scan_index)
      (rw (space, scan_index) (rw (minus, plus) (scan_magnitude-numeric c s n d e small)))

numeric_first : (c : Char) (s : String) → numeric (c ∷ s) ≡ true → is_digit (code c) ≡ true
unfolding numeric is_digit
numeric_first c s h = ground (arith, h)

numeric_rest : (c : Char) (s : String) → numeric (c ∷ s) ≡ true → numeric s ≡ true
unfolding numeric
numeric_rest c s h = ground (arith, h)

digit_no_space : (c : ℕ) → is_digit c ≡ true → is_space c ≡ false
unfolding is_digit is_space
digit_no_space c h = ground (arith, h)

trim_right-numeric : (s : String) → numeric s ≡ true → trim_right s ≡ s
unfolding trim_right
trim_right-numeric [] h = refl
trim_right-numeric (c ∷ s) h =
    rw (digit_no_space (code c) (numeric_first c s h), trim_right)
      (ap (λ t. c ∷ t) (trim_right-numeric s (numeric_rest c s h)))

trim_left-numeric : (s : String) → numeric s ≡ true → trim_left s ≡ s
unfolding trim_left
trim_left-numeric [] h = refl
trim_left-numeric (c ∷ s) h = rw (digit_no_space (code c) (numeric_first c s h), trim_left) refl

-- Neither trimming nor the removal of a `#` changes a numeral.
looked_up-numeric :
    (c : Char) (s : String) → numeric (c ∷ s) ≡ true → trim_hash (trim_space (c ∷ s)) ≡ c ∷ s
unfolding trim_space trim_hash is_digit
looked_up-numeric c s h =
    let d = numeric_first c s h in
    let other : eqb (code c) b'#' ≡ false = ground (arith, d) in
    let trimmed : trim_space (c ∷ s) ≡ c ∷ s =
      ap trim_right (trim_left-numeric (c ∷ s) h) ∙ trim_right-numeric (c ∷ s) h in
    ap trim_hash trimmed ∙ rw (other, trim_hash) refl

looked_up-hash : (s : String) → numeric s ≡ true → trim_hash (trim_space ("#" ∷ s)) ≡ s
unfolding trim_space trim_left trim_right trim_hash is_space
looked_up-hash s h = ap (λ t. trim_hash ("#" ∷ t)) (trim_right-numeric s h)

checked_index-suc : (n len : ℕ) → n < len → checked_index (some (suc n)) len ≡ some n
unfolding checked_index
checked_index-suc n len h = rw (lt→ltb n len h) refl

numbered :
    (items : List QueuedPrompt) (name text : String) (n : ℕ)
    → trim_hash (trim_space name) ≡ text
    → NoneHasId text items
    → scan_index text ≡ some (suc n)
    → n < length items
    → prompt_queue_item_index items name ≡ some n
unfolding prompt_queue_item_index
numbered items name text n e none_has number h =
    subst
      (λ t.
        elim (index_of_id t items) as (λ o. Option ℕ) [
          | none ↦ checked_index (scan_index t) (length items)
          | some i ↦ some i
        ]
        ≡ some n)
      (sym e)
      (rw (index_of_id-absent text items none_has, number) (checked_index-suc n (length items) h))

numeric_empty : numeric [] ≡ true
unfolding numeric
numeric_empty = refl

-- The number of a place, counted from 1 and written in decimal, with or without a `#` before it, stands
-- for the item at that place, whatever the queue holds. No item has that numeral as its id, the queue
-- has the place, and the number is one of an int64.
pub prompt_queue_item_index-decimal :
    (items : List QueuedPrompt) (n : ℕ)
    → n < length items
    → suc n < 2 ^ 63
    → NoneHasId (decimal (suc n)) items
    → (prompt_queue_item_index items (decimal (suc n)) ≡ some n)
      × (prompt_queue_item_index items ("#" ∷ decimal (suc n)) ≡ some n)
unfolding decimal
prompt_queue_item_index-decimal items n h small none_has =
    let (c, s, e) = decimal-cons (suc n) in
    let digits : numeric (decimal (suc n)) ≡ true =
      numeric-digits_before (suc (suc n)) (suc n) [] numeric_empty in
    let cons : numeric (c ∷ s) ≡ true = ap numeric (sym e) ∙ digits in
    let number : scan_index (decimal (suc n)) ≡ some (suc n) =
      ap scan_index e
      ∙ scan_index-numeric c s (suc n) (numeric_first c s cons)
          (ap (scan_digits 0) (sym e) ∙ scan_digits-decimal (suc n)) small in
    (
      numbered items (decimal (suc n)) (decimal (suc n)) n
          (ap (λ t. trim_hash (trim_space t)) e ∙ looked_up-numeric c s cons ∙ sym e) none_has
          number h,
      numbered items ("#" ∷ decimal (suc n)) (decimal (suc n)) n
          (looked_up-hash (decimal (suc n)) digits) none_has number h,
    )
