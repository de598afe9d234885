-- ===== src/Prelude/Text/Laws.antt =====
-- Trimming is idempotent, and distinct numbers print differently.
use Prim.Native.Char.{code}
use Prim.Native.Nat.{ℕ, zero, suc, ◌+◌, ◌-◌, ◌*◌, ◌/◌, ◌%◌, ◌<◌}
use Prim.Native.String.{String, [], ◌∷◌}
use mathlib.Core.Bool.{Bool, true, not}
use mathlib.Core.Logic.{inl, inr}
use mathlib.Core.Path.{◌≡◌, refl, sym, ap, ◌∙◌}
use native.Mathlib.Omega.{arith}
use echo_client.Prelude.Tests.{Bool-cases, ltb-false, ltb→lt, ltb}
use echo_client.Prelude.Text.{
  is_space, trim_left, trim_right, trim_space, digit, digits_before, decimal,
}

trim_right_idem : (s : String) → trim_right (trim_right s) ≡ trim_right s
unfolding trim_right
trim_right_idem [] = refl
trim_right_idem (c ∷ s) = ground (arith, trim_right_idem s)

-- The first character is no space.
starts_bare : String → Bool
starts_bare [] = true
starts_bare (c ∷ s) = not (is_space (code c))

starts_bare-trim_left : (s : String) → starts_bare (trim_left s) ≡ true
unfolding starts_bare trim_left
starts_bare-trim_left [] = refl
starts_bare-trim_left (c ∷ s) = ground (arith, starts_bare-trim_left s)

starts_bare-trim_right : (s : String) → starts_bare s ≡ true → starts_bare (trim_right s) ≡ true
unfolding starts_bare trim_right
starts_bare-trim_right [] h = refl
starts_bare-trim_right (c ∷ s) h = ground arith

trim_left_bare : (s : String) → starts_bare s ≡ true → trim_left s ≡ s
unfolding starts_bare trim_left
trim_left_bare [] h = refl
trim_left_bare (c ∷ s) h = ground arith

pub trim_space_idem : (s : String) → trim_space (trim_space s) ≡ trim_space s
unfolding trim_space
trim_space_idem s =
    let bare = starts_bare-trim_right (trim_left s) (starts_bare-trim_left s) in
    ap trim_right (trim_left_bare (trim_right (trim_left s)) bare) ∙ trim_right_idem (trim_left s)

-- The number that a run of digits continues.
value : ℕ → String → ℕ
value n [] = n
value n (c ∷ s) = value (n * 10 + (code c - 48)) s

pub code-digit : (d : ℕ) → d < 10 → code (digit d) ≡ d + 48
unfolding digit
code-digit zero h = refl
code-digit (suc zero) h = refl
code-digit (suc (suc zero)) h = refl
code-digit (suc (suc (suc zero))) h = refl
code-digit (suc (suc (suc (suc zero)))) h = refl
code-digit (suc (suc (suc (suc (suc zero))))) h = refl
code-digit (suc (suc (suc (suc (suc (suc zero)))))) h = refl
code-digit (suc (suc (suc (suc (suc (suc (suc zero))))))) h = refl
code-digit (suc (suc (suc (suc (suc (suc (suc (suc zero)))))))) h = refl
code-digit _ h = omega arith

value-digit :
    (k d : ℕ) (rest : String) → d < 10 → value k (digit d ∷ rest) ≡ value (k * 10 + d) rest
unfolding value
value-digit k d rest h = ap (λ m. value m rest) (omega (arith, code-digit d h))

value-digits_before :
    (fuel n : ℕ) (rest : String) → n < fuel → value 0 (digits_before fuel n rest) ≡ value n rest
unfolding digits_before
value-digits_before zero n rest h = elim h [ ]
value-digits_before (suc fuel) n rest h = elim (Bool-cases (ltb n 10)) [
  | inl one ↦ rw one (value-digit 0 n rest (ltb→lt n 10 one) ∙ ap (λ m. value m rest) (omega arith))
  | inr more ↦ rw more (
      value-digits_before fuel (n / 10) (digit (n % 10) ∷ rest) (omega (arith, ltb-false n 10 more))
      ∙ value-digit (n / 10) (n % 10) rest (omega arith)
      ∙ ap (λ m. value m rest) (omega arith))
]

value-decimal : (n : ℕ) → value 0 (decimal n) ≡ n
unfolding decimal value
value-decimal n = value-digits_before (suc n) n [] (omega arith)

pub decimal_injective : (m n : ℕ) → decimal m ≡ decimal n → m ≡ n
decimal_injective m n e = sym (value-decimal m) ∙ ap (value 0) e ∙ value-decimal n
