-- ===== src/Cron/Interval/RoundTrip.antt =====
-- core/cron.go: an interval that ParseLoopIntervalSpec has normalized is read back unchanged.
use Prim.Native.Char.{Char, code}
use Prim.Native.String
use Prim.Native.String.{[], ◌∷◌}
use text.Mathlib.TextLemmas.{nil-append, cons-append}
use mathlib.Core.Path.{Path}
use echo_client.Prelude.{
  ℕ, zero, suc, ◌*◌, ◌%◌, ◌^◌, ◌≤◌, ◌<◌, String, true, false, ◌||◌, Option, none, some, ltb, leb,
  eqb, if◌then◌else◌, ◌≡◌, refl, sym, ap, ◌∙◌, inl, inr, arith, Bool-cases, Option-cases, ltb→lt,
}
use echo_client.Prelude.Text.{trim_space, decimal}
use echo_client.Cron.{ℤ, pos, negsuc, Checked, ok, err, interval_invalid, interval_too_short}
use echo_client.Prelude.Text.{to_lower}
use echo_client.Cron.Interval.{
  min_loop_interval, magnitude, in_range, negated, atoi, split_last, unit_duration,
  checked_interval, with_value, parse_lower, parse_loop_interval_spec,
}
use echo_client.Cron.Interval.Digits.{
  is_plain, plain, parse-plain, numeric, numeric-digits_before, decimal-cons, atoi-decimal,
}

-- A text with a last character.
snoc_cases :
    (t : String) (u : Char)
    → (d : Char) × (s : String) × (String.◌++◌ t (u ∷ []) ≡ d ∷ s) × (split_last d s ≡ (t, u))
unfolding split_last
snoc_cases [] u = (u, [], nil-append (u ∷ []), refl)
snoc_cases (c ∷ t) u =
    let (d, s, e, f) = snoc_cases t u in
    (
      c,
      d ∷ s,
      cons-append c t (u ∷ []) ∙ ap (λ r. c ∷ r) e,
      ap (λ (r : String × Char). (c ∷ r.0, r.1)) f,
    )

parse_lower-number :
    (c : Char) (t : String) (u : Char)
    → code u < 128
    → parse_lower (String.◌++◌ (c ∷ t) (u ∷ [])) ≡ with_value (atoi (c ∷ t)) u
unfolding parse_lower
parse_lower-number c t u h =
    let (d, s, e, f) = snoc_cases t u in
    let ascii : leb 128 (code u) ≡ false = ground arith in
    let after : String × Char → Checked (ℕ × String) =
      λ r. if leb 128 (code r.1) then err interval_invalid else with_value (atoi (c ∷ r.0)) r.1 in
    ap parse_lower (cons-append c t (u ∷ []) ∙ ap (λ r. c ∷ r) e) ∙ ap after f ∙ rw ascii refl

numeric-plain :
    (s : String) (u : Char)
    → numeric s ≡ true
    → is_plain (code u) ≡ true
    → plain (String.◌++◌ s (u ∷ [])) ≡ true
unfolding numeric plain is_plain
numeric-plain [] u h k = ap plain (nil-append (u ∷ [])) ∙ ground (arith, k)
numeric-plain (c ∷ s) u h k =
    ap plain (cons-append c s (u ∷ [])) ∙ ground (arith, numeric-plain s u, h, k)

unit_plain :
    (u : Char) (ns : ℕ) → unit_duration u ≡ some ns → (is_plain (code u) ≡ true) × (code u < 128)
unfolding unit_duration is_plain
unit_plain u ns e = ground (arith, e)

interval_read :
    (n : ℕ) (u : Char) (ns : ℕ)
    → unit_duration u ≡ some ns
    → suc n < 2 ^ 63
    → parse_loop_interval_spec (String.◌++◌ (decimal (suc n)) (u ∷ [])) ≡ checked_interval (suc n) u
unfolding decimal numeric
interval_read n u ns e small =
    let (lower, ascii) = unit_plain u ns e in
    let digits : numeric (decimal (suc n)) ≡ true =
      numeric-digits_before (suc (suc n)) (suc n) [] refl in
    let (c, t, f) = decimal-cons (suc n) in
    parse-plain (String.◌++◌ (decimal (suc n)) (u ∷ []))
      (numeric-plain (decimal (suc n)) u digits lower)
    ∙ ap (λ s. parse_lower (String.◌++◌ s (u ∷ []))) f
    ∙ parse_lower-number c t u ascii
    ∙ ap (λ s. with_value (atoi s) u) (sym f)
    ∙ ap (λ o. with_value o u) (atoi-decimal (suc n) small)

Small : Option ℤ → Type 0
Small none = Unit
Small (some (pos n)) = n < 2 ^ 63
Small (some (negsuc n)) = Unit

in_range-Small : (o : Option ℕ) → Small (in_range o)
unfolding Small
in_range-Small none = tt
in_range-Small (some n) = elim (Bool-cases (ltb n (2 ^ 63))) [
  | inl e ↦ rw e (ltb→lt n (2 ^ 63) e)
  | inr e ↦ rw e tt
]

negated-Small : (o : Option ℕ) → Small (negated o)
unfolding Small
negated-Small none = tt
negated-Small (some zero) = omega arith
negated-Small (some (suc n)) = elim (Bool-cases (ltb n (2 ^ 63))) [
  | inl e ↦ rw e tt
  | inr e ↦ rw e tt
]

atoi-Small : (s : String) → Small (atoi s)
unfolding atoi Small
atoi-Small [] = tt
atoi-Small (c ∷ s) = elim (Bool-cases (eqb (code c) b'-')) [
  | inl e ↦ rw (e, atoi) (negated-Small (magnitude s))
  | inr e ↦ elim (Bool-cases (eqb (code c) b'+')) [
    | inl f ↦ rw (e, f, atoi) (in_range-Small (magnitude s))
    | inr f ↦ rw (e, f, atoi) (in_range-Small (magnitude (c ∷ s)))
  ]
]

-- What an interval that is accepted was made from.
Made : ℕ × String → Type 0
Made r = (n : ℕ) × (u : Char) × (suc n < 2 ^ 63) × (checked_interval (suc n) u ≡ ok r)

with_value-Made :
    (o : Option ℤ) (u : Char) (r : ℕ × String) → Small o → with_value o u ≡ ok r → Made r
unfolding Small Made
with_value-Made none u r h e = absurd (ground (arith, e))
with_value-Made (some (negsuc n)) u r h e = absurd (ground (arith, e))
with_value-Made (some (pos zero)) u r h e = absurd (ground (arith, e))
with_value-Made (some (pos (suc n))) u r h e = (n, u, h, e)

parse_lower-Made : (s : String) (r : ℕ × String) → parse_lower s ≡ ok r → Made r
unfolding parse_lower
parse_lower-Made [] r e = absurd (ground (arith, e))
parse_lower-Made (c ∷ []) r e = absurd (ground (arith, e))
parse_lower-Made (c ∷ d ∷ s) r e =
    let (number, unit) = split_last d s in
    elim (Bool-cases (leb 128 (code unit))) [
      | inl f ↦ absurd (ground (arith, e, f))
      | inr f ↦
          with_value-Made (atoi (c ∷ number)) unit r (atoi-Small (c ∷ number))
            (ground (arith, e, f))
    ]

bounds :
    (d : ℕ)
    → (ltb d min_loop_interval || leb (2 ^ 63) d) ≡ false
    → (min_loop_interval ≤ d) × (d < 2 ^ 63)
bounds d h = ground (arith, h)

made_of :
    {P : Type 0} (d : ℕ) (t : String) (r : ℕ × String)
    → Path (Checked (ℕ × String)) (ok (d, t)) (ok r)
    → min_loop_interval ≤ d
    → d < 2 ^ 63
    → P
    → P × (min_loop_interval ≤ r.0) × (r.0 < 2 ^ 63) × (r.1 ≡ t)
made_of d t r e low high p =
    let same : d ≡ r.0 = ground (arith, e) in
    let text : t ≡ r.1 = ground (arith, e) in (p, rw (← same) low, rw (← same) high, sym text)

checked_interval-ok :
    (n : ℕ) (u : Char) (r : ℕ × String)
    → checked_interval n u ≡ ok r
    → (ns : ℕ) × (unit_duration u ≡ some ns)
      × (min_loop_interval ≤ r.0)
      × (r.0 < 2 ^ 63)
      × (r.1 ≡ String.◌++◌ (decimal n) (u ∷ []))
unfolding checked_interval
checked_interval-ok n u r e = elim (Option-cases (unit_duration u)) [
  | inl f ↦ absurd (ground (arith, e, f))
  | inr (ns, f) ↦
      let d = n * ns % 2 ^ 64 in
      elim (Bool-cases (ltb d min_loop_interval || leb (2 ^ 63) d)) [
        | inl g ↦
            let it : checked_interval n u ≡ err interval_too_short =
              rw (f, g, checked_interval) refl in
            absurd (ground (arith, sym it ∙ e))
        | inr g ↦
            let it : checked_interval n u ≡ ok (d, String.◌++◌ (decimal n) (u ∷ [])) =
              rw (f, g, checked_interval) refl in
            let (low, high) = bounds d g in
            let (p, a, b, c) =
              made_of d (String.◌++◌ (decimal n) (u ∷ [])) r (sym it ∙ e) low high f in
            (ns, p, a, b, c)
      ]
]

-- If ParseLoopIntervalSpec accepts a text, the duration is five seconds or more as an int64, and the
-- normalized form is accepted too, with the same duration and itself as the normalized form.
pub parse_loop_interval_spec-normalized :
    (spec : String) (d : ℕ) (normalized : String)
    → parse_loop_interval_spec spec ≡ ok (d, normalized)
    → (min_loop_interval ≤ d)
      × (d < 2 ^ 63)
      × (parse_loop_interval_spec normalized ≡ ok (d, normalized))
unfolding parse_loop_interval_spec Made
parse_loop_interval_spec-normalized spec d normalized e =
    let (n, u, small, made) = parse_lower-Made (to_lower (trim_space spec)) (d, normalized) e in
    let (ns, unit, low, high, text) = checked_interval-ok (suc n) u (d, normalized) made in
    (low, high, ap parse_loop_interval_spec text ∙ interval_read n u ns unit small ∙ made)
