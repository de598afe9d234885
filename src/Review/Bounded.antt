-- ===== src/Review/Bounded.antt =====
-- core/engine.go: buildBoundedRevisionPrompt gives a prompt whenever its template fits.
use Prim.Native.String
use Prim.Native.String.{count}
use text.Mathlib.TextLemmas.{length-append}
use echo_client.Prelude.{
  ℕ, ◌+◌, ◌-◌, ◌≤◌, ◌<◌, String, Bool, false, none, some, ltb, leb, eqb, ◌≡◌, refl, ap, ◌⊎◌, inl,
  inr, arith, Bool-cases, leb-false,
}
use echo_client.Prelude.Text.{trim_space, trim_left, trim_right}
use echo_client.Prelude.Text.Pieces.{count-trim_space}
use echo_client.Review.{
  build_revision_prompt, bounded_with, build_bounded_revision_prompt, split_review_prompt_budget,
}
use echo_client.Review.Budget.{split_review_prompt_budget_lem}
use echo_client.Review.Compact.{compact_review_prompt_text_lem}

count_template :
    (p a q r s b t : String)
    → count (
        String.◌++◌ p
          (String.◌++◌ a (String.◌++◌ q (String.◌++◌ r (String.◌++◌ s (String.◌++◌ b t))))))
      ≡ count p + count q + count r + count s + count t + (count a + count b)
count_template p a q r s b t =
    let one = length-append b t in
    let two = length-append s (String.◌++◌ b t) in
    let three = length-append r (String.◌++◌ s (String.◌++◌ b t)) in
    let four = length-append q (String.◌++◌ r (String.◌++◌ s (String.◌++◌ b t))) in
    let five = length-append a (String.◌++◌ q (String.◌++◌ r (String.◌++◌ s (String.◌++◌ b t)))) in
    let six =
      length-append p
        (String.◌++◌ a (String.◌++◌ q (String.◌++◌ r (String.◌++◌ s (String.◌++◌ b t))))) in
    omega arith

template_with :
    (p a q r s b t : String)
    → count (
        String.◌++◌ p
          (String.◌++◌ a (String.◌++◌ q (String.◌++◌ r (String.◌++◌ s (String.◌++◌ b t))))))
      ≡ count (
          String.◌++◌ p
            (String.◌++◌ "" (String.◌++◌ q (String.◌++◌ r (String.◌++◌ s (String.◌++◌ "" t))))))
        + (count a + count b)
template_with p a q r s b t =
    let one = count_template p a q r s b t in
    let other = count_template p "" q r s "" t in omega arith

-- The length of a prompt is that of its template and the two trimmed summaries.
count-build_revision_prompt :
    (o r a b : String)
    → count (build_revision_prompt o r a b)
      ≡ count (build_revision_prompt o r "" "") + (count (trim_space a) + count (trim_space b))
unfolding build_revision_prompt trim_space trim_left trim_right
count-build_revision_prompt o r a b = template_with _ (trim_space a) _ r _ (trim_space b) _

shares_fit :
    (a b : String) (budget : ℕ)
    → let r = split_review_prompt_budget a b budget in r.0 + r.1 ≤ budget
shares_fit a b budget =
    let (fits, fits', sum, both) = split_review_prompt_budget_lem a b budget in ground (arith, sum)

module _ (o r a b : String) (max_len : ℕ) where
  abbrev base_len : ℕ
  base_len = count (build_revision_prompt o r "" "")

  -- Two summaries that fit what the template leaves.
  bounded_with-fits :
      (c d : String) (x y : Bool)
      → base_len + (count c + count d) ≤ max_len
      → (p : String) × (bounded_with o r max_len (c, x) (d, y)
          ≡ record { prompt = p; origin_compacted = x; review_compacted = y; error = none })
        × (count p ≤ max_len)
  unfolding bounded_with
  bounded_with-fits c d x y h =
      let p = build_revision_prompt o r c d in
      let size = count-build_revision_prompt o r c d in
      let fits : count p ≤ max_len = ground (arith, count-trim_space c, count-trim_space d) in
      let small : ltb max_len (count p) ≡ false = ground arith in
      (p, rw (small, bounded_with) refl, fits)

  -- For all names, summaries and a limit above the length of the prompt without summaries,
  -- buildBoundedRevisionPrompt gives no error: it ends with a prompt within the limit. That is the
  -- prompt of the whole summaries if it fits.
  pub build_bounded_revision_prompt_lem :
      base_len < max_len
      → (p : String) × (x : Bool) × (y : Bool) × (build_bounded_revision_prompt o r a b max_len
          ≡ some (record { prompt = p; origin_compacted = x; review_compacted = y; error = none }))
        × (count p ≤ max_len)
        × ((max_len < count (build_revision_prompt o r a b)) ⊎ (p ≡ build_revision_prompt o r a b))
  unfolding build_bounded_revision_prompt
  build_bounded_revision_prompt_lem h =
      elim (Bool-cases (leb (count (build_revision_prompt o r a b)) max_len)) [
        | inl e ↦
            let pos : eqb max_len 0 ≡ false = ground arith in
            (
              build_revision_prompt o r a b,
              false,
              false,
              rw (pos, e, build_bounded_revision_prompt) refl,
              ground arith,
              inr refl,
            )
        | inr e ↦
            let pos : eqb max_len 0 ≡ false = ground arith in
            let large : leb max_len base_len ≡ false = ground arith in
            let budget = max_len - base_len in
            let shares = split_review_prompt_budget a b budget in
            let within = shares_fit a b budget in
            let (c, x, found, size, how) = compact_review_prompt_text_lem a shares.0 in
            let (d, y, found', size', how') = compact_review_prompt_text_lem b shares.1 in
            let total : base_len + (count c + count d) ≤ max_len = omega arith in
            let (p, made, bound) = bounded_with-fits c d x y total in
            (
              p,
              x,
              y,
              rw (pos, e, large, found, found', build_bounded_revision_prompt) (ap some made),
              bound,
              inl (leb-false (count (build_revision_prompt o r a b)) max_len e),
            )
      ]
