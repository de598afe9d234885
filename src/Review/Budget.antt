-- ===== src/Review/Budget.antt =====
-- core/engine.go: splitReviewPromptBudget shares the budget fully and fairly.
use Prim.Native.String.{count}
use echo_client.Prelude.{ℕ, ◌+◌, ◌*◌, ◌/◌, ◌≤◌, ◌<◌, String, leb, if◌then◌else◌, ◌≡◌, ◌⊎◌, arith}
use echo_client.Prelude.Text.{trim_space}
use echo_client.Review.{shared_budget, split_lengths, split_review_prompt_budget}

-- Any first share is corrected to one that uses up the budget and fits both texts.
shared_budget-Fits :
    (origin_len review_len budget share : ℕ)
    → 0 < origin_len
    → 0 < review_len
    → 0 < budget
    → budget < origin_len + review_len
    → let r = shared_budget origin_len review_len budget share in
      (r.0 ≤ origin_len)
      × (r.1 ≤ review_len)
      × (r.0 + r.1 ≡ budget)
      × ((budget ≤ 1) ⊎ ((0 < r.0) × (0 < r.1)))
unfolding shared_budget
shared_budget-Fits origin_len review_len budget share a b c d = ground arith

-- For any two summaries, with lengths counted after trimming, neither share is longer than its text,
-- and the two shares together are the budget, or the lengths of both texts if these fit it. If both
-- texts have a character and the budget is two at least, neither share is empty.
pub split_review_prompt_budget_lem :
    (origin_summary review_summary : String) (budget : ℕ)
    → let a = count (trim_space origin_summary) in
      let b = count (trim_space review_summary) in
      let r = split_review_prompt_budget origin_summary review_summary budget in
      (r.0 ≤ a)
      × (r.1 ≤ b)
      × (r.0 + r.1 ≡ (if leb (a + b) budget then a + b else budget))
      × ((a ≡ 0) ⊎ ((b ≡ 0) ⊎ ((budget ≤ 1) ⊎ ((0 < r.0) × (0 < r.1)))))
unfolding split_review_prompt_budget split_lengths
split_review_prompt_budget_lem origin_summary review_summary budget =
    let a = count (trim_space origin_summary) in
    let b = count (trim_space review_summary) in
    let s = shared_budget-Fits a b budget (budget * a / (a + b)) in ground (arith, s)
