-- ===== src/Review.antt =====
-- core/engine.go: the text of a revision prompt and its cut to a length (compactReviewPromptText,
-- splitReviewPromptBudget, buildBoundedRevisionPrompt, buildRevisionPrompt). A length is a number of
-- characters; a negative one is taken as 0, which the source treats alike.
pub mod Budget
pub mod Compact
pub mod Bounded
mod Witnesses
use Prim.Native.String
use Prim.Native.String.{count}
use echo_client.Prelude.{
  ℕ, zero, suc, ◌+◌, ◌-◌, ◌*◌, ◌/◌, String, Bool, true, false, not, Option, none, some, ltb, leb,
  eqb, if◌then◌else◌,
}
use echo_client.Prelude.Text.{trim_space, decimal, is_empty}
use echo_client.Prelude.Text.Pieces.{take_chars, drop_chars}

-- fmt.Sprintf("\n\n[... omitted %d characters for review ...]\n\n", omitted)
unfoldable pub review_marker : ℕ → String
review_marker omitted =
    String.◌++◌ "\n\n[... omitted "
      (String.◌++◌ (decimal omitted) " characters for review ...]\n\n")

-- What the loop of compactReviewPromptText ends with: a marker that does not fit, or one that does.
pub data Marker : Type 0 where
  too_long : Marker
  marker : String → Marker

-- The loop, from the number that is omitted; nothing if the fuel runs out.
unfoldable pub marker_loop : ℕ → ℕ → ℕ → ℕ → Option Marker
unfolding review_marker
marker_loop zero total max_len omitted = none
marker_loop (suc fuel) total max_len omitted =
    let len = count (review_marker omitted) in
    let next_omitted = total - (max_len - len) in
    elim (leb max_len len) [
      | true ↦ some too_long
      | false ↦ elim (eqb next_omitted omitted) [
        | true ↦ some (marker (review_marker omitted))
        | false ↦ marker_loop fuel total max_len next_omitted
      ]
    ]

-- The end of compactReviewPromptText, for the trimmed text.
unfoldable pub compacted : String → ℕ → Marker → String
unfolding take_chars drop_chars
compacted text max_len too_long =
    if leb max_len 1
    then take_chars max_len text
    else String.◌++◌ (take_chars (max_len - 1) text) "…"
compacted text max_len (marker m) =
    let keep = max_len - count m in
    let head = keep / 2 in
    let tail = keep - head in
    String.◌++◌ (take_chars head text) (String.◌++◌ m (drop_chars (count text - tail) text))

unfoldable pub compact_review_prompt_text : String → ℕ → Option (String × Bool)
unfolding trim_space marker_loop compacted
compact_review_prompt_text s max_len =
    let text = trim_space s in
    let total = count text in
    if eqb max_len 0
    then some ("", not (is_empty text))
    else if leb total max_len
    then some (text, false)
    else (elim (marker_loop (suc total) total max_len (total - max_len)) [
      | none ↦ none
      | some m ↦ some (compacted text max_len m, true)
    ])

-- The last part of splitReviewPromptBudget, from the first share of the origin.
unfoldable pub shared_budget : ℕ → ℕ → ℕ → ℕ → ℕ × ℕ
shared_budget origin_len review_len budget share =
    let at_least = if eqb share 0 then 1 else share in
    let origin_budget = if leb budget at_least then budget - 1 else at_least in
    let review_budget = budget - origin_budget in
    let review_budget' =
      if ltb origin_len origin_budget
      then review_budget + (origin_budget - origin_len)
      else review_budget in
    let origin_budget' = if ltb origin_len origin_budget then origin_len else origin_budget in
    if ltb review_len review_budget'
    then (origin_budget' + (review_budget' - review_len), review_len)
    else (origin_budget', review_budget')

unfoldable pub split_lengths : ℕ → ℕ → ℕ → ℕ × ℕ
unfolding shared_budget
split_lengths origin_len review_len budget =
    if eqb budget 0
    then (0, 0)
    else if eqb origin_len 0
    then (if ltb review_len budget then (0, review_len) else (0, budget))
    else if eqb review_len 0
    then (if ltb origin_len budget then (origin_len, 0) else (budget, 0))
    else if leb (origin_len + review_len) budget
    then (origin_len, review_len)
    else shared_budget origin_len review_len budget
        (budget * origin_len / (origin_len + review_len))

unfoldable pub split_review_prompt_budget : String → String → ℕ → ℕ × ℕ
unfolding split_lengths
split_review_prompt_budget origin_summary review_summary budget =
    split_lengths (count (trim_space origin_summary)) (count (trim_space review_summary)) budget

-- buildRevisionPrompt, which does not use the name of the origin project
unfoldable pub build_revision_prompt : String → String → String → String → String
unfolding trim_space
build_revision_prompt origin_project reviewer_project origin_summary review_summary =
    String.◌++◌
      "Please revise your previous work based on the following review feedback.\n\nYour previous summary:\n"
      (String.◌++◌ (trim_space origin_summary) (
        String.◌++◌ "\n\nReviewer feedback from " (
          String.◌++◌ reviewer_project (
            String.◌++◌ ":\n" (
              String.◌++◌ (trim_space review_summary)
                "\n\nIf your available native skills include a review-feedback triage skill whose description matches this task, prefer it before changing the implementation. In this repository the intended example is `review-feedback-triage`. If no matching skill is available, do that triage yourself.\n\nUpdate the work accordingly and provide an updated final summary.")))))

pub record BoundedPrompt : Type 0 where
  pub prompt : String
  pub origin_compacted : Bool
  pub review_compacted : Bool
  pub error : Option String

abbrev pub no_prompt : Bool → Bool → String → BoundedPrompt
no_prompt origin_compacted review_compacted e = record {
  prompt = "";
  origin_compacted = origin_compacted;
  review_compacted = review_compacted;
  error = some e;
}

-- The end of buildBoundedRevisionPrompt, with the two compacted summaries.
unfoldable pub bounded_with : String → String → ℕ → String × Bool → String × Bool → BoundedPrompt
unfolding build_revision_prompt
bounded_with origin_project reviewer_project max_len (origin, origin_compacted)
      (review, review_compacted) =
    let prompt = build_revision_prompt origin_project reviewer_project origin review in
    if ltb max_len (count prompt)
    then no_prompt origin_compacted review_compacted "revision prompt exceeds max length"
    else record {
      prompt = prompt;
      origin_compacted = origin_compacted;
      review_compacted = review_compacted;
      error = none;
    }

unfoldable pub build_bounded_revision_prompt :
    String → String → String → String → ℕ → Option BoundedPrompt
unfolding build_revision_prompt split_review_prompt_budget compact_review_prompt_text bounded_with
build_bounded_revision_prompt origin_project reviewer_project origin_summary review_summary
      max_len =
    let prompt =
      build_revision_prompt origin_project reviewer_project origin_summary review_summary in
    let base_len = count (build_revision_prompt origin_project reviewer_project "" "") in
    let (origin_budget, review_budget) =
      split_review_prompt_budget origin_summary review_summary (max_len - base_len) in
    if eqb max_len 0
    then some (no_prompt false false "revision prompt exceeds max length")
    else if leb (count prompt) max_len
    then some (record {
      prompt = prompt;
      origin_compacted = false;
      review_compacted = false;
      error = none;
    })
    else if leb max_len base_len
    then some (no_prompt false false "revision prompt template exceeds max length")
    else (elim (compact_review_prompt_text origin_summary origin_budget) [
      | none ↦ none
      | some origin ↦ elim (compact_review_prompt_text review_summary review_budget) [
        | none ↦ none
        | some review ↦ some (bounded_with origin_project reviewer_project max_len origin review)
      ]
    ])
