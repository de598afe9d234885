-- ===== src/Review/Witnesses.antt =====
-- core/engine.go: the theorems on revision prompts and messages, applied to short texts.
use Prim.Native.String.{count}
use echo_client.Prelude.{◌<◌, ◌≤◌, ◌≡◌, ◌⊎◌, Bool, true, false, String, none, some, arith}
use echo_client.Prelude.Text.{trim_space}
use echo_client.Review.{
  build_revision_prompt, build_bounded_revision_prompt, compact_review_prompt_text,
}
use echo_client.Review.Bounded.{build_bounded_revision_prompt_lem}
use echo_client.Review.Compact.{compact_review_prompt_text_lem, Shortened}

build_bounded_revision_prompt_example :
    (p : String) × (x : Bool) × (y : Bool) × (build_bounded_revision_prompt "api" "web" "did this"
        "fix that" 800
      ≡ some (record { prompt = p; origin_compacted = x; review_compacted = y; error = none }))
    × (count p ≤ 800)
    × ((800 < count (build_revision_prompt "api" "web" "did this" "fix that"))
        ⊎ (p ≡ build_revision_prompt "api" "web" "did this" "fix that"))
unfolding build_revision_prompt trim_space
build_bounded_revision_prompt_example =
    build_bounded_revision_prompt_lem "api" "web" "did this" "fix that" 800 (omega arith)

compact_review_prompt_text_example :
    (r : String) × (cut : Bool) × (compact_review_prompt_text " a long text " 3 ≡ some (r, cut))
    × (count r ≤ 3)
    × (((cut ≡ false) × (r ≡ trim_space " a long text "))
        ⊎ ((cut ≡ true)
            × (3 < count (trim_space " a long text "))
            × Shortened (trim_space " a long text ") r))
compact_review_prompt_text_example = compact_review_prompt_text_lem " a long text " 3
