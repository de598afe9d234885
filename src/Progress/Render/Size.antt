-- ===== src/Progress/Render/Size.antt =====
-- core/progress_compact.go: a cut text is two characters longer than the limit at most.
use Prim.Native.String.{String, [], ◌∷◌, count}
use text.Mathlib.TextLemmas.{length-cons, length-append}
use echo_client.Prelude.{ℕ, ◌+◌, ◌-◌, ◌≤◌, ◌||◌, arith, Bool-cases, leb, eqb, inl, inr}
use echo_client.Prelude.Text.Pieces.{drop_chars, count-drop_chars}
use echo_client.Progress.Render.{trim_newlines, trim_compact_progress_text}

count-trim_newlines : (s : String) → count (trim_newlines s) ≤ count s
unfolding trim_newlines
count-trim_newlines [] = omega arith
count-trim_newlines (c ∷ s) = ground (arith, length-cons c s, count-trim_newlines s)

pub count-trim_compact_progress_text :
    (s : String) (max_runes : ℕ)
    → 0 + 1 ≤ max_runes
    → count (trim_compact_progress_text s max_runes) ≤ max_runes + 2
unfolding trim_compact_progress_text
count-trim_compact_progress_text s max_runes pos =
    elim (Bool-cases (eqb max_runes 0 || leb (count s) max_runes)) [
      | inl e ↦ rw (e, trim_compact_progress_text) (ground (arith, e))
      | inr e ↦
          let left = drop_chars (count s - max_runes) s in
          let size = length-append "…\n" (trim_newlines left) in
          rw (e, trim_compact_progress_text)
            (ground (arith, count-trim_newlines left, count-drop_chars (count s - max_runes) s, e))
    ]
