-- ===== src/Progress/Render.antt =====
-- core/progress_compact.go: the text of a progress message.
pub mod Size
use Prim.Native.Char.{Char, code}
use Prim.Native.String
use Prim.Native.String.{String, [], ◌∷◌, count}
use echo_client.Prelude.{ℕ, ◌-◌, ◌+◌, Bool, true, false, ◌||◌, ◌==◌, leb, eqb, if◌then◌else◌}
use echo_client.Prelude.Text.{trim_space}
use echo_client.Prelude.Text.Pieces.{drop_chars}
use echo_client.Prelude.Text.{to_lower}

-- strings.ReplaceAll(entry, "\n", "\n   ")
unfoldable pub indented : String → String
indented [] = []
indented (c ∷ s) =
    let rest = indented s in if eqb (code c) 10 then String.◌++◌ "\n   " rest else c ∷ rest

-- strings.TrimLeft(s, "\n")
unfoldable pub trim_newlines : String → String
trim_newlines [] = []
trim_newlines (c ∷ s) = let rest = trim_newlines s in if eqb (code c) 10 then rest else c ∷ s

unfoldable pub trim_compact_progress_text : String → ℕ → String
unfolding trim_newlines drop_chars
trim_compact_progress_text s max_runes =
    if eqb max_runes 0 || leb (count s) max_runes
    then s
    else String.◌++◌ "…\n" (trim_newlines (drop_chars (count s - max_runes) s))

unfoldable pub compact_progress_status_line : String → String
unfolding to_lower trim_space
compact_progress_status_line status =
    let s = to_lower (trim_space status) in
    if s == "done"
    then "Status: done"
    else if s == "error"
    then "Status: error"
    else if s == "stopped" || s == "closed"
    then "Status: stopped"
    else ""
