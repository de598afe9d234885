-- ===== src/Progress.antt =====
-- core/progress_compact.go: the writer of progress messages, which sends one message and updates it.
-- What the platform answers is an argument, and what it was asked is kept in `sent`.
pub mod Render
pub mod Limits
mod Witnesses
use Prim.Native.String
use Prim.Native.String.{count}
use echo_client.Prelude.{
  ℕ, ◌+◌, ◌-◌, String, Bool, true, false, not, ◌||◌, List, [], ◌∷◌, ◌++◌, ◌==◌, if◌then◌else◌,
  length, drop,
}
use echo_client.Prelude.Text.{trim_space, decimal}
use echo_client.Progress.Render.{indented, trim_compact_progress_text, compact_progress_status_line}

-- maxPlatformMessageLen - 200
abbrev pub max_progress_len : ℕ
max_progress_len = 4000 - 200

pub data ProgressStyle : Type 0 where
  legacy compact card : ProgressStyle

pub record CompactProgressWriter : Type 0 where
  pub style : ProgressStyle
  pub has_handle : Bool
  pub entries : List String
  pub last_sent : String
  pub enabled : Bool
  pub failed : Bool
  pub closed : Bool
  pub sent : List String

abbrev pub join : List String → String
join [] = ""
join (e ∷ []) = e
join (e ∷ f ∷ es) = String.◌++◌ e (String.◌++◌ "\n\n" (join (f ∷ es)))

abbrev pub numbered : ℕ → List String → String
unfolding indented
numbered i [] = ""
numbered i (e ∷ es) =
    String.◌++◌ "\n\n"
      (String.◌++◌ (decimal i) (String.◌++◌ ". " (String.◌++◌ (indented e) (numbered (i + 1) es))))

abbrev pub with_status : String → String → String
with_status content line =
    if line == ""
    then content
    else if content == ""
    then line
    else String.◌++◌ content (String.◌++◌ "\n\n" line)

unfoldable pub render_with_status : ProgressStyle → List String → String → String
unfolding trim_compact_progress_text compact_progress_status_line indented
render_with_status legacy entries status = ""
render_with_status card entries status =
    trim_compact_progress_text
      (with_status (String.◌++◌ "⏳ **Progress**" (numbered 1 entries))
        (compact_progress_status_line status))
      max_progress_len
render_with_status compact entries status =
    trim_compact_progress_text (with_status (join entries) (compact_progress_status_line status))
      max_progress_len

-- The call of the platform in Append: the first sends the message, the others update it.
abbrev pub sent_with : CompactProgressWriter → String → Bool → CompactProgressWriter × Bool
sent_with w content true =
    (record w { has_handle = true; last_sent = content; sent = w.sent ++ content ∷ [] }, true)
sent_with w content false = (record w { failed = true; sent = w.sent ++ content ∷ [] }, false)

abbrev pub with_entry : CompactProgressWriter → String → CompactProgressWriter
with_entry w entry =
    let all = w.entries ++ entry ∷ [] in record w { entries = drop (length all - 8) all }

unfoldable pub append_entry : CompactProgressWriter → String → Bool → CompactProgressWriter × Bool
unfolding render_with_status
append_entry w entry answer =
    let e = trim_space entry in
    let w' = with_entry w e in
    let content = render_with_status w'.style w'.entries "" in
    if not w.enabled || w.failed
    then (w, false)
    else if e == ""
    then (w, true)
    else if content == "" || content == w.last_sent
    then (w', true)
    else sent_with w' content answer

abbrev pub closed_with : CompactProgressWriter → String → Bool → CompactProgressWriter
closed_with w content true = record w {
  last_sent = content;
  closed = true;
  sent = w.sent ++ content ∷ [];
}
closed_with w content false = record w { failed = true; sent = w.sent ++ content ∷ [] }

unfoldable pub finalize : CompactProgressWriter → String → Bool → CompactProgressWriter
unfolding render_with_status
finalize w status answer =
    let content = render_with_status w.style w.entries status in
    if not w.enabled || (not w.has_handle || w.closed)
    then w
    else if content == "" || content == w.last_sent
    then record w { closed = true }
    else closed_with w content answer

-- A call of the writer, with the platform's answer.
pub data Call : Type 0 where
  appends finalizes : String → Bool → Call

unfoldable pub calls : CompactProgressWriter → List Call → CompactProgressWriter
unfolding append_entry finalize
calls w [] = w
calls w (appends entry answer ∷ cs) = calls (append_entry w entry answer).0 cs
calls w (finalizes status answer ∷ cs) = calls (finalize w status answer) cs
