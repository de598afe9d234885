-- ===== src/Progress/Limits.antt =====
-- core/progress_compact.go: how much the writer keeps and sends.
use Prim.Native.String
use Prim.Native.String.{count}
use text.Mathlib.TextLemmas.{length-nil}
use echo_client.Prelude.{
  ◌+◌, ◌-◌, ◌≤◌, String, Bool, true, false, not, ◌||◌, List, [], ◌∷◌, ◌++◌, ◌==◌, length, drop, All,
  All-append, arith, Bool-cases, inl, inr, length-drop,
}
use echo_client.Prelude.Text.{trim_space}
use echo_client.Progress.{
  CompactProgressWriter, ProgressStyle, legacy, compact, card, render_with_status, sent_with,
  with_entry, with_status, join, numbered, append_entry, closed_with, finalize, Call, appends,
  finalizes, calls, max_progress_len,
}
use echo_client.Progress.Render.{compact_progress_status_line}
use echo_client.Progress.Render.Size.{count-trim_compact_progress_text}

-- A text that a platform takes: the limit, and the two characters that mark a cut.
abbrev pub FitsMessage : String → Type 0
FitsMessage s = count s ≤ max_progress_len + 2

pub record Within (w : CompactProgressWriter) : Type 0 where
  pub few : length w.entries ≤ 8
  pub short : All FitsMessage w.sent

rendered-FitsMessage :
    (style : ProgressStyle) (entries : List String) (status : String)
    → FitsMessage (render_with_status style entries status)
unfolding render_with_status
rendered-FitsMessage legacy entries status = ground (arith, length-nil)
rendered-FitsMessage compact entries status =
    count-trim_compact_progress_text
      (with_status (join entries) (compact_progress_status_line status)) max_progress_len
      (omega arith)
rendered-FitsMessage card entries status =
    count-trim_compact_progress_text
      (with_status (String.◌++◌ "⏳ **Progress**" (numbered 1 entries))
        (compact_progress_status_line status))
      max_progress_len (omega arith)

sent_with-Within :
    (w : CompactProgressWriter) (content : String) (answer : Bool)
    → Within w
    → FitsMessage content
    → Within (sent_with w content answer).0
sent_with-Within w content true v h = record {
  few = v.few;
  short = All-append FitsMessage w.sent (content ∷ []) v.short (h, tt);
}
sent_with-Within w content false v h = record {
  few = v.few;
  short = All-append FitsMessage w.sent (content ∷ []) v.short (h, tt);
}

closed_with-Within :
    (w : CompactProgressWriter) (content : String) (answer : Bool)
    → Within w
    → FitsMessage content
    → Within (closed_with w content answer)
closed_with-Within w content true v h = record {
  few = v.few;
  short = All-append FitsMessage w.sent (content ∷ []) v.short (h, tt);
}
closed_with-Within w content false v h = record {
  few = v.few;
  short = All-append FitsMessage w.sent (content ∷ []) v.short (h, tt);
}

few_left : (l : List String) → length (drop (length l - 8) l) ≤ 8
few_left l = ground (arith, length-drop (length l - 8) l)

append_entry-Within :
    (w : CompactProgressWriter) (entry : String) (answer : Bool)
    → Within w
    → Within (append_entry w entry answer).0
unfolding append_entry
append_entry-Within w entry answer v =
    let w' = with_entry w (trim_space entry) in
    let v' : Within w' = record {
      few = few_left (w.entries ++ trim_space entry ∷ []);
      short = v.short;
    } in
    let content = render_with_status w'.style w'.entries "" in
    elim (Bool-cases (not w.enabled || w.failed)) [
      | inl a ↦ rw (a, append_entry) v
      | inr a ↦ elim (Bool-cases (trim_space entry == "")) [
        | inl b ↦ rw (a, b, append_entry) v
        | inr b ↦ elim (Bool-cases (content == "" || content == w.last_sent)) [
          | inl c ↦ rw (a, b, c, append_entry) v'
          | inr c ↦
              rw (a, b, c, append_entry)
                (sent_with-Within w' content answer v'
                  (rendered-FitsMessage w'.style w'.entries ""))
        ]
      ]
    ]

finalize-Within :
    (w : CompactProgressWriter) (status : String) (answer : Bool)
    → Within w
    → Within (finalize w status answer)
unfolding finalize
finalize-Within w status answer v =
    let content = render_with_status w.style w.entries status in
    elim (Bool-cases (not w.enabled || (not w.has_handle || w.closed))) [
      | inl a ↦ rw (a, finalize) v
      | inr a ↦ elim (Bool-cases (content == "" || content == w.last_sent)) [
        | inl b ↦ rw (a, b, finalize) (record { few = v.few; short = v.short })
        | inr b ↦
            rw (a, b, finalize)
              (closed_with-Within w content answer v
                (rendered-FitsMessage w.style w.entries status))
      ]
    ]

-- From a writer with eight entries at most that has sent no text longer than 3802 characters, as
-- a new one, whatever is appended and however it is finalized, and whatever the platform answers:
-- the writer keeps eight entries at most, and every text that it gives to the platform has 3802
-- characters at most, the limit and the two that mark a cut.
pub calls-Within : (w : CompactProgressWriter) (cs : List Call) → Within w → Within (calls w cs)
unfolding calls
calls-Within w [] v = v
calls-Within w (appends entry answer ∷ cs) v =
    calls-Within (append_entry w entry answer).0 cs (append_entry-Within w entry answer v)
calls-Within w (finalizes status answer ∷ cs) v =
    calls-Within (finalize w status answer) cs (finalize-Within w status answer v)
