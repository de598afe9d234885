-- ===== src/Session/History.antt =====
-- What is read back from a session's history.
use mathlib.Core.List.{reverse, reverse-append, reverse-reverse, reverse-cons, append_assoc}
use mathlib.Core.Path.{subst}
use echo_client.Prelude.{
  ℕ, ◌-◌, String, ◌||◌, ◌≡◌, refl, sym, ap, ◌∙◌, ◌≢◌, ◌⊎◌, inl, inr, List, [], ◌∷◌, ◌++◌, ◌==◌,
  arith, ltb, eqb, if◌then◌else◌, length, drop, take, take-append-drop, drop_all, ltb→lt,
  length-drop, Bool-cases, eq_iff, All, All-append,
}
use echo_client.Prelude.Text.{trim_space}
use echo_client.Session.{
  HistoryEntry, Session, get_history, first_assistant, latest_assistant_message,
  latest_assistant_message_since,
}

abbrev pub Speaks : HistoryEntry → Type 0
Speaks e = (e.role ≡ "assistant") × (trim_space e.content ≢ "")

-- The first entry of a list that speaks, with what stands before it.
abbrev pub FirstSpeaker : List HistoryEntry → String → Type 0
FirstSpeaker h text =
    ((text ≡ "") × All (λ e. ¬ Speaks e) h)
    ⊎ ((before : List HistoryEntry) × ((e : HistoryEntry) × ((behind : List HistoryEntry) × (h
              ≡ before ++ e ∷ behind)
            × Speaks e
            × (text ≡ trim_space e.content)
            × All (λ x. ¬ Speaks x) before)))

skip :
    (e : HistoryEntry) (h : List HistoryEntry) (text : String)
    → ¬ Speaks e
    → FirstSpeaker h text
    → FirstSpeaker (e ∷ h) text
skip e h text silent (inl (none_found, all)) = inl (none_found, (silent, all))
skip e h text silent (inr (before, (x, (behind, cut, speaks, t, all)))) =
    inr (e ∷ before, (x, (behind, ap (◌∷◌ e) cut, speaks, t, (silent, all))))

pub first_assistant-FirstSpeaker : (h : List HistoryEntry) → FirstSpeaker h (first_assistant h)
unfolding first_assistant
first_assistant-FirstSpeaker [] = inl (refl, tt)
first_assistant-FirstSpeaker (e ∷ h) =
    let rest = skip e h (first_assistant h) in
    let ih = first_assistant-FirstSpeaker h in
    elim (Bool-cases (e.role == "assistant")) [
      | inr other ↦ rw other (rest (λ s. ground (arith, eq_iff e.role "assistant")) ih)
      | inl own ↦ elim (Bool-cases (trim_space e.content == "")) [
        | inl blank ↦ rw (own, blank) (rest (λ s. s.1 ((eq_iff _ "").0 blank)) ih)
        | inr text ↦
            rw (own, text)
              (inr (
                [],
                (
                  e,
                  (
                    h,
                    refl,
                    ((eq_iff _ _).0 own, λ b. ground (arith, eq_iff (trim_space e.content) "")),
                    refl,
                    tt,
                  ),
                ),
              ))
      ]
    ]

All-reverse : (P : HistoryEntry → Type 0) (h : List HistoryEntry) → All P h → All P (reverse h)
All-reverse P [] a = tt
All-reverse P (e ∷ h) a =
    rw (reverse-cons e h) (All-append P (reverse h) (e ∷ []) (All-reverse P h a.1) (a.0, tt))

-- The latest entry that speaks: nothing that speaks comes behind it.
abbrev pub LatestSpeaker : List HistoryEntry → String → Type 0
LatestSpeaker h text =
    ((text ≡ "") × All (λ e. ¬ Speaks e) h)
    ⊎ ((before : List HistoryEntry) × ((e : HistoryEntry) × ((behind : List HistoryEntry) × (h
              ≡ before ++ e ∷ behind)
            × Speaks e
            × (text ≡ trim_space e.content)
            × All (λ x. ¬ Speaks x) behind)))

turned :
    (h before behind : List HistoryEntry) (e : HistoryEntry)
    → reverse h ≡ before ++ e ∷ behind
    → h ≡ reverse behind ++ e ∷ reverse before
turned h before behind e cut =
    sym (reverse-reverse h)
    ∙ ap reverse cut
    ∙ reverse-append before (e ∷ behind)
    ∙ ap (λ xs. xs ++ reverse before) (reverse-cons e behind)
    ∙ append_assoc (reverse behind) (e ∷ []) (reverse before)

turn_round :
    (h : List HistoryEntry) (text : String) → FirstSpeaker (reverse h) text → LatestSpeaker h text
turn_round h text (inl (empty, all)) = inl (
  empty,
  subst (All (λ e. ¬ Speaks e)) (reverse-reverse h) (All-reverse (λ e. ¬ Speaks e) (reverse h) all),
)
turn_round h text (inr (before, (e, (behind, cut, speaks, t, all)))) = inr (
  reverse behind,
  (
    e,
    (
      reverse before,
      turned h before behind e cut,
      speaks,
      t,
      All-reverse (λ x. ¬ Speaks x) before all,
    ),
  ),
)

drop_clamped :
    (n : ℕ) (h : List HistoryEntry) → drop (if ltb (length h) n then length h else n) h ≡ drop n h
drop_clamped n h = elim (Bool-cases (ltb (length h) n)) [
  | inl over ↦ rw over (
      drop_all (length h) h (omega arith)
      ∙ sym (drop_all n h (omega (arith, ltb→lt (length h) n over))))
  | inr fits ↦ rw fits
]

-- The reported message is the trimmed text of the last entry of the assistant that is not blank, and
-- is empty exactly where no entry of the part that is searched is such a one; the part is the whole
-- history, or what comes from the given index on.
pub latest_assistant_message-LatestSpeaker :
    (s : Session) (index : ℕ)
    → LatestSpeaker s.history (latest_assistant_message s)
      × LatestSpeaker (drop index s.history) (latest_assistant_message_since s index)
unfolding latest_assistant_message latest_assistant_message_since
latest_assistant_message-LatestSpeaker s index = (
  turn_round s.history _ (first_assistant-FirstSpeaker (reverse s.history)),
  rw (drop_clamped index s.history) (
      turn_round (drop index s.history) _
        (first_assistant-FirstSpeaker (reverse (drop index s.history)))),
)

-- What is asked for is the end of the history, in its order: the last n entries, or all of them if n
-- is 0 or there are fewer.
pub get_history_lem :
    (s : Session) (n : ℕ)
    → (before : List HistoryEntry) × (s.history ≡ before ++ get_history s n)
      × (length (get_history s n)
          ≡ (if eqb n 0 || ltb (length s.history) n then length s.history else n))
unfolding get_history
get_history_lem s n =
    let total = length s.history in
    let n' = if eqb n 0 || ltb total n then total else n in
    (
      take (total - n') s.history,
      sym (take-append-drop (total - n') s.history),
      ground (arith, length-drop (total - n') s.history),
    )
