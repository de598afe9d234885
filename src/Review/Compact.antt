-- ===== src/Review/Compact.antt =====
-- core/engine.go: compactReviewPromptText ends and cuts the middle of a text.
use Prim.Native.String
use Prim.Native.String.{count, [], ◌∷◌}
use text.Mathlib.TextLemmas.{length-append, length-cons, nil-append}
use echo_client.Prelude.{
  ℕ, zero, suc, ◌+◌, ◌-◌, ◌/◌, ◌≤◌, ◌<◌, String, Bool, true, false, some, leb, eqb, ◌≡◌, refl, sym,
  ap, ◌∙◌, ◌⊎◌, inl, inr, arith, Bool-cases,
}
use echo_client.Prelude.Text.{trim_space, decimal, is_empty}
use mathlib.Core.Path.{subst}
use echo_client.Prelude.Text.Pieces.{
  drop-drop_chars, take_chars, drop_chars, take-drop_chars, count-take_chars, count-drop_chars,
  count-decimal,
}
use echo_client.Review.{
  review_marker, Marker, too_long, marker, marker_loop, compacted, compact_review_prompt_text,
}

count-marker_text : (n : ℕ) → count (review_marker n) ≡ 15 + (count (decimal n) + 29)
unfolding review_marker
count-marker_text n =
    let tail = length-append (decimal n) " characters for review ...]\n\n" in
    let whole =
      length-append "\n\n[... omitted "
        (String.◌++◌ (decimal n) " characters for review ...]\n\n") in
    ground arith

count-review_marker : (m n : ℕ) → m ≤ n → count (review_marker m) ≤ count (review_marker n)
count-review_marker m n h =
    ground (arith, count-decimal m n h, count-marker_text m, count-marker_text n)

-- What a marker that the loop ends with says.
Exact : ℕ → ℕ → Marker → Type 0
Exact total max_len too_long = Unit
Exact total max_len (marker m) =
    (n : ℕ) × (m ≡ review_marker n) × (count m < max_len) × (total ≡ n + (max_len - count m))

-- The loop ends: the number grows, since a larger one has a longer marker, and it stays below the total.
marker_loop-ends :
    (fuel total max_len omitted : ℕ)
    → max_len < total
    → omitted ≤ total - (max_len - count (review_marker omitted))
    → total < fuel + omitted
    → (m : Marker) × (marker_loop fuel total max_len omitted ≡ some m) × Exact total max_len m
unfolding marker_loop Exact
marker_loop-ends zero total max_len omitted h grows enough = absurd (omega arith)
marker_loop-ends (suc fuel) total max_len omitted h grows enough =
    let len = count (review_marker omitted) in
    let next = total - (max_len - len) in
    elim (Bool-cases (leb max_len len)) [
      | inl e ↦ (too_long, rw (e, marker_loop) refl, tt)
      | inr e ↦ elim (Bool-cases (eqb next omitted)) [
        | inl f ↦ (
          marker (review_marker omitted),
          rw (e, f, marker_loop) refl,
          (omitted, refl, ground arith, ground arith),
        )
        | inr f ↦
            let longer = count-review_marker omitted next grows in
            let (m, found, exact) =
              marker_loop-ends fuel total max_len next h (omega arith) (ground arith) in
            (m, rw (e, f, marker_loop) found, exact)
      ]
    ]

-- The ways in which a text is shortened: its first characters, the same with an ellipsis, or its
-- first and last characters around a marker with the exact number of those between them.
pub data Shortened : String → String → Type 0 where
  first : (p rest : String) → Shortened (String.◌++◌ p rest) p
  dotted : (p rest : String) → Shortened (String.◌++◌ p rest) (String.◌++◌ p "…")
  middle :
      (head omitted tail : String)
      → Shortened
          (String.◌++◌ head (String.◌++◌ omitted tail))
          (String.◌++◌ head (String.◌++◌ (review_marker (count omitted)) tail))

abbrev Short : String → ℕ → String → Type 0
Short text max_len r = (count r ≤ max_len) × Shortened text r

first_of : (text p rest : String) → String.◌++◌ p rest ≡ text → Shortened text p
first_of text p rest e = subst (λ t. Shortened t p) e (first p rest)

dotted_of : (text p rest : String) → String.◌++◌ p rest ≡ text → Shortened text (String.◌++◌ p "…")
dotted_of text p rest e = subst (λ t. Shortened t (String.◌++◌ p "…")) e (dotted p rest)

middle_of :
    (text head omitted tail : String) (n : ℕ)
    → String.◌++◌ head (String.◌++◌ omitted tail) ≡ text
    → count omitted ≡ n
    → Shortened text (String.◌++◌ head (String.◌++◌ (review_marker n) tail))
middle_of text head omitted tail n e f =
    let same = ap (λ k. String.◌++◌ head (String.◌++◌ (review_marker k) tail)) f in
    subst (λ r. Shortened text r) same
      (subst
        (λ t. Shortened t (String.◌++◌ head (String.◌++◌ (review_marker (count omitted)) tail))) e
        (middle head omitted tail))

module _ (text : String) (max_len n : ℕ) (fits : count (review_marker n) < max_len)
    (exact : count text ≡ n + (max_len - count (review_marker n))) where
  abbrev keep : ℕ
  keep = max_len - count (review_marker n)

  abbrev head : ℕ
  head = keep / 2

  abbrev tail : ℕ
  tail = keep - head

  rest : drop_chars n (drop_chars head text) ≡ drop_chars (count text - tail) text
  rest =
      let same : head + n ≡ count text - tail = omega arith in
      drop-drop_chars head n text ∙ ap (λ k. drop_chars k text) same

  whole :
      String.◌++◌
        (take_chars head text)
        (String.◌++◌ (take_chars n (drop_chars head text)) (drop_chars (count text - tail) text))
      ≡ text
  whole =
      ap
        (λ t.
          String.◌++◌ (take_chars head text) (String.◌++◌ (take_chars n (drop_chars head text)) t))
        (sym rest)
      ∙ ap (String.◌++◌ (take_chars head text)) (take-drop_chars n (drop_chars head text))
      ∙ take-drop_chars head text

  middle_chars : Short text max_len (compacted text max_len (marker (review_marker n)))
  unfolding compacted
  middle_chars =
      let after = drop_chars (count text - tail) text in
      let behind = length-append (review_marker n) after in
      let all = length-append (take_chars head text) (String.◌++◌ (review_marker n) after) in
      let first_len = count-take_chars head text (omega arith) in
      let last_len = count-drop_chars (count text - tail) text in
      (
        ground arith,
        middle_of text (take_chars head text) (take_chars n (drop_chars head text)) after n whole (
            count-take_chars n (drop_chars head text) (ground (arith, count-drop_chars head text))),
      )

compacted-Short :
    (text : String) (max_len : ℕ) (m : Marker)
    → 0 < max_len
    → max_len < count text
    → Exact (count text) max_len m
    → Short text max_len (compacted text max_len m)
unfolding compacted Exact
compacted-Short text max_len too_long pos h e = elim (Bool-cases (leb max_len 1)) [
  | inl small ↦
      rw (small, compacted)
        (
          ground (arith, count-take_chars max_len text (omega arith)),
          first_of text (take_chars max_len text) (drop_chars max_len text)
              (take-drop_chars max_len text),
        )
  | inr large ↦
      let k = max_len - 1 in
      let size = length-append (take_chars k text) "…" in
      rw (large, compacted)
        (
          ground (arith, count-take_chars k text (omega arith)),
          dotted_of text (take_chars k text) (drop_chars k text) (take-drop_chars k text),
        )
]
compacted-Short text max_len (marker m) pos h (n, same, fits, exact) =
    rw same (middle_chars text max_len n (ground arith) (ground arith))

empty_cases :
    (t : String) → ((t ≡ "") × (is_empty t ≡ true)) ⊎ ((0 < count t) × (is_empty t ≡ false))
empty_cases [] = inl (refl, refl)
empty_cases (c ∷ t) = inr (ground (arith, length-cons c t), refl)

-- For every text and limit, compactReviewPromptText ends, and its result is within the limit. It is
-- the trimmed text if that fits; else it is marked as cut and is the first characters of the trimmed
-- text, with or without an ellipsis, or its first and last characters around a marker that names
-- exactly how many characters between them were left out.
pub compact_review_prompt_text_lem :
    (s : String) (max_len : ℕ)
    → (r : String) × (cut : Bool) × (compact_review_prompt_text s max_len ≡ some (r, cut))
      × (count r ≤ max_len)
      × (((cut ≡ false) × (r ≡ trim_space s))
          ⊎ ((cut ≡ true) × (max_len < count (trim_space s)) × Shortened (trim_space s) r))
unfolding compact_review_prompt_text
compact_review_prompt_text_lem s max_len =
    let text = trim_space s in
    let total = count text in
    elim (Bool-cases (eqb max_len 0)) [
      | inl e ↦ elim (empty_cases text) [
        | inl (empty, is) ↦ (
          "",
          false,
          rw (e, is, compact_review_prompt_text) refl,
          ground arith,
          inl (refl, sym empty),
        )
        | inr (pos, is) ↦ (
          "",
          true,
          rw (e, is, compact_review_prompt_text) refl,
          ground arith,
          inr (refl, ground arith, first_of text "" text (nil-append text)),
        )
      ]
      | inr e ↦ elim (Bool-cases (leb total max_len)) [
        | inl f ↦ (
          text,
          false,
          rw (e, f, compact_review_prompt_text) refl,
          ground arith,
          inl (refl, refl),
        )
        | inr f ↦
            let (m, found, exact) =
              marker_loop-ends (suc total) total max_len (total - max_len) (ground arith)
                (omega arith) (omega arith) in
            let (size, short) =
              compacted-Short text max_len m (ground arith) (ground arith) exact in
            (
              compacted text max_len m,
              true,
              rw (e, f, found, compact_review_prompt_text) refl,
              size,
              inr (refl, ground arith, short),
            )
      ]
    ]
