-- ===== src/SplitMessage/Pieces.antt =====
-- core/engine.go: splitMessage ends, loses nothing and keeps to the length.
use Prim.Native.String
use Prim.Native.String.{len}
use text.Mathlib.TextPositions.{len-append}
use text.Mathlib.TextLemmas.{append-nil}
use echo_client.Prelude.{
  ℕ, zero, suc, ◌+◌, ◌<◌, String, Option, some, List, [], ◌∷◌, All, leb, eqb, ◌≡◌, refl, sym, ap,
  ◌∙◌, inl, inr, arith, Bool-cases,
}
use echo_client.SplitMessage.{with_chunk, split_loop, split_message}
use echo_client.SplitMessage.Bytes.{chunk_end, bytes_before, bytes_after}
use echo_client.SplitMessage.Cuts.{Piece, before-after, len-bytes_before, empty_text, end_of_text}

abbrev pub join : List String → String
join [] = ""
join (c ∷ chunks) = String.◌++◌ c (join chunks)

Splits : String → ℕ → Option (List String) → Type 0
Splits text max_len r =
    (chunks : List String) × (r ≡ some chunks) × (join chunks ≡ text) × All (Piece max_len) chunks

with_chunk-Splits :
    (chunk rest text : String) (max_len : ℕ) (r : Option (List String))
    → Splits rest max_len r
    → String.◌++◌ chunk rest ≡ text
    → Piece max_len chunk
    → Splits text max_len (with_chunk chunk r)
unfolding Splits
with_chunk-Splits chunk rest text max_len r (chunks, e, whole, pieces) f piece =
    (chunk ∷ chunks, ap (with_chunk chunk) e, ap (String.◌++◌ chunk) whole ∙ f, (piece, pieces))

split_loop-Splits :
    (fuel : ℕ) (text : String) (max_len : ℕ)
    → len text < fuel
    → Splits text max_len (split_loop fuel text max_len)
unfolding split_loop Splits
split_loop-Splits zero text max_len h = absurd (omega arith)
split_loop-Splits (suc fuel) text max_len h = elim (Bool-cases (eqb (len text) 0)) [
  | inl e ↦ rw (e, split_loop) ([], refl, empty_text text (ground arith), tt)
  | inr e ↦ elim (Bool-cases (leb (len text) max_len)) [
    | inl f ↦ rw (e, f, split_loop) (text ∷ [], refl, append-nil text, (inl (ground arith), tt))
    | inr f ↦
        let end = chunk_end text max_len in
        let (valid, pos, piece) = end_of_text text max_len (ground arith) in
        let whole = before-after text end in
        let size = len-bytes_before text end valid in
        let sizes : len text ≡ len (bytes_before text end) + len (bytes_after text end) =
          sym (ap len whole) ∙ len-append (bytes_before text end) (bytes_after text end) in
        rw (e, f, split_loop)
          (with_chunk-Splits (bytes_before text end) (bytes_after text end) text max_len _
            (split_loop-Splits fuel (bytes_after text end) max_len (omega arith)) whole piece)
  ]
]

-- For every text and length, splitMessage ends, its pieces put together are the text, and each piece
-- has that many bytes at most or is a single character.
pub split_message_lem :
    (text : String) (max_len : ℕ)
    → (chunks : List String) × (split_message text max_len ≡ some chunks)
      × (join chunks ≡ text)
      × All (Piece max_len) chunks
unfolding split_message Splits
split_message_lem text max_len = elim (Bool-cases (leb (len text) max_len)) [
  | inl e ↦ rw (e, split_message) (text ∷ [], refl, append-nil text, (inl (ground arith), tt))
  | inr e ↦ rw (e, split_message) (split_loop-Splits (len text + 1) text max_len (omega arith))
]
