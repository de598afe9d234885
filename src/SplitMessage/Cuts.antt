-- ===== src/SplitMessage/Cuts.antt =====
-- core/engine.go: a cut of splitMessage is after a character and within the length.
use Prim.Native.Char.{Char, len_utf8}
use Prim.Native.String
use Prim.Native.String.{[], ◌∷◌, len}
use Prim.Native.String.len
use text.Mathlib.TextPositions.{len_utf8-pos}
use text.Mathlib.TextLemmas.{nil-append, cons-append}
use echo_client.Prelude.{
  ℕ, zero, suc, ◌+◌, ◌-◌, ◌≤◌, ◌<◌, String, true, none, some, leb, eqb, ◌≡◌, refl, ap, ◌∙◌, ◌⊎◌,
  inl, inr, arith, Bool-cases, Option-cases,
}
use echo_client.SplitMessage.Bytes.{
  valid_before, bytes_before, bytes_after, last_newline, back_up, preferred_end, chunk_end,
}

len-cons : (c : Char) (s : String) → len (c ∷ s) ≡ len_utf8 c + len s
len-cons c s = λ i. len.cons c s i

pub before-after :
    (text : String) (n : ℕ) → String.◌++◌ (bytes_before text n) (bytes_after text n) ≡ text
unfolding bytes_before bytes_after
before-after text zero = nil-append text
before-after [] (suc n) = nil-append []
before-after (c ∷ text) (suc n) =
    let k = suc n - len_utf8 c in
    cons-append c (bytes_before text k) (bytes_after text k) ∙ ap (λ t. c ∷ t) (before-after text k)

pub len-bytes_before :
    (text : String) (n : ℕ) → valid_before text n ≡ true → len (bytes_before text n) ≡ n
unfolding bytes_before valid_before
len-bytes_before text zero h = refl
len-bytes_before [] (suc n) h = ground (arith, h)
len-bytes_before (c ∷ text) (suc n) h =
    let k = suc n - len_utf8 c in
    ground (arith, h, len-cons c (bytes_before text k), len-bytes_before text k)

back_up-valid : (text : String) (n : ℕ) → valid_before text (back_up text n) ≡ true
unfolding back_up valid_before
back_up-valid text zero = refl
back_up-valid text (suc n) = elim (Bool-cases (valid_before text (suc n))) [
  | inl e ↦ rw (e, back_up) e
  | inr e ↦ rw (e, back_up) (back_up-valid text n)
]

back_up-le : (text : String) (n : ℕ) → back_up text n ≤ n
unfolding back_up
back_up-le text zero = omega arith
back_up-le text (suc n) = ground (arith, back_up-le text n)

last_newline-lt :
    (text : String) (n offset idx : ℕ) → last_newline text n offset ≡ some idx → idx < offset + n
unfolding last_newline
last_newline-lt text zero offset idx e = ground (arith, e)
last_newline-lt [] (suc n) offset idx e = ground (arith, e)
last_newline-lt (c ∷ text) (suc n) offset idx e =
    let (k, pos) = len_utf8-pos c in
    elim (Option-cases (last_newline text (suc n - len_utf8 c) (offset + len_utf8 c))) [
      | inl f ↦ ground (arith, e, f)
      | inr (later, f) ↦
          let before = last_newline-lt text (suc n - len_utf8 c) (offset + len_utf8 c) later f in
          elim (Bool-cases (leb (len_utf8 c) (suc n))) [
            | inl fits ↦ ground arith
            | inr wide ↦
                let none_left : 0 ≡ suc n - len_utf8 c = ground arith in
                let nothing : none ≡ some later =
                  ap (λ m. last_newline text m (offset + len_utf8 c)) none_left ∙ f in
                absurd (ground (arith, nothing))
          ]
    ]

preferred_end-le : (text : String) (max_len : ℕ) → preferred_end text max_len ≤ max_len
unfolding preferred_end
preferred_end-le text max_len = elim (Option-cases (last_newline text max_len 0)) [
  | inl e ↦ rw (e, preferred_end) (omega arith)
  | inr (idx, e) ↦
      let before = last_newline-lt text max_len 0 idx e in rw (e, preferred_end) (ground arith)
]

-- A piece of the length, or one character.
abbrev pub Piece : ℕ → String → Type 0
Piece max_len piece = (len piece ≤ max_len) ⊎ ((c : Char) × (piece ≡ c ∷ []))

abbrev pub Cut : String → ℕ → ℕ → Type 0
Cut text max_len end =
    (valid_before text end ≡ true) × (0 < end) × Piece max_len (bytes_before text end)

first_at : (c : Char) (text : String) (max_len n : ℕ) → len_utf8 c ≡ n → Cut (c ∷ text) max_len n
unfolding valid_before bytes_before
first_at c text max_len zero e = let (k, pos) = len_utf8-pos c in absurd (ground arith)
first_at c text max_len (suc n) e =
    let none_left : suc n - len_utf8 c ≡ 0 = omega arith in
    let fits : leb (len_utf8 c) (suc n) ≡ true = ground arith in
    (
      rw (fits, valid_before) (ap (valid_before text) none_left),
      omega arith,
      inr (c, ap (λ k. c ∷ bytes_before text k) none_left),
    )

first_character : (c : Char) (text : String) (max_len : ℕ) → Cut (c ∷ text) max_len (len_utf8 c)
first_character c text max_len = first_at c text max_len (len_utf8 c) refl

chunk_end-Cut :
    (c : Char) (text : String) (max_len : ℕ) → Cut (c ∷ text) max_len (chunk_end (c ∷ text) max_len)
unfolding chunk_end
chunk_end-Cut c text max_len =
    let n = preferred_end (c ∷ text) max_len in
    let end = back_up (c ∷ text) n in
    elim (Bool-cases (eqb end 0)) [
      | inl e ↦ rw (e, chunk_end) (first_character c text max_len)
      | inr e ↦
          let valid = back_up-valid (c ∷ text) n in
          let size = len-bytes_before (c ∷ text) end valid in
          let low = back_up-le (c ∷ text) n in
          let high = preferred_end-le (c ∷ text) max_len in
          rw (e, chunk_end) (valid, ground arith, inl (omega arith))
    ]

pub empty_text : (text : String) → len text ≡ 0 → "" ≡ text
empty_text [] e = refl
empty_text (c ∷ text) e = let (k, pos) = len_utf8-pos c in absurd (ground (arith, len-cons c text))

pub end_of_text :
    (text : String) (max_len : ℕ) → 0 < len text → Cut text max_len (chunk_end text max_len)
end_of_text [] max_len h = absurd (ground arith)
end_of_text (c ∷ text) max_len h = chunk_end-Cut c text max_len
