-- ===== src/SplitMessage/Bytes.antt =====
-- core/engine.go: where splitMessage cuts a text.
use Prim.Native.Char.{code, len_utf8}
use Prim.Native.String.{[], ◌∷◌}
use echo_client.Prelude.{
  ℕ, zero, suc, ◌+◌, ◌-◌, ◌/◌, String, Bool, true, false, ◌&&◌, Option, none, some, ltb, leb, eqb,
  if◌then◌else◌,
}

-- utf8.ValidString(text[:n])
unfoldable pub valid_before : String → ℕ → Bool
valid_before text zero = true
valid_before [] (suc n) = false
valid_before (c ∷ text) (suc n) =
    let rest = valid_before text (suc n - len_utf8 c) in
    if leb (len_utf8 c) (suc n) then rest else false

-- text[:n] and text[n:], for n at the end of a character
unfoldable pub bytes_before : String → ℕ → String
bytes_before text zero = []
bytes_before [] (suc n) = []
bytes_before (c ∷ text) (suc n) = c ∷ bytes_before text (suc n - len_utf8 c)

unfoldable pub bytes_after : String → ℕ → String
bytes_after text zero = text
bytes_after [] (suc n) = []
bytes_after (c ∷ text) (suc n) = bytes_after text (suc n - len_utf8 c)

-- strings.LastIndex(text[:n], "\n"), from the offset of the text: the newline is one byte.
unfoldable pub last_newline : String → ℕ → ℕ → Option ℕ
last_newline text zero offset = none
last_newline [] (suc n) offset = none
last_newline (c ∷ text) (suc n) offset =
    let later = last_newline text (suc n - len_utf8 c) (offset + len_utf8 c) in
    elim later [ some idx ↦ some idx | none ↦ if eqb (code c) 10 then some offset else none ]

-- The loop that moves the end back to the end of a character.
unfoldable pub back_up : String → ℕ → ℕ
unfolding valid_before
back_up text zero = zero
back_up text (suc n) =
    let earlier = back_up text n in if valid_before text (suc n) then suc n else earlier

-- The size of the first character, which DecodeRuneInString gives; 1 for none.
abbrev pub first_size : String → ℕ
first_size [] = 1
first_size (c ∷ text) = len_utf8 c

-- The end before it is moved back: after the last newline, if that is in the second half.
unfoldable pub preferred_end : String → ℕ → ℕ
unfolding last_newline
preferred_end text max_len = elim (last_newline text max_len 0) [
  | none ↦ max_len
  | some idx ↦ if ltb 0 idx && leb (max_len / 2) idx then idx + 1 else max_len
]

unfoldable pub chunk_end : String → ℕ → ℕ
unfolding preferred_end back_up
chunk_end text max_len =
    let end = back_up text (preferred_end text max_len) in
    if eqb end 0 then first_size text else end
