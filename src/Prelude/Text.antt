-- ===== src/Prelude/Text.antt =====
-- What the program uses of Go's `strings`, `fmt` and `unicode` packages: TrimSpace, ToLower and `%d`. A text
-- is a sequence of Unicode characters: invalid UTF-8 is not represented.
pub mod Laws
pub mod Pieces
use Prim.Native.Char.{Char, code}
use Prim.Native.Nat.{ℕ, zero, suc, ◌/◌, ◌%◌}
use Prim.Native.String.{String, [], ◌∷◌}
use mathlib.Core.Bool.{Bool, true, false, ◌&&◌, ◌||◌}
use echo_client.Prelude.Tests.{ltb, leb, eqb, if◌then◌else◌}

-- unicode.IsSpace: the characters with the property White_Space.
unfoldable pub is_space : ℕ → Bool
is_space c =
    (leb 9 c && leb c 13)
    || eqb c 32
    || eqb c 0x85
    || eqb c 0xa0
    || eqb c 0x1680
    || (leb 0x2000 c && leb c 0x200a)
    || eqb c 0x2028
    || eqb c 0x2029
    || eqb c 0x202f
    || eqb c 0x205f
    || eqb c 0x3000

abbrev pub is_empty : String → Bool
is_empty [] = true
is_empty (c ∷ s) = false

unfoldable pub trim_left : String → String
unfolding is_space
trim_left [] = []
trim_left (c ∷ s) = if is_space (code c) then trim_left s else c ∷ s

unfoldable pub trim_right : String → String
unfolding is_space
trim_right [] = []
trim_right (c ∷ s) =
    let rest = trim_right s in if is_space (code c) && is_empty rest then [] else c ∷ rest

-- strings.TrimSpace
unfoldable pub trim_space : String → String
unfolding trim_left trim_right
trim_space s = trim_right (trim_left s)

-- The last digits of a number, before what follows.
unfoldable pub digit : ℕ → Char
digit zero = "0"
digit (suc zero) = "1"
digit (suc (suc zero)) = "2"
digit (suc (suc (suc zero))) = "3"
digit (suc (suc (suc (suc zero)))) = "4"
digit (suc (suc (suc (suc (suc zero))))) = "5"
digit (suc (suc (suc (suc (suc (suc zero)))))) = "6"
digit (suc (suc (suc (suc (suc (suc (suc zero))))))) = "7"
digit (suc (suc (suc (suc (suc (suc (suc (suc zero)))))))) = "8"
digit _ = "9"

unfoldable pub digits_before : ℕ → ℕ → String → String
unfolding digit
digits_before zero n rest = rest
digits_before (suc fuel) n rest =
    let more = digits_before fuel (n / 10) (digit (n % 10) ∷ rest) in
    if ltb n 10 then digit n ∷ rest else more

-- fmt.Sprintf("%d", n), for a number that is not negative.
unfoldable pub decimal : ℕ → String
unfolding digits_before
decimal n = digits_before (suc n) n []

lower_in : String → String → Char → Char
lower_in [] ls c = c
lower_in (u ∷ us) [] c = c
lower_in (u ∷ us) (l ∷ ls) c =
    let rest = lower_in us ls c in if eqb (code u) (code c) then l else rest

-- The lower case of an ASCII letter. Of the other characters, strings.ToLower makes an ASCII letter
-- of U+0130 and U+212A only, and the model leaves them alone: of the words that the program compares,
-- only the read-only field `id` has such a letter, and a field of that name is refused in any spelling.
unfoldable pub lower_char : Char → Char
unfolding lower_in
lower_char c =
    if leb b'A' (code c) && leb (code c) b'Z'
    then lower_in "ABCDEFGHIJKLMNOPQRSTUVWXYZ" "abcdefghijklmnopqrstuvwxyz" c
    else c

unfoldable pub to_lower : String → String
unfolding lower_char
to_lower [] = []
to_lower (c ∷ s) = lower_char c ∷ to_lower s
