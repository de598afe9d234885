-- ===== src/SplitMessage.antt =====
-- core/engine.go: splitMessage, which cuts a text for a platform into pieces of a number of bytes. The text
-- is valid UTF-8, so a cut at a byte leaves valid UTF-8 exactly where a character ends; the length is
-- not negative.
pub mod Bytes
pub mod Cuts
pub mod Pieces
mod Witnesses
use Prim.Native.String.{len}
use echo_client.Prelude.{
  ℕ, zero, suc, ◌+◌, String, true, false, Option, none, some, List, [], ◌∷◌, leb, eqb,
  if◌then◌else◌,
}
use echo_client.SplitMessage.Bytes.{chunk_end, bytes_before, bytes_after}

abbrev pub with_chunk : String → Option (List String) → Option (List String)
with_chunk chunk none = none
with_chunk chunk (some chunks) = some (chunk ∷ chunks)

-- The loop; nothing if the fuel runs out.
unfoldable pub split_loop : ℕ → String → ℕ → Option (List String)
unfolding chunk_end bytes_before bytes_after
split_loop zero text max_len = none
split_loop (suc fuel) text max_len =
    let end = chunk_end text max_len in
    elim (eqb (len text) 0) [
      | true ↦ some []
      | false ↦ elim (leb (len text) max_len) [
        | true ↦ some (text ∷ [])
        | false ↦
            with_chunk (bytes_before text end) (split_loop fuel (bytes_after text end) max_len)
      ]
    ]

unfoldable pub split_message : String → ℕ → Option (List String)
unfolding split_loop
split_message text max_len =
    if leb (len text) max_len then some (text ∷ []) else split_loop (len text + 1) text max_len
