-- ===== src/SplitMessage/Witnesses.antt =====
-- core/engine.go: the theorem on splitMessage, applied to a text of three lines.
use echo_client.Prelude.{String, List, some, ◌≡◌, All}
use echo_client.SplitMessage.{split_message}
use echo_client.SplitMessage.Cuts.{Piece}
use echo_client.SplitMessage.Pieces.{join, split_message_lem}

split_message_example :
    (chunks : List String) × (split_message "one\ntwo\nthree" 8 ≡ some chunks)
    × (join chunks ≡ "one\ntwo\nthree")
    × All (Piece 8) chunks
split_message_example = split_message_lem "one\ntwo\nthree" 8
