-- ===== src/Relay/Key.antt =====
-- core/relay.go: parseSessionKeyParts.
use Prim.Native.Char.{code}
use Prim.Native.String.{String, [], ◌∷◌}
use echo_client.Prelude.{Option, none, some, eqb, if◌then◌else◌}

-- The text before the first colon and after it.
unfoldable pub cut_colon : String → Option (String × String)
cut_colon [] = none
cut_colon (c ∷ s) =
    let rest = cut_colon s in
    if eqb (code c) b':'
    then some ("", s)
    else (elim rest [ none ↦ none | some r ↦ some (c ∷ r.0, r.1) ])

abbrev until_colon : String → Option (String × String) → String
until_colon s none = s
until_colon s (some r) = r.0

-- strings.SplitN(sessionKey, ":", 3), of which the first two parts are used
unfoldable pub parse_session_key_parts : String → Option (String × String)
unfolding cut_colon
parse_session_key_parts session_key = elim (cut_colon session_key) [
  | none ↦ none
  | some r ↦ some (r.0, until_colon r.1 (cut_colon r.1))
]
