-- ===== src/Dedup/Witnesses.antt =====
-- core/dedup.go: the theorem on duplicates, applied to two calls with another one in between.
use echo_client.Prelude.{true, ◌≡◌, refl, [], ◌∷◌, arith}
use echo_client.Prelude.Dict.{get}
use echo_client.Dedup.{is_duplicate, is_duplicate_lem, seen_after}

is_duplicate_example :
    (is_duplicate (seen_after (is_duplicate [] "m1" 5).0 (("m2", 9) ∷ [])) "m1" 12).1 ≡ true
unfolding is_duplicate get
is_duplicate_example =
    is_duplicate_lem [] "m1" 5 12 (("m2", 9) ∷ []) (λ e. cc) refl (omega arith, tt) (omega arith)
