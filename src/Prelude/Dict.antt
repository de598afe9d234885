-- ===== src/Prelude/Dict.antt =====
-- Go's maps with string keys, as association lists. A write replaces an entry in place, a delete
-- drops the key. `get_or_zero`-style reads of a missing key are written out where they occur.
use Prim.Native.Nat.{ℕ, ◌+◌, ◌≤◌}
use Prim.Native.String.{String}
use mathlib.Core.Path.{◌≡◌, refl}
use mathlib.Core.Logic.{◌≢◌}
use mathlib.Core.Option.{Option, none, some}
use mathlib.Core.List.{List, [], ◌∷◌}
use native.Mathlib.Omega.{arith}
use text.Mathlib.Text.{◌==◌}
use text.Mathlib.TextEquality.{eq_iff}
use echo_client.Prelude.Tests.{if◌then◌else◌, ==_false, ==_self}

abbrev pub Dict {ℓ} : Type ℓ → Type ℓ
Dict V = List (String × V)

module _ {ℓ} {V : Type ℓ} where
  -- m[k], with the second result of Go's read
  unfoldable pub get : String → Dict V → Option V
  get k [] = none
  get k ((j, v) ∷ m) = if j == k then some v else get k m

  -- m[k] = v
  unfoldable pub put : String → V → Dict V → Dict V
  put k v [] = (k, v) ∷ []
  put k v ((j, w) ∷ m) = if j == k then (k, v) ∷ m else (j, w) ∷ put k v m

  -- delete(m, k)
  unfoldable pub delete : String → Dict V → Dict V
  delete k [] = []
  delete k ((j, w) ∷ m) = if j == k then delete k m else (j, w) ∷ delete k m

  pub get-put :
      (k j : String) (v : V) (m : Dict V) → get j (put k v m) ≡ (if k == j then some v else get j m)
  unfolding get put
  get-put k j v [] = refl
  get-put k j v ((i, w) ∷ m) = ground (arith, eq_iff k j, eq_iff i k, eq_iff i j, get-put k j v m)

  pub get-delete :
      (k j : String) (m : Dict V) → get j (delete k m) ≡ (if k == j then none else get j m)
  unfolding get delete
  get-delete k j [] = ground arith
  get-delete k j ((i, w) ∷ m) = ground (arith, eq_iff k j, eq_iff i k, eq_iff i j, get-delete k j m)

  pub get-put_self : (k : String) (v : V) (m : Dict V) → get k (put k v m) ≡ some v
  get-put_self k v m = ground (arith, get-put k k v m, ==_self k)

  pub get-put_ne : (k j : String) (v : V) (m : Dict V) → k ≢ j → get j (put k v m) ≡ get j m
  get-put_ne k j v m h = ground (arith, get-put k j v m, ==_false k j h)

  pub get-delete_self : (k : String) (m : Dict V) → get k (delete k m) ≡ none
  get-delete_self k m = ground (arith, get-delete k k m, ==_self k)

  pub get-delete_ne : (k j : String) (m : Dict V) → k ≢ j → get j (delete k m) ≡ get j m
  get-delete_ne k j m h = ground (arith, get-delete k j m, ==_false k j h)

  -- What every entry weighs, summed up: a `range` loop that adds.
  unfoldable pub total : (V → ℕ) → Dict V → ℕ
  total w [] = 0
  total w ((j, v) ∷ m) = w v + total w m

  -- The weight of the entry that a write replaces.
  abbrev pub weight : (V → ℕ) → Option V → ℕ
  weight w none = 0
  weight w (some v) = w v

  pub total-put :
      (w : V → ℕ) (k : String) (v : V) (m : Dict V)
      → total w (put k v m) + weight w (get k m) ≡ total w m + w v
  unfolding total put get
  total-put w k v [] = omega arith
  total-put w k v ((j, u) ∷ m) = ground (arith, total-put w k v m)

  pub total-delete-le : (w : V → ℕ) (k : String) (m : Dict V) → total w (delete k m) ≤ total w m
  unfolding total delete
  total-delete-le w k [] = omega arith
  total-delete-le w k ((j, u) ∷ m) = ground (arith, total-delete-le w k m)

  -- No key stands twice.
  abbrev pub Distinct : Dict V → Type ℓ
  Distinct [] = Unit
  Distinct ((k, v) ∷ m) = (get k m ≡ none) × Distinct m

  pub put-Distinct : (k : String) (v : V) (m : Dict V) → Distinct m → Distinct (put k v m)
  unfolding put get
  put-Distinct k v [] d = (refl, tt)
  put-Distinct k v ((j, w) ∷ m) d =
      ground (arith, put-Distinct k v m d.1, get-put k j v m, eq_iff j k, eq_iff k j)

  pub delete-Distinct : (k : String) (m : Dict V) → Distinct m → Distinct (delete k m)
  unfolding delete
  delete-Distinct k [] d = tt
  delete-Distinct k ((j, w) ∷ m) d =
      ground (arith, delete-Distinct k m d.1, get-delete k j m, eq_iff j k, eq_iff k j)
