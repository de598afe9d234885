-- ===== src/PromptQueue/Commands/Names.antt =====
-- What a name in /queue stands for, said without the code's search: the first item with that id, or,
-- where no item has it, the item with that number, counted from 1.
use echo_client.Prelude.{
  ℕ, zero, suc, ◌≤◌, ◌<◌, String, false, ◌≡◌, refl, ◌≢◌, ◌⊎◌, inl, inr, Option, none, some, List,
  [], ◌∷◌, ◌++◌, ◌==◌, arith, Bool-cases, Option-cases, length, All, eq_iff, ==_true, ==_false, ap,
}
use echo_client.Prelude.Text.{trim_space}
use echo_client.PromptQueue.{QueuedPrompt}
use echo_client.PromptQueue.Commands.{
  trim_hash, index_of_id, scan_index, checked_index, prompt_queue_item_index,
}

-- The name that is looked up: less the space around it and one leading `#`.
abbrev pub looked_up : String → String
looked_up name = trim_hash (trim_space name)

abbrev pub NoneHasId : String → List QueuedPrompt → Type 0
NoneHasId id = All (λ (q : QueuedPrompt). q.id ≢ id)

-- The first item with an id, which stands at an index.
pub record FirstWithId (id : String) (items : List QueuedPrompt) (i : ℕ) : Type 0 where
  pub before : List QueuedPrompt
  pub item : QueuedPrompt
  pub behind : List QueuedPrompt
  pub whole : items ≡ before ++ item ∷ behind
  pub place : length before ≡ i
  pub named : item.id ≡ id
  pub earlier : NoneHasId id before

-- The number is what fmt.Sscanf reads from the name.
abbrev pub StandsFor : List QueuedPrompt → String → ℕ → Type 0
StandsFor items name i =
    FirstWithId (looked_up name) items i
    ⊎ (NoneHasId (looked_up name) items
        × (scan_index (looked_up name) ≡ some (suc i))
        × (i < length items))

abbrev pub StandsForNone : List QueuedPrompt → String → Type 0
StandsForNone items name =
    NoneHasId (looked_up name) items
    × ((n : ℕ) → scan_index (looked_up name) ≡ some (suc n) → length items ≤ n)

id_differs : (id : String) (q : QueuedPrompt) → (q.id == id) ≡ false → q.id ≢ id
id_differs id q e same = cc (==_true q.id id same)

index_of_id-none :
    (id : String) (items : List QueuedPrompt) → index_of_id id items ≡ none → NoneHasId id items
unfolding index_of_id
index_of_id-none id [] e = tt
index_of_id-none id (q ∷ items) e = elim (Bool-cases (q.id == id)) [
  | inl same ↦ absurd (ground arith)
  | inr other ↦ (id_differs id q other, index_of_id-none id items (ground arith))
]

index_of_id-some :
    (id : String) (items : List QueuedPrompt) (i : ℕ)
    → index_of_id id items ≡ some i
    → FirstWithId id items i
unfolding index_of_id
index_of_id-some id [] i e = cc
index_of_id-some id (q ∷ items) i e = elim (Bool-cases (q.id == id)) [
  | inl same ↦ record {
    before = [];
    item = q;
    behind = items;
    whole = refl;
    place = ground arith;
    named = (eq_iff q.id id).0 same;
    earlier = tt;
  }
  | inr other ↦ elim (Option-cases (index_of_id id items)) [
    | inl gone ↦ absurd (ground arith)
    | inr (j, found) ↦
        let f = index_of_id-some id items j found in
        record {
          before = q ∷ f.before;
          item = f.item;
          behind = f.behind;
          whole = ap (◌∷◌ q) f.whole;
          place = ground (arith, f.place);
          named = f.named;
          earlier = (id_differs id q other, f.earlier);
        }
  ]
]

checked-some :
    (o : Option ℕ) (len i : ℕ) → checked_index o len ≡ some i → (o ≡ some (suc i)) × (i < len)
unfolding checked_index
checked-some none len i e = cc
checked-some (some zero) len i e = cc
checked-some (some (suc n)) len i e = ground arith

checked-none :
    (o : Option ℕ) (len : ℕ) → checked_index o len ≡ none → (n : ℕ) → o ≡ some (suc n) → len ≤ n
unfolding checked_index
checked-none none len e n f = cc
checked-none (some zero) len e n f = cc
checked-none (some (suc m)) len e n f = ground arith

pub item_index-StandsFor :
    (items : List QueuedPrompt) (name : String) (i : ℕ)
    → prompt_queue_item_index items name ≡ some i
    → StandsFor items name i
unfolding prompt_queue_item_index
item_index-StandsFor items name i e = elim (Option-cases (index_of_id (looked_up name) items)) [
  | inl gone ↦
      let (n, lt) = checked-some (scan_index (looked_up name)) (length items) i (ground arith) in
      inr (index_of_id-none (looked_up name) items gone, n, lt)
  | inr (j, found) ↦ inl (index_of_id-some (looked_up name) items i (ground arith))
]

pub item_index-StandsForNone :
    (items : List QueuedPrompt) (name : String)
    → prompt_queue_item_index items name ≡ none
    → StandsForNone items name
unfolding prompt_queue_item_index
item_index-StandsForNone items name e = elim (Option-cases (index_of_id (looked_up name) items)) [
  | inl gone ↦ (
    index_of_id-none (looked_up name) items gone,
    checked-none (scan_index (looked_up name)) (length items) (ground arith),
  )
  | inr (j, found) ↦ absurd (ground arith)
]

pub index_of_id-absent :
    (id : String) (items : List QueuedPrompt) → NoneHasId id items → index_of_id id items ≡ none
unfolding index_of_id
index_of_id-absent id [] h = refl
index_of_id-absent id (q ∷ items) h =
    rw (==_false q.id id h.0, index_of_id) (rw (index_of_id-absent id items h.1) refl)
