-- ===== src/PromptQueue/Commands/Places.antt =====
-- Indices into a queue: the ones that names resolve to, cuts at an index, swaps of neighbours.
use echo_client.Prelude.{
  ℕ, zero, suc, ◌<◌, String, ◌≡◌, refl, sym, ap, ◌∙◌, inl, inr, Option, none, some, List, [], ◌∷◌,
  ◌++◌, arith, Option-cases, length, get_elem?, set,
}
use mathlib.Core.Path.{ap₂}
use echo_client.Prelude.Text.{trim_space}
use echo_client.PromptQueue.{QueuedPrompt}
use echo_client.PromptQueue.Commands.{
  trim_hash, index_of_id, scan_index, checked_index, prompt_queue_item_index, remove_at, swap,
}

-- An index that the code computes is one of the queue.
pub index_of_id-lt :
    (id : String) (items : List QueuedPrompt) (i : ℕ)
    → index_of_id id items ≡ some i
    → i < length items
unfolding index_of_id
index_of_id-lt id [] i e = cc
index_of_id-lt id (item ∷ items) i e = elim (Option-cases (index_of_id id items)) [
  | inl n ↦ ground arith
  | inr (j, n) ↦ ground (arith, index_of_id-lt id items j n)
]

pub checked_index-lt : (o : Option ℕ) (len i : ℕ) → checked_index o len ≡ some i → i < len
unfolding checked_index
checked_index-lt none len i e = cc
checked_index-lt (some zero) len i e = cc
checked_index-lt (some (suc n)) len i e = ground arith

pub item_index-lt :
    (items : List QueuedPrompt) (name : String) (i : ℕ)
    → prompt_queue_item_index items name ≡ some i
    → i < length items
unfolding prompt_queue_item_index
item_index-lt items name i e =
    let id = trim_hash (trim_space name) in
    ground (arith, index_of_id-lt id items i, checked_index-lt (scan_index id) (length items) i)

-- A list cut at an index.
pub record CutAt (i : ℕ) (items : List QueuedPrompt) : Type 0 where
  pub before : List QueuedPrompt
  pub item : QueuedPrompt
  pub behind : List QueuedPrompt
  pub whole : items ≡ before ++ item ∷ behind
  pub place : length before ≡ i

pub cut_at : (i : ℕ) (items : List QueuedPrompt) → i < length items → CutAt i items
cut_at i [] h = absurd (omega arith)
cut_at zero (item ∷ items) h = record {
  before = [];
  item = item;
  behind = items;
  whole = refl;
  place = refl;
}
cut_at (suc i) (item ∷ items) h =
    let c = cut_at i items (omega arith) in
    record {
      before = item ∷ c.before;
      item = c.item;
      behind = c.behind;
      whole = ap (◌∷◌ item) c.whole;
      place = ap suc c.place;
    }

pub remove_at_cut :
    (before : List QueuedPrompt) (item : QueuedPrompt) (behind : List QueuedPrompt)
    → remove_at (length before) (before ++ item ∷ behind) ≡ before ++ behind
unfolding remove_at
remove_at_cut [] item behind = refl
remove_at_cut (x ∷ before) item behind = ap (◌∷◌ x) (remove_at_cut before item behind)

pub get_cut :
    (before : List QueuedPrompt) (a : QueuedPrompt) (rest : List QueuedPrompt)
    → get_elem? (before ++ a ∷ rest) (length before) ≡ some a
get_cut [] a rest = refl
get_cut (x ∷ before) a rest = get_cut before a rest

pub get_cut_next :
    (before : List QueuedPrompt) (a b : QueuedPrompt) (rest : List QueuedPrompt)
    → get_elem? (before ++ a ∷ b ∷ rest) (suc (length before)) ≡ some b
get_cut_next [] a b rest = refl
get_cut_next (x ∷ before) a b rest = get_cut_next before a b rest

pub set_cut :
    (before : List QueuedPrompt) (a v : QueuedPrompt) (rest : List QueuedPrompt)
    → set (before ++ a ∷ rest) (length before) v ≡ before ++ v ∷ rest
set_cut [] a v rest = refl
set_cut (x ∷ before) a v rest = ap (◌∷◌ x) (set_cut before a v rest)

pub set_cut_next :
    (before : List QueuedPrompt) (a b v : QueuedPrompt) (rest : List QueuedPrompt)
    → set (before ++ a ∷ b ∷ rest) (suc (length before)) v ≡ before ++ a ∷ v ∷ rest
set_cut_next [] a b v rest = refl
set_cut_next (x ∷ before) a b v rest = ap (◌∷◌ x) (set_cut_next before a b v rest)

module _ (before : List QueuedPrompt) (a b : QueuedPrompt) (behind : List QueuedPrompt) where
  pub swap_down :
      swap (length before) (suc (length before)) (before ++ a ∷ b ∷ behind)
      ≡ before ++ b ∷ a ∷ behind
  unfolding swap
  swap_down =
      rw (get_cut before a (b ∷ behind), get_cut_next before a b behind, swap)
        (rw (set_cut before a b (b ∷ behind)) (set_cut_next before b b a behind))

  pub swap_up :
      swap (suc (length before)) (length before) (before ++ a ∷ b ∷ behind)
      ≡ before ++ b ∷ a ∷ behind
  unfolding swap
  swap_up =
      rw (get_cut_next before a b behind, get_cut before a (b ∷ behind), swap)
        (rw (set_cut_next before a b a behind) (set_cut before a b (a ∷ behind)))

pub remove_at-CutAt :
    (i : ℕ) (items : List QueuedPrompt) (c : CutAt i items)
    → remove_at i items ≡ c.before ++ c.behind
remove_at-CutAt i items c =
    ap₂ remove_at (sym c.place) c.whole ∙ remove_at_cut c.before c.item c.behind

pub checked_index_zero : (o : Option ℕ) → checked_index o 0 ≡ none
unfolding checked_index
checked_index_zero none = refl
checked_index_zero (some zero) = refl
checked_index_zero (some (suc i)) = ground arith

pub item_index_empty : (name : String) → prompt_queue_item_index [] name ≡ none
unfolding prompt_queue_item_index index_of_id
item_index_empty name = checked_index_zero (scan_index (trim_hash (trim_space name)))

-- Two neighbours, the first at an index.
pub record Neighbours (i : ℕ) (items : List QueuedPrompt) : Type 0 where
  pub before : List QueuedPrompt
  pub first : QueuedPrompt
  pub second : QueuedPrompt
  pub behind : List QueuedPrompt
  pub whole : items ≡ before ++ first ∷ second ∷ behind
  pub place : length before ≡ i

pub neighbours : (i : ℕ) (items : List QueuedPrompt) → suc i < length items → Neighbours i items
neighbours i [] h = absurd (omega arith)
neighbours zero (a ∷ []) h = absurd (omega arith)
neighbours zero (a ∷ b ∷ items) h = record {
  before = [];
  first = a;
  second = b;
  behind = items;
  whole = refl;
  place = refl;
}
neighbours (suc i) (a ∷ items) h =
    let n = neighbours i items (omega arith) in
    record {
      before = a ∷ n.before;
      first = n.first;
      second = n.second;
      behind = n.behind;
      whole = ap (◌∷◌ a) n.whole;
      place = ap suc n.place;
    }

-- The neighbours trade places.
abbrev pub traded : {i : ℕ} {items : List QueuedPrompt} → Neighbours i items → List QueuedPrompt
traded n = n.before ++ n.second ∷ n.first ∷ n.behind

pub swap-down :
    (i : ℕ) (items : List QueuedPrompt) (n : Neighbours i items) → swap i (suc i) items ≡ traded n
swap-down i items n =
    ap₂ (λ (j : ℕ) xs. swap j (suc j) xs) (sym n.place) n.whole
    ∙ swap_down n.before n.first n.second n.behind

pub swap-up :
    (i : ℕ) (items : List QueuedPrompt) (n : Neighbours i items) → swap (suc i) i items ≡ traded n
swap-up i items n =
    ap₂ (λ (j : ℕ) xs. swap (suc j) j xs) (sym n.place) n.whole
    ∙ swap_up n.before n.first n.second n.behind
