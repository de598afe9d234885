-- ===== src/PromptQueue/Commands/Edit.antt =====
-- /queue clear, delete, up and down: what each does to the chat's queue, and to nothing else.
use echo_client.Prelude.{
  ℕ, zero, suc, ◌<◌, String, Bool, true, false, ◌≡◌, refl, ◌⊎◌, inl, inr, Option, none, some, List,
  [], ◌∷◌, ◌++◌, arith, ltb, Bool-cases, Option-cases, length, ltb→lt, lt→ltb, ltb-false,
}
use echo_client.Prelude.Dict.{get}
use echo_client.PromptQueue.{QueuedPrompt, PromptQueueState, Queues, state_of, set_state}
use echo_client.PromptQueue.Lifecycle.{
  Becomes, set_state-Becomes, settle-Becomes, unchanged-Becomes, removed-Becomes,
}
use echo_client.PromptQueue.Commands.{
  clear_prompt_queue, prompt_queue_item_index, delete_prompt_queue_item, Delta, up, down,
  move_target, swap, move_prompt_queue_item,
}
use echo_client.PromptQueue.Commands.Names.{
  StandsFor, StandsForNone, item_index-StandsFor, item_index-StandsForNone,
}
use echo_client.PromptQueue.Commands.Places.{
  item_index-lt, CutAt, cut_at, remove_at-CutAt, item_index_empty, Neighbours, neighbours, traded,
  swap-down, swap-up,
}

-- What a deletion comes to: the named item leaves the queue, or nothing happens.
abbrev pub Deletes : Queues → String → String → Queues × Bool → Type 0
Deletes qs k name r =
    ((r.1 ≡ false) × (r.0 ≡ qs) × StandsForNone (state_of qs k).items name)
    ⊎ ((r.1 ≡ true)
        × ((i : ℕ) × StandsFor (state_of qs k).items name i
            × ((c : CutAt i (state_of qs k).items) × Becomes qs r.0 k
                  (record (state_of qs k) { items = c.before ++ c.behind }))))

delete_found :
    (qs : Queues) (k name : String) (state : PromptQueueState)
    → get k qs.prompt_queues ≡ some state
    → Deletes qs k name (delete_prompt_queue_item qs k name)
unfolding delete_prompt_queue_item
delete_found qs k name state e = elim (Option-cases (prompt_queue_item_index state.items name)) [
  | inl n ↦
      rw (e, delete_prompt_queue_item)
        (rw (n, delete_prompt_queue_item)
          (inl (refl, refl, item_index-StandsForNone state.items name n)))
  | inr (i, f) ↦
      let c = cut_at i state.items (item_index-lt state.items name i f) in
      rw (e, delete_prompt_queue_item)
        (rw (f, delete_prompt_queue_item)
          (inr (
            refl,
            (
              i,
              item_index-StandsFor state.items name i f,
              (c, rw (remove_at-CutAt i state.items c) (settle-Becomes qs k _)),
            ),
          )))
]

delete_missing :
    (qs : Queues) (k name : String)
    → get k qs.prompt_queues ≡ none
    → Deletes qs k name (delete_prompt_queue_item qs k name)
unfolding delete_prompt_queue_item
delete_missing qs k name e =
    rw (e, delete_prompt_queue_item)
      (inl (refl, refl, item_index-StandsForNone [] name (item_index_empty name)))

-- A deletion takes one item out of the chat's queue, which keeps the order of the others and its gate,
-- and touches no other queue: the first item whose id is the name, less the space around it and a
-- leading `#`, or, where no item has that id, the item whose number, counted from 1, is read from the
-- name. It fails, and changes nothing, only if no item has the id and no item that number.
pub delete_lem :
    (qs : Queues) (k name : String) → Deletes qs k name (delete_prompt_queue_item qs k name)
delete_lem qs k name = elim (Option-cases (get k qs.prompt_queues)) [
  | inl e ↦ delete_missing qs k name e
  | inr (state, e) ↦ delete_found qs k name state e
]

-- The index of the first of the two that trade places, when the item at `i` moves.
abbrev pub trade_at : ℕ → Delta → Option ℕ
trade_at zero up = none
trade_at (suc i) up = some i
trade_at i down = some i

-- In one chat's queue two neighbours have traded places.
pub record Traded (qs qs' : Queues) (k : String) (j : ℕ) : Type 0 where
  pub before : List QueuedPrompt
  pub first : QueuedPrompt
  pub second : QueuedPrompt
  pub behind : List QueuedPrompt
  pub whole : (state_of qs k).items ≡ before ++ first ∷ second ∷ behind
  pub place : length before ≡ j
  pub becomes :
      Becomes qs qs' k (record (state_of qs k) { items = before ++ second ∷ first ∷ behind })

-- The first item does not move up, the last one does not move down.
abbrev pub AtEdge : ℕ → Delta → ℕ → Type 0
AtEdge i up len = i ≡ 0
AtEdge i down len = suc i ≡ len

abbrev pub Moves : Queues → String → String → Delta → Queues × Bool → Type 0
Moves qs k name delta r =
    ((r.1 ≡ false)
      × (r.0 ≡ qs)
      × (StandsForNone (state_of qs k).items name
          ⊎ ((i : ℕ) × StandsFor (state_of qs k).items name i
              × AtEdge i delta (length (state_of qs k).items))))
    ⊎ ((r.1 ≡ true)
        × ((i : ℕ) × StandsFor (state_of qs k).items name i
            × ((j : ℕ) × (trade_at i delta ≡ some j) × Traded qs r.0 k j)))

module _ (qs : Queues) (k name : String) (state : PromptQueueState)
    (e : get k qs.prompt_queues ≡ some state) where
  edge :
      (i : ℕ) (delta : Delta)
      → prompt_queue_item_index state.items name ≡ some i
      → move_target i delta (length state.items) ≡ none
      → AtEdge i delta (length state.items)
      → Moves qs k name delta (move_prompt_queue_item qs k name delta)
  unfolding move_prompt_queue_item
  edge i delta f m a =
      rw (e, move_prompt_queue_item)
        (rw (f, move_prompt_queue_item)
          (rw (m, move_prompt_queue_item)
            (inl (refl, refl, inr (i, item_index-StandsFor state.items name i f, a)))))

  trade :
      (i j t : ℕ) (delta : Delta) (n : Neighbours j state.items)
      → prompt_queue_item_index state.items name ≡ some i
      → trade_at i delta ≡ some j
      → move_target i delta (length state.items) ≡ some t
      → swap i t state.items ≡ traded n
      → Moves qs k name delta (move_prompt_queue_item qs k name delta)
  unfolding move_prompt_queue_item
  trade i j t delta n f a m w =
      rw (e, move_prompt_queue_item)
        (rw (f, move_prompt_queue_item)
          (rw (m, move_prompt_queue_item)
            (inr (refl, (i, item_index-StandsFor state.items name i f, (j, a, traded_by))))))
    where
      traded_by : Traded qs (set_state qs k (record state { items = swap i t state.items })) k j
      traded_by = record {
        before = n.before;
        first = n.first;
        second = n.second;
        behind = n.behind;
        whole = rw e n.whole;
        place = n.place;
        becomes = rw (e, w) (set_state-Becomes qs k (record state { items = traded n }));
      }

  move_at :
      (i : ℕ) (delta : Delta)
      → prompt_queue_item_index state.items name ≡ some i
      → i < length state.items
      → Moves qs k name delta (move_prompt_queue_item qs k name delta)
  unfolding move_target
  move_at zero up f h = edge zero up f refl refl
  move_at (suc i) up f h =
      let n = neighbours i state.items h in
      trade (suc i) i i up n f refl (rw (lt→ltb i (length state.items) (omega arith)))
        (swap-up i state.items n)
  move_at i down f h = elim (Bool-cases (ltb (suc i) (length state.items))) [
    | inl room ↦
        let n = neighbours i state.items (ltb→lt (suc i) (length state.items) room) in
        trade i i (suc i) down n f (trade_at_down i) (target_down i room)
          (swap-down i state.items n)
    | inr last ↦
        edge i down f (target_last i last)
          (omega (arith, ltb-false (suc i) (length state.items) last))
  ]
    where
      trade_at_down : (i : ℕ) → trade_at i down ≡ some i
      trade_at_down zero = refl
      trade_at_down (suc i) = refl

      target_down :
          (i : ℕ)
          → ltb (suc i) (length state.items) ≡ true
          → move_target i down (length state.items) ≡ some (suc i)
      target_down zero r = rw r
      target_down (suc i) r = rw r

      target_last :
          (i : ℕ)
          → ltb (suc i) (length state.items) ≡ false
          → move_target i down (length state.items) ≡ none
      target_last zero r = rw r
      target_last (suc i) r = rw r

  move_none :
      (delta : Delta)
      → prompt_queue_item_index state.items name ≡ none
      → Moves qs k name delta (move_prompt_queue_item qs k name delta)
  unfolding move_prompt_queue_item
  move_none delta f =
      rw (e, move_prompt_queue_item)
        (rw (f, move_prompt_queue_item)
          (inl (refl, refl, inl (item_index-StandsForNone state.items name f))))

  move_found : (delta : Delta) → Moves qs k name delta (move_prompt_queue_item qs k name delta)
  move_found delta = elim (Option-cases (prompt_queue_item_index state.items name)) [
    | inl f ↦ move_none delta f
    | inr (i, f) ↦ move_at i delta f (item_index-lt state.items name i f)
  ]

move_missing :
    (qs : Queues) (k name : String) (delta : Delta)
    → get k qs.prompt_queues ≡ none
    → Moves qs k name delta (move_prompt_queue_item qs k name delta)
unfolding move_prompt_queue_item
move_missing qs k name delta e =
    rw (e, move_prompt_queue_item)
      (inl (refl, refl, inl (item_index-StandsForNone [] name (item_index_empty name))))

-- A move lets an item and its neighbour in that direction trade places, and changes nothing else in
-- any queue. The item is the first one with the name as its id, as for a deletion, or the one with the
-- number that is read from the name. It fails, and changes nothing, only if no item has the id and none
-- the number, or if the item is the first (up) or the last (down).
pub move_lem :
    (qs : Queues) (k name : String) (delta : Delta)
    → Moves qs k name delta (move_prompt_queue_item qs k name delta)
move_lem qs k name delta = elim (Option-cases (get k qs.prompt_queues)) [
  | inl e ↦ move_missing qs k name delta e
  | inr (state, e) ↦ move_found qs k name state e delta
]

clear_found :
    (qs : Queues) (k : String) (running : Bool) (items : List QueuedPrompt)
    → get k qs.prompt_queues ≡ some (record { running = running; items = items })
    → Becomes qs (clear_prompt_queue qs k).0 k (record (state_of qs k) { items = [] })
      × ((clear_prompt_queue qs k).1 ≡ length (state_of qs k).items)
unfolding clear_prompt_queue
clear_found qs k true items e = rw (e, clear_prompt_queue) (set_state-Becomes qs k _, refl)
clear_found qs k false items e = rw (e, clear_prompt_queue) (removed-Becomes qs k, refl)

-- A clear empties the chat's queue, tells how many prompts it dropped, and leaves the gate and the
-- other queues as they were.
pub clear_lem :
    (qs : Queues) (k : String)
    → Becomes qs (clear_prompt_queue qs k).0 k (record (state_of qs k) { items = [] })
      × ((clear_prompt_queue qs k).1 ≡ length (state_of qs k).items)
unfolding clear_prompt_queue
clear_lem qs k = elim (Option-cases (get k qs.prompt_queues)) [
  | inl e ↦ rw (e, clear_prompt_queue) (unchanged-Becomes qs k _ (rw e), refl)
  | inr (state, e) ↦ clear_found qs k state.running state.items e
]
