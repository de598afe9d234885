-- ===== src/PromptQueue/Commands.antt =====
-- core/prompt_queue.go: the commands of /queue, and the cancellation on a session switch.
pub mod Cancel
pub mod Places
pub mod Names
pub mod Numbers
pub mod Edit
use Prim.Native.Char.{code}
use Prim.Native.String
use echo_client.Prelude.{
  ℕ, zero, suc, ◌+◌, ◌-◌, ◌*◌, ◌^◌, ◌<◌, String, Bool, true, false, not, ◌&&◌, ◌||◌, Option, none,
  some, List, [], ◌∷◌, ◌==◌, ltb, leb, eqb, if◌then◌else◌, length, get_elem?, set,
}
use echo_client.Prelude.Text.{trim_space, is_space}
use echo_client.Prelude.Dict.{Dict, get, put, delete}
use echo_client.PromptQueue.{QueuedPrompt, is_cron, PromptQueueState, Queues, state_of, set_state}
use echo_client.PromptQueue.Turns.{is_idle, settle, remove_state}

-- The test of the loop in cancelQueuedPromptsForSessionSwitch.
unfoldable pub is_cancelled : String → String → String → QueuedPrompt → Bool
unfolding is_cron
is_cancelled session_key new_local_session_id new_agent_session_id item =
    let local_session_changed =
      not (is_cron item)
      && (item.origin_local_session_id == ""
          || not (item.origin_local_session_id == new_local_session_id)) in
    let agent_session_changed =
      item.agent_session_id_snapshot == ""
      || not (item.agent_session_id_snapshot == new_agent_session_id) in
    item.origin_session_key == session_key && (local_session_changed || agent_session_changed)

-- The inner loop: what is kept, and how many are cancelled.
unfoldable pub keep_items : (QueuedPrompt → Bool) → List QueuedPrompt → List QueuedPrompt × ℕ
keep_items cancel [] = ([], 0)
keep_items cancel (item ∷ rest) =
    let (kept, n) = keep_items cancel rest in
    if cancel item then (kept, suc n) else (item ∷ kept, n)

-- The outer loop, over the map; an idle entry is deleted.
unfoldable pub cancel_in : (QueuedPrompt → Bool) → Dict PromptQueueState → Dict PromptQueueState × ℕ
unfolding keep_items is_idle
cancel_in cancel [] = ([], 0)
cancel_in cancel ((key, state) ∷ rest) =
    let (rest', n) = cancel_in cancel rest in
    let (kept, k) = keep_items cancel state.items in
    let state' : PromptQueueState = record state { items = kept } in
    if not (ltb 0 (length state.items))
    then ((key, state) ∷ rest', n)
    else if is_idle state'
    then (rest', k + n)
    else ((key, state') ∷ rest', k + n)

unfoldable pub cancel_queued_prompts_for_session_switch :
    Queues → String → String → String → Queues × ℕ
unfolding cancel_in is_cancelled
cancel_queued_prompts_for_session_switch qs session_key new_local_session_id new_agent_session_id =
    let (queues, cancelled) =
      cancel_in (is_cancelled session_key new_local_session_id new_agent_session_id)
        qs.prompt_queues in
    (record qs { prompt_queues = queues }, cancelled)

unfoldable pub clear_prompt_queue : Queues → String → Queues × ℕ
clear_prompt_queue qs queue_key = elim (get queue_key qs.prompt_queues) [
  | none ↦ (qs, 0)
  | some state ↦
      let cleared : PromptQueueState = record state { items = [] } in
      (
        if state.running then set_state qs queue_key cleared else remove_state qs queue_key,
        length state.items,
      )
]

-- strings.TrimPrefix(s, "#")
unfoldable pub trim_hash : String → String
trim_hash String.[] = String.[]
trim_hash (String.◌∷◌ c s) = if eqb (code c) b'#' then s else String.◌∷◌ c s

-- The index of the first item with the ID.
unfoldable pub index_of_id : String → List QueuedPrompt → Option ℕ
index_of_id id [] = none
index_of_id id (item ∷ items) =
    if item.id == id
    then some 0
    else elim (index_of_id id items) [ none ↦ none | some i ↦ some (suc i) ]

unfoldable pub is_digit : ℕ → Bool
is_digit c = leb b'0' c && leb c b'9'

-- The digits that a number goes on with.
unfoldable pub scan_digits : ℕ → String → ℕ
unfolding is_digit
scan_digits n String.[] = n
scan_digits n (String.◌∷◌ c s) = elim (is_digit (code c)) [
  | true ↦ scan_digits (n * 10 + (code c - b'0')) s
  | false ↦ n
]

-- The magnitude after the sign: at least one digit, and in the range of an int64.
unfoldable pub scan_magnitude : String → Option ℕ
unfolding scan_digits
scan_magnitude String.[] = none
scan_magnitude (String.◌∷◌ c s) =
    let n = scan_digits (code c - b'0') s in
    if is_digit (code c) then (if ltb n (2 ^ 63) then some n else none) else none

-- A minus sign makes the index at most 0, which the caller refuses like an error.
unfoldable pub scan_sign : String → Option ℕ
unfolding scan_magnitude
scan_sign String.[] = none
scan_sign (String.◌∷◌ c s) =
    if eqb (code c) b'-'
    then none
    else if eqb (code c) b'+'
    then scan_magnitude s
    else scan_magnitude (String.◌∷◌ c s)

-- fmt.Sscanf(s, "%d", &index), as far as an index above 0 may come of it: spaces but no newline,
-- a sign, digits, and a rest that is not read.
unfoldable pub scan_index : String → Option ℕ
unfolding scan_sign is_space
scan_index String.[] = none
scan_index (String.◌∷◌ c s) =
    let rest = scan_index s in
    if eqb (code c) 10 then none else if is_space (code c) then rest else scan_sign (String.◌∷◌ c s)

-- `err != nil || index <= 0` and `index > len(items)`
unfoldable pub checked_index : Option ℕ → ℕ → Option ℕ
checked_index none len = none
checked_index (some zero) len = none
checked_index (some (suc i)) len = if ltb i len then some i else none

-- `none` is the source's -1.
unfoldable pub prompt_queue_item_index : List QueuedPrompt → String → Option ℕ
unfolding trim_hash index_of_id scan_index checked_index
prompt_queue_item_index items id_or_index =
    let name = trim_hash (trim_space id_or_index) in
    elim (index_of_id name items) [
      | some i ↦ some i
      | none ↦ checked_index (scan_index name) (length items)
    ]

-- copy(items[idx:], items[idx+1:]) and the cut of the last slot
unfoldable pub remove_at : ℕ → List QueuedPrompt → List QueuedPrompt
remove_at i [] = []
remove_at zero (item ∷ items) = items
remove_at (suc i) (item ∷ items) = item ∷ remove_at i items

unfoldable pub delete_prompt_queue_item : Queues → String → String → Queues × Bool
unfolding settle remove_at prompt_queue_item_index
delete_prompt_queue_item qs queue_key id_or_index = elim (get queue_key qs.prompt_queues) [
  | none ↦ (qs, false)
  | some state ↦ elim (prompt_queue_item_index state.items id_or_index) [
    | none ↦ (qs, false)
    | some i ↦ (settle qs queue_key (record state { items = remove_at i state.items }), true)
  ]
]

-- The delta of movePromptQueueItem: its callers pass -1 and 1.
pub data Delta : Type 0 where
  up down : Delta

-- `idx + delta`, where that is in range.
unfoldable pub move_target : ℕ → Delta → ℕ → Option ℕ
move_target zero up len = none
move_target (suc i) up len = if ltb i len then some i else none
move_target i down len = if ltb (suc i) len then some (suc i) else none

-- items[i], items[j] = items[j], items[i]
unfoldable pub swap : ℕ → ℕ → List QueuedPrompt → List QueuedPrompt
swap i j items = elim (get_elem? items i) [
  | none ↦ items
  | some a ↦ elim (get_elem? items j) [ none ↦ items | some b ↦ set (set items i b) j a ]
]

unfoldable pub move_prompt_queue_item : Queues → String → String → Delta → Queues × Bool
unfolding swap move_target prompt_queue_item_index
move_prompt_queue_item qs queue_key id_or_index delta = elim (get queue_key qs.prompt_queues) [
  | none ↦ (qs, false)
  | some state ↦ elim (prompt_queue_item_index state.items id_or_index) [
    | none ↦ (qs, false)
    | some i ↦ elim (move_target i delta (length state.items)) [
      | none ↦ (qs, false)
      | some j ↦ (set_state qs queue_key (record state { items = swap i j state.items }), true)
    ]
  ]
]
