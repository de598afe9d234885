-- ===== src/PromptQueue/Turns.antt =====
-- core/prompt_queue.go: how a turn ends, and how the next item is taken, put back or given up.
use echo_client.Prelude.{
  String, Bool, true, false, not, ◌&&◌, ◌||◌, Option, none, some, List, [], ◌∷◌, ◌++◌, map, ◌==◌,
  ltb, if◌then◌else◌, length,
}
use echo_client.Prelude.Dict.{get, delete}
use echo_client.PromptQueue.{
  QueuedPrompt, PromptQueueState, Queues, prompt_queue_key, state_of, set_state,
}

-- `!state.Running && len(state.Items) == 0`
unfoldable pub is_idle : PromptQueueState → Bool
is_idle state = not state.running && not (ltb 0 (length state.items))

abbrev pub remove_state : Queues → String → Queues
remove_state qs queue_key = record qs { prompt_queues = delete queue_key qs.prompt_queues }

-- Writes the state back, or deletes the entry that has nothing left to say.
unfoldable pub settle : Queues → String → PromptQueueState → Queues
unfolding is_idle
settle qs queue_key state =
    if is_idle state then remove_state qs queue_key else set_state qs queue_key state

-- The body of the loop over oldState.Items.
unfoldable pub rekey : String → String → QueuedPrompt → QueuedPrompt
rekey final_key final_agent_session_id item = record item {
  queue_key = final_key;
  agent_session_id_snapshot =
      (if not (final_agent_session_id == "") && item.agent_session_id_snapshot == ""
        then final_agent_session_id
        else item.agent_session_id_snapshot);
}

-- The migration of completePromptTurn for keys that differ; the second part is shouldClearRunning.
unfoldable pub migrate : Queues → String → String → String → Queues × Bool
unfolding rekey
migrate qs start_key final_key final_agent_session_id = elim (get start_key qs.prompt_queues) [
  | none ↦ (qs, true)
  | some old ↦
      let final = state_of qs final_key in
      let moved = map (rekey final_key final_agent_session_id) old.items in
      let merged : PromptQueueState = record {
        running = old.running || final.running;
        items = final.items ++ moved;
      } in
      (remove_state (set_state qs final_key merged) start_key, not final.running)
]

-- The rest of completePromptTurn: clear the gate, drop an idle entry.
unfoldable pub clear_running : Queues → String → Bool → Queues
unfolding settle
clear_running qs final_key should_clear = elim (get final_key qs.prompt_queues) [
  | none ↦ qs
  | some state ↦
      settle qs final_key (record state { running = if should_clear then false else state.running })
]

-- `startKey != "" && finalKey != "" && startKey != finalKey`
unfoldable pub keys_differ : String → String → Bool
keys_differ start_key final_key =
    not (start_key == "") && not (final_key == "") && not (start_key == final_key)

unfoldable pub complete_prompt_turn : Queues → String → String → String → Queues × String
unfolding keys_differ
complete_prompt_turn qs start_key session_key agent_session_id =
    let (final_key, final_agent_session_id) = prompt_queue_key session_key agent_session_id in
    let (migrated, should_clear) = migrate qs start_key final_key final_agent_session_id in
    if keys_differ start_key final_key
    then (clear_running migrated final_key should_clear, final_key)
    else (clear_running qs final_key true, final_key)

-- Splits off the first item.
pop_items : List QueuedPrompt → Option (QueuedPrompt × PromptQueueState)
pop_items [] = none
pop_items (item ∷ rest) = some (item, record { running = true; items = rest })

-- The guards of popNextQueuedPrompt on a state that is there.
unfoldable pub pop_state : PromptQueueState → Option (QueuedPrompt × PromptQueueState)
unfolding pop_items
pop_state state = if state.running then none else pop_items state.items

unfoldable pub pop_next_queued_prompt : Queues → String → Queues × Option QueuedPrompt
unfolding pop_state
pop_next_queued_prompt qs queue_key = elim (get queue_key qs.prompt_queues) [
  | none ↦ (qs, none)
  | some state ↦ elim (pop_state state) [
    | none ↦ (qs, none)
    | some (item, state') ↦ (set_state qs queue_key state', some item)
  ]
]

-- The retry that requeuePromptFront schedules is an effect of its caller in the model.
unfoldable pub requeue_prompt_front : Queues → QueuedPrompt → Queues
requeue_prompt_front qs item =
    let state = state_of qs item.queue_key in
    set_state qs item.queue_key (record { running = false; items = item ∷ state.items })

-- The locked part of failQueuedPrompt.
unfoldable pub release_failed : Queues → QueuedPrompt → Queues
unfolding settle
release_failed qs item = elim (get item.queue_key qs.prompt_queues) [
  | none ↦ qs
  | some state ↦ settle qs item.queue_key (record state { running = false })
]

unfoldable pub group_queue_running : Queues → String → Bool
group_queue_running qs queue_key = elim (get queue_key qs.prompt_queues) [
  | none ↦ false
  | some state ↦ state.running
]

pub record PromptQueueSnapshot : Type 0 where
  pub queue_key : String
  pub running : Bool
  pub items : List QueuedPrompt

unfoldable pub queue_snapshot : Queues → String → PromptQueueSnapshot
queue_snapshot qs queue_key = elim (get queue_key qs.prompt_queues) [
  | none ↦ record { queue_key = queue_key; running = false; items = [] }
  | some state ↦ record { queue_key = queue_key; running = state.running; items = state.items }
]
