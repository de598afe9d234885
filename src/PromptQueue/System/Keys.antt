-- ===== src/PromptQueue/System/Keys.antt =====
-- No key stands twice in the map of the queues, after any step.
use echo_client.Prelude.{
  ℕ, String, Bool, true, false, inl, inr, [], ◌∷◌, arith, if◌then◌else◌, length, Bool-cases,
  Option-cases,
}
use echo_client.Prelude.Dict.{Dict, get, Distinct, put-Distinct, delete-Distinct}
use echo_client.Message.{Message}
use echo_client.PromptQueue.{
  QueuedPrompt, PromptQueueState, Queues, prompt_queue_key, state_of, set_state, ensure_state,
  set_running, enqueue_prompt_locked, enqueue_prompt, return_cron_turn, begin_or_enqueue, is_busy,
}
use echo_client.PromptQueue.Turns.{
  settle, remove_state, clear_running, complete_prompt_turn, pop_state, pop_next_queued_prompt,
  requeue_prompt_front, release_failed, is_idle,
}
use echo_client.PromptQueue.Enqueue.{Fits-cases, enqueue-Fits, enqueue-refused}
use echo_client.PromptQueue.Lifecycle.{keys_differ_self}
use echo_client.PromptQueue.Commands.{
  Delta, prompt_queue_item_index, remove_at, delete_prompt_queue_item, move_target,
  move_prompt_queue_item, clear_prompt_queue, cancel_in, cancel_queued_prompts_for_session_switch,
}
use echo_client.PromptQueue.Commands.Cancel.{cancel_in-none}
use echo_client.PromptQueue.System.{
  System, Event, arrives, enqueues, returns, drains, starts, requeues, fails, completes, deletes,
  moves, clears, cancels, turn_of, popped, has_begun, step,
}

abbrev pub OneEach : Queues → Type 0
OneEach qs = Distinct qs.prompt_queues

set-OneEach :
    (qs : Queues) (k : String) (s : PromptQueueState) → OneEach qs → OneEach (set_state qs k s)
set-OneEach qs k s d = put-Distinct k s qs.prompt_queues d

remove-OneEach : (qs : Queues) (k : String) → OneEach qs → OneEach (remove_state qs k)
remove-OneEach qs k d = delete-Distinct k qs.prompt_queues d

settle-OneEach :
    (qs : Queues) (k : String) (s : PromptQueueState) → OneEach qs → OneEach (settle qs k s)
unfolding settle
settle-OneEach qs k s d = elim (Bool-cases (is_idle s)) [
  | inl e ↦ rw e (remove-OneEach qs k d)
  | inr e ↦ rw e (set-OneEach qs k s d)
]

enqueue-OneEach :
    (qs : Queues) (k local agent source job : String) (msg : Message) (now : ℕ)
    → OneEach qs
    → OneEach (enqueue_prompt_locked qs k local agent source job msg now).0
enqueue-OneEach qs k local agent source job msg now d =
    elim (Fits-cases qs k local agent source job msg now) [
      | inl fits ↦
          rw (enqueue-Fits qs k local agent source job msg now fits)
            (put-Distinct k _ qs.prompt_queues d)
      | inr other ↦ rw (enqueue-refused qs k local agent source job msg now other) d
    ]

begin-OneEach :
    (qs : Queues) (k local agent source job : String) (msg : Message) (now : ℕ)
    → OneEach qs
    → OneEach (begin_or_enqueue qs k local agent source job msg now).0
unfolding begin_or_enqueue
begin-OneEach qs k local agent source job msg now d = elim (Bool-cases (is_busy (state_of qs k))) [
  | inl e ↦
      rw e (
        enqueue-OneEach (ensure_state qs k) k local agent source job msg now (set-OneEach qs k _ d))
  | inr e ↦ rw e (set-OneEach (ensure_state qs k) k _ (set-OneEach qs k _ d))
]

return-OneEach :
    (qs : Queues) (k job : String) (msg : Message) (now : ℕ)
    → OneEach qs
    → OneEach (return_cron_turn qs k job msg now).0
unfolding return_cron_turn
return-OneEach qs k job msg now d = elim (Option-cases (get k qs.prompt_queues)) [
  | inl e ↦ rw (e, return_cron_turn) d
  | inr (s, e) ↦
      rw (e, return_cron_turn)
        (enqueue-OneEach (set_running qs k false) k "" "" "cron" job msg now (set-OneEach qs k _ d))
]

pop-OneEach : (qs : Queues) (k : String) → OneEach qs → OneEach (pop_next_queued_prompt qs k).0
unfolding pop_next_queued_prompt
pop-OneEach qs k d = elim (Option-cases (get k qs.prompt_queues)) [
  | inl e ↦ rw (e, pop_next_queued_prompt) d
  | inr (s, e) ↦ elim (Option-cases (pop_state s)) [
    | inl f ↦ rw (e, pop_next_queued_prompt) (rw (f, pop_next_queued_prompt) d)
    | inr (p, f) ↦
        rw (e, pop_next_queued_prompt) (rw (f, pop_next_queued_prompt) (set-OneEach qs k _ d))
  ]
]

clear_running-OneEach :
    (qs : Queues) (k : String) (b : Bool) → OneEach qs → OneEach (clear_running qs k b)
unfolding clear_running
clear_running-OneEach qs k b d = elim (Option-cases (get k qs.prompt_queues)) [
  | inl e ↦ rw (e, clear_running) d
  | inr (s, e) ↦
      rw (e, clear_running)
        (settle-OneEach qs k (record s { running = if b then false else s.running }) d)
]

complete-OneEach :
    (qs : Queues) (session_key agent : String)
    → OneEach qs
    → OneEach (complete_prompt_turn qs (prompt_queue_key session_key agent).0 session_key agent).0
unfolding complete_prompt_turn
complete-OneEach qs session_key agent d =
    let k = (prompt_queue_key session_key agent).0 in
    rw (keys_differ_self k) (clear_running-OneEach qs k true d)

release-OneEach :
    (qs : Queues) (item : QueuedPrompt) → OneEach qs → OneEach (release_failed qs item)
unfolding release_failed
release-OneEach qs item d = elim (Option-cases (get item.queue_key qs.prompt_queues)) [
  | inl e ↦ rw (e, release_failed) d
  | inr (s, e) ↦
      rw (e, release_failed) (settle-OneEach qs item.queue_key (record s { running = false }) d)
]

delete-OneEach :
    (qs : Queues) (k name : String) → OneEach qs → OneEach (delete_prompt_queue_item qs k name).0
unfolding delete_prompt_queue_item
delete-OneEach qs k name d = elim (Option-cases (get k qs.prompt_queues)) [
  | inl e ↦ rw (e, delete_prompt_queue_item) d
  | inr (s, e) ↦ elim (Option-cases (prompt_queue_item_index s.items name)) [
    | inl f ↦ rw (e, delete_prompt_queue_item) (rw (f, delete_prompt_queue_item) d)
    | inr (i, f) ↦
        rw (e, delete_prompt_queue_item)
          (rw (f, delete_prompt_queue_item)
            (settle-OneEach qs k (record s { items = remove_at i s.items }) d))
  ]
]

move-OneEach :
    (qs : Queues) (k name : String) (delta : Delta)
    → OneEach qs
    → OneEach (move_prompt_queue_item qs k name delta).0
unfolding move_prompt_queue_item
move-OneEach qs k name delta d = elim (Option-cases (get k qs.prompt_queues)) [
  | inl e ↦ rw (e, move_prompt_queue_item) d
  | inr (s, e) ↦ elim (Option-cases (prompt_queue_item_index s.items name)) [
    | inl f ↦ rw (e, move_prompt_queue_item) (rw (f, move_prompt_queue_item) d)
    | inr (i, f) ↦ elim (Option-cases (move_target i delta (length s.items))) [
      | inl g ↦
          rw (e, move_prompt_queue_item)
            (rw (f, move_prompt_queue_item) (rw (g, move_prompt_queue_item) d))
      | inr (j, g) ↦
          rw (e, move_prompt_queue_item)
            (rw (f, move_prompt_queue_item)
              (rw (g, move_prompt_queue_item) (put-Distinct k _ qs.prompt_queues d)))
    ]
  ]
]

clear-OneEach : (qs : Queues) (k : String) → OneEach qs → OneEach (clear_prompt_queue qs k).0
unfolding clear_prompt_queue
clear-OneEach qs k d = elim (Option-cases (get k qs.prompt_queues)) [
  | inl e ↦ rw (e, clear_prompt_queue) d
  | inr (s, e) ↦ elim (Bool-cases s.running) [
    | inl f ↦ rw (e, f, clear_prompt_queue) (set-OneEach qs k _ d)
    | inr f ↦ rw (e, f, clear_prompt_queue) (remove-OneEach qs k d)
  ]
]

cancel_in-Distinct :
    (cancel : QueuedPrompt → Bool) (m : Dict PromptQueueState)
    → Distinct m
    → Distinct (cancel_in cancel m).0
unfolding cancel_in
cancel_in-Distinct cancel [] d = tt
cancel_in-Distinct cancel ((j, s) ∷ m) d =
    ground (arith, cancel_in-Distinct cancel m d.1, cancel_in-none cancel j m d.0)

cancel-OneEach :
    (qs : Queues) (session_key local agent : String)
    → OneEach qs
    → OneEach (cancel_queued_prompts_for_session_switch qs session_key local agent).0
unfolding cancel_queued_prompts_for_session_switch
cancel-OneEach qs session_key local agent d = cancel_in-Distinct _ qs.prompt_queues d

pub step-OneEach : (s : System) (e : Event) → OneEach s.queues → OneEach (step s e).queues
unfolding step enqueue_prompt requeue_prompt_front
step-OneEach s (arrives a) d = begin-OneEach s.queues a.key _ _ _ _ _ _ d
step-OneEach s (enqueues a) d =
    enqueue-OneEach (ensure_state s.queues a.key) a.key _ _ _ _ _ _ (set-OneEach s.queues a.key _ d)
step-OneEach s (returns k job msg now) d = elim (Bool-cases (has_begun (turn_of k s.turns))) [
  | inl e ↦ rw e (return-OneEach s.queues k job msg now d)
  | inr e ↦ rw e d
]
step-OneEach s (drains k) d = pop-OneEach s.queues k d
step-OneEach s (starts k) d = elim (Option-cases (popped (turn_of k s.turns))) [
  | inl e ↦ rw (e, step) d
  | inr (item, e) ↦ rw (e, step) d
]
step-OneEach s (requeues k) d = elim (Option-cases (popped (turn_of k s.turns))) [
  | inl e ↦ rw (e, step) d
  | inr (item, e) ↦ rw (e, step) (set-OneEach s.queues item.queue_key _ d)
]
step-OneEach s (fails k) d = elim (Option-cases (popped (turn_of k s.turns))) [
  | inl e ↦ rw (e, step) d
  | inr (item, e) ↦ rw (e, step) (release-OneEach s.queues item d)
]
step-OneEach s (completes session_key agent) d =
    elim (Bool-cases (has_begun (turn_of (prompt_queue_key session_key agent).0 s.turns))) [
      | inl e ↦ rw e (complete-OneEach s.queues session_key agent d)
      | inr e ↦ rw e d
    ]
step-OneEach s (deletes k name) d = delete-OneEach s.queues k name d
step-OneEach s (moves k name delta) d = move-OneEach s.queues k name delta d
step-OneEach s (clears k) d = clear-OneEach s.queues k d
step-OneEach s (cancels session_key local agent) d =
    cancel-OneEach s.queues session_key local agent d
