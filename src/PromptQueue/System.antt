-- ===== src/PromptQueue/System.antt =====
-- The queues as concurrent callers drive them. Each locked method is one atomic step; a turn that
-- holds a gate is recorded from its claim (begin or pop) to its end (complete, requeue, fail, or the
-- return of a cron turn), and any order of such steps, the /queue commands and the cancellation on a
-- session switch included, is a run. A turn completes under the key it began with. Turns that processInteractiveMessageWithQueueLifecycle forces
-- through markPromptQueueRunning are outside this model: they take a gate without asking.
pub mod Turns
pub mod Invariant
pub mod Ways
pub mod Keys
pub mod Edits
pub mod Gate
pub mod Books
pub mod Balance
pub mod Fifo
pub mod Order
use echo_client.Prelude.{
  ℕ, suc, ◌+◌, String, Bool, true, false, ◌≡◌, Option, none, some, List, [], ◌∷◌, ◌==◌,
  if◌then◌else◌,
}
use echo_client.Message.{Message}
use echo_client.PromptQueue.{
  QueuedPrompt, Queues, Result, ok, err, prompt_queue_key, begin_or_enqueue, new_item,
  enqueue_prompt, return_cron_turn,
}
use echo_client.PromptQueue.Commands.{
  Delta, delete_prompt_queue_item, move_prompt_queue_item, clear_prompt_queue,
  cancel_queued_prompts_for_session_switch,
}
use echo_client.PromptQueue.Turns.{
  complete_prompt_turn, pop_next_queued_prompt, requeue_prompt_front, release_failed,
}

-- A turn that holds the gate of a key; `item` is a popped prompt whose turn has not begun yet.
pub record Turn : Type 0 where
  pub key : String
  pub item : Option QueuedPrompt

pub record System : Type 0 where
  pub queues : Queues
  pub turns : List Turn

pub record Arrival : Type 0 where
  pub key : String
  pub local_session_id : String
  pub agent_session_id : String
  pub source : String
  pub job_id : String
  pub message : Message
  pub now : ℕ

pub data Event : Type 0 where
  arrives enqueues : Arrival → Event
  returns : String → String → Message → ℕ → Event
  drains starts requeues fails : String → Event
  completes deletes : String → String → Event
  moves : String → String → Delta → Event
  clears : String → Event
  cancels : String → String → String → Event

-- The turn of a key, if there is one.
unfoldable pub turn_of : String → List Turn → Option Turn
turn_of k [] = none
turn_of k (t ∷ ts) = if t.key == k then some t else turn_of k ts

unfoldable pub end_turn : String → List Turn → List Turn
end_turn k [] = []
end_turn k (t ∷ ts) = if t.key == k then ts else t ∷ end_turn k ts

abbrev pub item_for : Arrival → Queues → QueuedPrompt
item_for a qs =
    new_item qs a.key a.local_session_id a.agent_session_id a.source a.job_id a.message a.now

abbrev pub began : Arrival → Queues → Queues × Bool × Result ℕ
began a qs =
    begin_or_enqueue qs a.key a.local_session_id a.agent_session_id a.source a.job_id a.message
      a.now

-- enqueuePrompt is for prompts of users.
abbrev pub user_item_for : Arrival → Queues → QueuedPrompt
user_item_for a qs =
    new_item qs a.key a.local_session_id a.agent_session_id "user" "" a.message a.now

abbrev pub turn_for : String → Option QueuedPrompt → Turn
turn_for k i = record { key = k; item = i }

-- A popped prompt that the chat's turn has not begun with, if that is where the turn stands.
abbrev pub popped : Option Turn → Option QueuedPrompt
popped none = none
popped (some t) = t.item

abbrev pub has_begun : Option Turn → Bool
has_begun none = false
has_begun (some t) = elim t.item [ none ↦ true | some _ ↦ false ]

unfoldable pub step : System → Event → System
unfolding turn_of end_turn
step s (arrives a) =
    let (qs, claimed, r) = began a s.queues in
    record { queues = qs; turns = if claimed then turn_for a.key none ∷ s.turns else s.turns }
step s (enqueues a) = record s {
  queues = (enqueue_prompt s.queues a.key a.local_session_id a.agent_session_id a.message a.now).0;
}
step s (returns k job_id msg now) =
    if has_begun (turn_of k s.turns)
    then record {
      queues = (return_cron_turn s.queues k job_id msg now).0;
      turns = end_turn k s.turns;
    }
    else s
step s (drains k) =
    let (qs, next) = pop_next_queued_prompt s.queues k in
    record {
      queues = qs;
      turns = elim next [ none ↦ s.turns | some item ↦ turn_for k (some item) ∷ s.turns ];
    }
step s (starts k) = elim (popped (turn_of k s.turns)) [
  | none ↦ s
  | some item ↦ record s { turns = turn_for k none ∷ end_turn k s.turns }
]
step s (requeues k) = elim (popped (turn_of k s.turns)) [
  | none ↦ s
  | some item ↦ record { queues = requeue_prompt_front s.queues item; turns = end_turn k s.turns }
]
step s (fails k) = elim (popped (turn_of k s.turns)) [
  | none ↦ s
  | some item ↦ record { queues = release_failed s.queues item; turns = end_turn k s.turns }
]
step s (completes session_key agent_session_id) =
    let k = (prompt_queue_key session_key agent_session_id).0 in
    if has_begun (turn_of k s.turns)
    then record {
      queues = (complete_prompt_turn s.queues k session_key agent_session_id).0;
      turns = end_turn k s.turns;
    }
    else s
step s (deletes k name) = record s { queues = (delete_prompt_queue_item s.queues k name).0 }
step s (moves k name delta) = record s { queues = (move_prompt_queue_item s.queues k name delta).0 }
step s (clears k) = record s { queues = (clear_prompt_queue s.queues k).0 }
step s (cancels session_key local_session_id agent_session_id) = record s {
  queues =
      (cancel_queued_prompts_for_session_switch s.queues session_key local_session_id
        agent_session_id).0;
}

unfoldable pub run : System → List Event → System
run s [] = s
run s (e ∷ es) = run (step s e) es

abbrev pub empty : System
empty = record { queues = record { prompt_queues = []; prompt_queue_seq = 0 }; turns = [] }
