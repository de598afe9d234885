-- ===== src/PromptQueue/Witnesses.antt =====
-- core/prompt_queue.go: the theorems on the queues, applied to a chat with two prompts.
use echo_client.Prelude.{
  ◌+◌, ◌≤◌, String, true, false, ◌≡◌, ◌≢◌, ==_true, arith, refl, ◌⊎◌, ◌↔◌, none, some, List, [],
  ◌∷◌, ◌++◌, length, if◌then◌else◌, leb,
}
use echo_client.Prelude.Dict.{total, get}
use echo_client.Message.{Message}
use echo_client.PromptQueue.{
  QueuedPrompt, PromptQueueState, Queues, ok, err, queue_full, attachments_too_large, state_of,
  prompt_queue_key, max_prompt_queue_items, enqueue_prompt_locked,
}
use echo_client.PromptQueue.Turns.{complete_prompt_turn, pop_next_queued_prompt}
use echo_client.PromptQueue.Lifecycle.{Becomes, Pops, complete_prompt_turn-Becomes, pop-Pops}
use echo_client.PromptQueue.Limits.{WithinLimits}
use echo_client.PromptQueue.Begin.{Queued, queued_prompt, enqueue_lem}
use echo_client.PromptQueue.System.{
  Arrival, Event, arrives, drains, starts, requeues, completes, enqueues, returns, deletes, moves,
  clears, cancels, empty, run,
}
use echo_client.PromptQueue.System.Turns.{holders}
use echo_client.PromptQueue.System.Gate.{one_turn_per_chat, queue_bounded}
use echo_client.PromptQueue.System.Fifo.{fifo, all_accepted, all_taken}
use echo_client.PromptQueue.System.Books.{pending}
use echo_client.PromptQueue.System.Order.{all_taken-Sublist}
use mathlib.Core.List.{Sublistᴰ}
use echo_client.Prelude.Text.{decimal}
use echo_client.PromptQueue.Commands.Names.{NoneHasId}
use echo_client.PromptQueue.Commands.Numbers.{prompt_queue_item_index-decimal}
use echo_client.PromptQueue.Commands.{
  prompt_queue_item_index, is_cancelled, cancel_queued_prompts_for_session_switch,
  delete_prompt_queue_item, move_prompt_queue_item, clear_prompt_queue, up,
}
use echo_client.PromptQueue.Commands.Cancel.{cleaned, IsFresh, cancel_lem}
use echo_client.PromptQueue.Commands.Edit.{Deletes, Moves, delete_lem, move_lem, clear_lem}

abbrev hello : Message
hello = record {
  session_key = "telegram:42:7";
  platform = "telegram";
  message_id = "m1";
  user_id = "7";
  user_name = "ann";
  content = "hello";
  forwarded = false;
  forward_source = "";
  forward_chat = "";
  forward_date = 0;
  quoted_message_id = "";
  quoted_user_id = "";
  quoted_user_name = "";
  quoted_content = "";
  images = [];
  files = [];
  audio = none;
  reply_ctx = none;
  from_voice = false;
}

abbrev prompt : String → String → QueuedPrompt
prompt id local = record {
  id = id;
  queue_key = "grp:a";
  origin_session_key = "a";
  origin_local_session_id = local;
  origin_platform = "telegram";
  agent_session_id_snapshot = "";
  source = "user";
  job_id = "";
  message = hello;
  created_at = 1;
}

abbrev waiting : PromptQueueState
waiting = record { running = true; items = prompt "q1" "s1" ∷ prompt "q2" "s2" ∷ [] }

abbrev paused : PromptQueueState
paused = record { running = false; items = prompt "q1" "s1" ∷ prompt "q2" "s2" ∷ [] }

abbrev two : Queues
two = record { prompt_queues = ("grp:a", waiting) ∷ []; prompt_queue_seq = 2 }

abbrev idle_two : Queues
idle_two = record { prompt_queues = ("grp:a", paused) ∷ []; prompt_queue_seq = 2 }

abbrev from_ann : Arrival
from_ann = record {
  key = "grp:a";
  local_session_id = "s1";
  agent_session_id = "";
  source = "user";
  job_id = "";
  message = hello;
  now = 1;
}

abbrev talk : List Event
talk =
    arrives from_ann
    ∷ arrives from_ann
    ∷ enqueues from_ann
    ∷ completes "a" ""
    ∷ drains "grp:a"
    ∷ requeues "grp:a"
    ∷ drains "grp:a"
    ∷ starts "grp:a"
    ∷ []

abbrev edited_talk : List Event
edited_talk =
    arrives from_ann
    ∷ enqueues from_ann
    ∷ enqueues from_ann
    ∷ moves "grp:a" "q2" up
    ∷ deletes "grp:a" "#1"
    ∷ returns "grp:a" "job_1" hello 7
    ∷ drains "grp:a"
    ∷ cancels "a" "s2" ""
    ∷ clears "grp:a"
    ∷ []

one_turn_per_chat_example :
    holders "grp:a" (run empty edited_talk).turns
    ≡ (if (state_of (run empty edited_talk).queues "grp:a").running then 1 else 0)
one_turn_per_chat_example = one_turn_per_chat edited_talk "grp:a"

queue_bounded_example :
    length (state_of (run empty edited_talk).queues "grp:a").items ≤ max_prompt_queue_items + 1
queue_bounded_example = queue_bounded edited_talk "grp:a"

fifo_example :
    all_accepted empty talk "grp:a"
    ≡ all_taken empty talk "grp:a" ++ pending (run empty talk) "grp:a"
fifo_example = fifo talk "grp:a" (tt, (tt, (tt, (tt, (tt, (tt, (tt, (tt, tt))))))))

abbrev shortened_talk : List Event
shortened_talk =
    arrives from_ann
    ∷ enqueues from_ann
    ∷ enqueues from_ann
    ∷ deletes "grp:a" "#1"
    ∷ completes "a" ""
    ∷ drains "grp:a"
    ∷ starts "grp:a"
    ∷ cancels "a" "s2" ""
    ∷ []

all_taken-Sublist_example :
    Sublistᴰ
      (all_taken empty shortened_talk "grp:a" ++ pending (run empty shortened_talk) "grp:a")
      (all_accepted empty shortened_talk "grp:a")
all_taken-Sublist_example =
    all_taken-Sublist shortened_talk "grp:a" (tt, (tt, (tt, (tt, (tt, (tt, (tt, (tt, tt))))))))

enqueue_example :
    (WithinLimits two "grp:a" hello
      × ((enqueue_prompt_locked two "grp:a" "s1" "" "" "" hello 5).1
          ≡ ok (length waiting.items + 1))
      × Queued two "grp:a"
          (queued_prompt two "grp:a" "s1" "" "" "" hello 5)
          (enqueue_prompt_locked two "grp:a" "s1" "" "" "" hello 5).0
          (length waiting.items + 1))
    ⊎ ((¬ WithinLimits two "grp:a" hello)
        × (enqueue_prompt_locked two "grp:a" "s1" "" "" "" hello 5 ≡ (
          two,
          err (if leb 20 (length waiting.items) then queue_full else attachments_too_large),
        )))
unfolding get
enqueue_example = enqueue_lem two "grp:a" "s1" "" "" "" hello 5

complete_prompt_turn-Becomes_example :
    Becomes two
      (complete_prompt_turn two (prompt_queue_key "a" "").0 "a" "").0
      (prompt_queue_key "a" "").0
      (record (state_of two (prompt_queue_key "a" "").0) { running = false })
    × ((complete_prompt_turn two (prompt_queue_key "a" "").0 "a" "").1
        ≡ (prompt_queue_key "a" "").0)
complete_prompt_turn-Becomes_example = complete_prompt_turn-Becomes two "a" ""

pop-Pops_example :
    Pops idle_two "grp:a"
      (pop_next_queued_prompt idle_two "grp:a").0
      (pop_next_queued_prompt idle_two "grp:a").1
pop-Pops_example = pop-Pops idle_two "grp:a"

cancel_example :
    ((k : String)
      → state_of (cancel_queued_prompts_for_session_switch two "a" "s1" "").0 k
        ≡ cleaned (is_cancelled "a" "s1" "") (state_of two k))
    × ((item : QueuedPrompt) → (is_cancelled "a" "s1" "" item ≡ false) ↔ IsFresh "a" "s1" "" item)
    × (total
            (λ s. length s.items)
            (cancel_queued_prompts_for_session_switch two "a" "s1" "").0.prompt_queues
          + (cancel_queued_prompts_for_session_switch two "a" "s1" "").1
        ≡ total (λ s. length s.items) two.prompt_queues)
unfolding get
cancel_example = cancel_lem two "a" "s1" "" (refl, tt)

delete_example : Deletes two "grp:a" "#1" (delete_prompt_queue_item two "grp:a" "#1")
delete_example = delete_lem two "grp:a" "#1"

move_example : Moves two "grp:a" "2" up (move_prompt_queue_item two "grp:a" "2" up)
move_example = move_lem two "grp:a" "2" up

clear_example :
    Becomes two
      (clear_prompt_queue two "grp:a").0
      "grp:a"
      (record (state_of two "grp:a") { items = [] })
    × ((clear_prompt_queue two "grp:a").1 ≡ length (state_of two "grp:a").items)
clear_example = clear_lem two "grp:a"

different : false ≢ true
different e = cc

two_differ : NoneHasId (decimal 2) waiting.items
unfolding decimal
two_differ = (
  (λ e. let same : "q1" ≡ "2" = e in absurd (different (==_true "q1" "2" same))),
  ((λ e. let same : "q2" ≡ "2" = e in absurd (different (==_true "q2" "2" same))), tt),
)

prompt_queue_item_index-decimal_example :
    (prompt_queue_item_index waiting.items (decimal 2) ≡ some 1)
    × (prompt_queue_item_index waiting.items (String.◌∷◌ "#" (decimal 2)) ≡ some 1)
prompt_queue_item_index-decimal_example =
    prompt_queue_item_index-decimal waiting.items 1 (omega arith) (omega arith) two_differ
