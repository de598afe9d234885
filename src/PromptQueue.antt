-- ===== src/PromptQueue.antt =====
-- core/prompt_queue.go: the per-chat FIFO of prompts and its running gate.
-- This file has the data and the operations that begin, end and take turns. A method that locks
-- `promptQueueMu` is one function on `Queues`, the fields of the Engine that the mutex guards. Stored
-- messages are values here, so the deep copy of cloneQueuedMessage is the message itself.
pub mod Lookup
pub mod Limits
pub mod Enqueue
pub mod Lifecycle
pub mod Begin
pub mod System
pub mod Turns
pub mod Commands
mod Witnesses
use echo_client.Prelude.{
  ℕ, suc, ◌+◌, ◌*◌, ◌%◌, ◌^◌, String, Bool, true, false, not, ◌&&◌, ◌||◌, Option, none, some, List,
  [], ◌∷◌, ◌++◌, map, ◌==◌, ltb, leb, if◌then◌else◌, length,
}
use echo_client.Prelude.Text.{trim_space, decimal}
use echo_client.Prelude.Dict.{Dict, get, put, delete, total}
use echo_client.Message.{Message, ImageAttachment, FileAttachment, AudioAttachment}
use Prim.Native.String

abbrev pub max_prompt_queue_items : ℕ
max_prompt_queue_items = 20

abbrev pub max_prompt_queue_attachment_bytes : ℕ
max_prompt_queue_attachment_bytes = 50 * 1024 * 1024

abbrev pub max_prompt_queue_engine_bytes : ℕ
max_prompt_queue_engine_bytes = 200 * 1024 * 1024

pub record QueuedPrompt : Type 0 where
  pub id : String
  pub queue_key : String
  pub origin_session_key : String
  pub origin_local_session_id : String
  pub origin_platform : String
  pub agent_session_id_snapshot : String
  pub source : String
  pub job_id : String
  pub message : Message
  pub created_at : ℕ

unfoldable pub is_cron : QueuedPrompt → Bool
is_cron q = q.source == "cron"

pub record PromptQueueState : Type 0 where
  pub running : Bool
  pub items : List QueuedPrompt

-- `&promptQueueState{}`
abbrev pub new_state : PromptQueueState
new_state = record { running = false; items = [] }

-- The fields promptQueues and promptQueueSeq of the Engine.
pub record Queues : Type 0 where
  pub prompt_queues : Dict PromptQueueState
  pub prompt_queue_seq : ℕ

pub data QueueError : Type 0 where
  queue_full attachments_too_large : QueueError

pub data Result {ℓ} (A : Type ℓ) : Type ℓ where
  ok : A → Result A
  err : QueueError → Result A

unfoldable pub prompt_queue_key : String → String → String × String
prompt_queue_key session_key agent_session_id =
    (String.◌++◌ "grp:" session_key, trim_space (trim_space agent_session_id))

unfoldable pub sum_images : List ImageAttachment → ℕ
sum_images [] = 0
sum_images (img ∷ rest) = length img.payload + sum_images rest

unfoldable pub sum_files : List FileAttachment → ℕ
sum_files [] = 0
sum_files (file ∷ rest) = length file.payload + sum_files rest

unfoldable pub audio_bytes : Option AudioAttachment → ℕ
audio_bytes none = 0
audio_bytes (some audio) = length audio.payload

unfoldable pub prompt_queue_attachment_bytes : Message → ℕ
unfolding sum_images sum_files audio_bytes
prompt_queue_attachment_bytes msg =
    sum_images msg.images + sum_files msg.files + audio_bytes msg.audio

unfoldable pub prompt_queue_items_attachment_bytes : List QueuedPrompt → ℕ
prompt_queue_items_attachment_bytes [] = 0
prompt_queue_items_attachment_bytes (item ∷ items) =
    prompt_queue_attachment_bytes item.message + prompt_queue_items_attachment_bytes items

abbrev pub state_bytes : PromptQueueState → ℕ
state_bytes state = prompt_queue_items_attachment_bytes state.items

unfoldable pub prompt_queues_attachment_bytes_locked : Queues → ℕ
prompt_queues_attachment_bytes_locked qs = total state_bytes qs.prompt_queues

-- `e.promptQueues[queueKey]`, or the new state where there is none.
abbrev pub or_new : Option PromptQueueState → PromptQueueState
or_new none = new_state
or_new (some state) = state

abbrev pub state_of : Queues → String → PromptQueueState
state_of qs queue_key = or_new (get queue_key qs.prompt_queues)

abbrev pub set_state : Queues → String → PromptQueueState → Queues
set_state qs queue_key state = record qs { prompt_queues = put queue_key state qs.prompt_queues }

-- `if state == nil { state = &promptQueueState{}; e.promptQueues[queueKey] = state }`
abbrev pub ensure_state : Queues → String → Queues
ensure_state qs queue_key = set_state qs queue_key (state_of qs queue_key)

-- promptQueueSeq is a uint64.
abbrev pub next_seq : Queues → ℕ
next_seq qs = (qs.prompt_queue_seq + 1) % 2 ^ 64

-- fmt.Sprintf("q%d", seq)
unfoldable pub prompt_id : ℕ → String
prompt_id seq = String.◌∷◌ "q" (decimal seq)

unfoldable pub new_item :
    Queues → String → String → String → String → String → Message → ℕ → QueuedPrompt
unfolding prompt_id
new_item qs queue_key local_session_id agent_session_id source job_id msg now = record {
  id = prompt_id (next_seq qs);
  queue_key = queue_key;
  origin_session_key = msg.session_key;
  origin_local_session_id = trim_space local_session_id;
  origin_platform = msg.platform;
  agent_session_id_snapshot = trim_space agent_session_id;
  source = if source == "" then "user" else source;
  job_id = job_id;
  message = msg;
  created_at = now;
}

-- The map holds a state at the key: the callers see to it.
unfoldable pub enqueue_prompt_locked :
    Queues → String → String → String → String → String → Message → ℕ → Queues × Result ℕ
enqueue_prompt_locked qs queue_key local_session_id agent_session_id source job_id msg now =
    let state = state_of qs queue_key in
    let bytes = prompt_queue_attachment_bytes msg in
    if leb max_prompt_queue_items (length state.items)
    then (qs, err queue_full)
    else if ltb max_prompt_queue_attachment_bytes
        (bytes + prompt_queue_items_attachment_bytes state.items)
    then (qs, err attachments_too_large)
    else if ltb max_prompt_queue_engine_bytes (prompt_queues_attachment_bytes_locked qs + bytes)
    then (qs, err attachments_too_large)
    else (let item =
          new_item qs queue_key local_session_id agent_session_id source job_id msg now in
        let state' = record state { items = state.items ++ item ∷ [] } in
        (
          record (set_state qs queue_key state') { prompt_queue_seq = next_seq qs },
          ok (length state'.items),
        ))

-- `state.Running || len(state.Items) > 0`
unfoldable pub is_busy : PromptQueueState → Bool
is_busy state = state.running || ltb 0 (length state.items)

abbrev pub set_running : Queues → String → Bool → Queues
set_running qs queue_key running =
    set_state qs queue_key (record (state_of qs queue_key) { running = running })

-- What both begin functions do: claim the idle queue (`true`), or enqueue.
unfoldable pub begin_or_enqueue :
    Queues → String → String → String → String → String → Message → ℕ → Queues × Bool × Result ℕ
unfolding is_busy
begin_or_enqueue qs queue_key local_session_id agent_session_id source job_id msg now =
    let qs' = ensure_state qs queue_key in
    let (queued, r) =
      enqueue_prompt_locked qs' queue_key local_session_id agent_session_id source job_id msg now in
    if is_busy (state_of qs queue_key)
    then (queued, false, r)
    else (set_running qs' queue_key true, true, ok 0)

abbrev pub begin_prompt_turn_or_enqueue :
    Queues → String → String → String → Message → ℕ → Queues × Bool × Result ℕ
begin_prompt_turn_or_enqueue qs queue_key local_session_id agent_session_id msg now =
    begin_or_enqueue qs queue_key local_session_id agent_session_id "user" "" msg now

unfoldable pub enqueue_prompt : Queues → String → String → String → Message → ℕ → Queues × Result ℕ
enqueue_prompt qs queue_key local_session_id agent_session_id msg now =
    enqueue_prompt_locked (ensure_state qs queue_key) queue_key local_session_id agent_session_id
      "user" "" msg now

-- What the engine does when a cron turn has claimed the gate but finds its session busy: it gives the
-- gate back and puts the prompt in line. The result of the enqueue is dropped by the source.
unfoldable pub return_cron_turn :
    Queues → String → String → Message → ℕ → Queues × Option (Result ℕ)
return_cron_turn qs queue_key job_id msg now = elim (get queue_key qs.prompt_queues) [
  | none ↦ (qs, none)
  | some state ↦
      let (qs', r) =
        enqueue_prompt_locked (set_running qs queue_key false) queue_key "" "" "cron" job_id msg
          now in
      (qs', some r)
]

unfoldable pub mark_prompt_queue_running : Queues → String → Queues
mark_prompt_queue_running qs queue_key = set_running qs queue_key true
