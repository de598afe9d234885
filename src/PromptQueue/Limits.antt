-- ===== src/PromptQueue/Limits.antt =====
-- What the limits of a queue count, independent of the code: the payloads of prompts, put in a list.
use echo_client.Prelude.{
  ℕ, ◌+◌, ◌≤◌, ◌<◌, ◌≡◌, refl, String, List, [], ◌∷◌, ◌++◌, Option, none, some, arith, length,
  length-append,
}
use echo_client.Prelude.Dict.{Dict, total}
use echo_client.Message.{Message, ImageAttachment, FileAttachment, AudioAttachment}
use echo_client.PromptQueue.{
  QueuedPrompt, PromptQueueState, Queues, sum_images, sum_files, audio_bytes,
  prompt_queue_attachment_bytes, prompt_queue_items_attachment_bytes,
  prompt_queues_attachment_bytes_locked, state_bytes, state_of,
}
use echo_client.PromptQueue.Enqueue.{Fits}

abbrev image_payloads : List ImageAttachment → List (List ℕ)
image_payloads [] = []
image_payloads (image ∷ rest) = image.payload ∷ image_payloads rest

abbrev file_payloads : List FileAttachment → List (List ℕ)
file_payloads [] = []
file_payloads (file ∷ rest) = file.payload ∷ file_payloads rest

abbrev audio_payloads : Option AudioAttachment → List (List ℕ)
audio_payloads none = []
audio_payloads (some audio) = audio.payload ∷ []

-- The payloads of all attachments of a message: images, files and the audio.
abbrev pub payloads : Message → List (List ℕ)
payloads msg = image_payloads msg.images ++ (file_payloads msg.files ++ audio_payloads msg.audio)

-- All bytes of some payloads, one after another.
abbrev pub bytes_of : List (List ℕ) → List ℕ
bytes_of [] = []
bytes_of (p ∷ ps) = p ++ bytes_of ps

-- The payloads of all prompts of a queue, and of all queues.
abbrev pub queue_payloads : List QueuedPrompt → List (List ℕ)
queue_payloads [] = []
queue_payloads (item ∷ items) = payloads item.message ++ queue_payloads items

abbrev pub engine_payloads : Dict PromptQueueState → List (List ℕ)
engine_payloads [] = []
engine_payloads ((k, state) ∷ rest) = queue_payloads state.items ++ engine_payloads rest

abbrev pub size : List (List ℕ) → ℕ
size ps = length (bytes_of ps)

size-append : (ps qs : List (List ℕ)) → size (ps ++ qs) ≡ size ps + size qs
size-append [] qs = omega arith
size-append (p ∷ ps) qs =
    omega (
      arith,
      length-append p (bytes_of (ps ++ qs)),
      length-append p (bytes_of ps),
      size-append ps qs,
    )

-- The code's sums are the sizes of these lists.
images_size : (l : List ImageAttachment) → sum_images l ≡ size (image_payloads l)
unfolding sum_images
images_size [] = refl
images_size (i ∷ l) =
    omega (arith, images_size l, length-append i.payload (bytes_of (image_payloads l)))

files_size : (l : List FileAttachment) → sum_files l ≡ size (file_payloads l)
unfolding sum_files
files_size [] = refl
files_size (f ∷ l) =
    omega (arith, files_size l, length-append f.payload (bytes_of (file_payloads l)))

audio_size : (o : Option AudioAttachment) → audio_bytes o ≡ size (audio_payloads o)
unfolding audio_bytes
audio_size none = refl
audio_size (some audio) = omega (arith, length-append audio.payload [])

pub message_size : (msg : Message) → prompt_queue_attachment_bytes msg ≡ size (payloads msg)
unfolding prompt_queue_attachment_bytes
message_size msg = omega (
  arith,
  size-append (image_payloads msg.images) (file_payloads msg.files ++ audio_payloads msg.audio),
  size-append (file_payloads msg.files) (audio_payloads msg.audio),
  images_size msg.images,
  files_size msg.files,
  audio_size msg.audio,
)

pub queue_size :
    (items : List QueuedPrompt)
    → prompt_queue_items_attachment_bytes items ≡ size (queue_payloads items)
unfolding prompt_queue_items_attachment_bytes
queue_size [] = refl
queue_size (item ∷ items) = omega (
  arith,
  size-append (payloads item.message) (queue_payloads items),
  message_size item.message,
  queue_size items,
)

queues_size : (m : Dict PromptQueueState) → total state_bytes m ≡ size (engine_payloads m)
unfolding total
queues_size [] = refl
queues_size ((k, state) ∷ m) = omega (
  arith,
  size-append (queue_payloads state.items) (engine_payloads m),
  queue_size state.items,
  queues_size m,
)

pub engine_size :
    (qs : Queues)
    → prompt_queues_attachment_bytes_locked qs ≡ size (engine_payloads qs.prompt_queues)
unfolding prompt_queues_attachment_bytes_locked
engine_size qs = queues_size qs.prompt_queues

-- The limits of a queue: 20 prompts, 50 MB of attachments in it, and 200 MB in the engine.
pub record WithinLimits (qs : Queues) (k : String) (msg : Message) : Type 0 where
  pub room : length (state_of qs k).items < 20
  pub queue_bytes : size (payloads msg) + size (queue_payloads (state_of qs k).items) ≤ 52428800
  pub engine_bytes : size (engine_payloads qs.prompt_queues) + size (payloads msg) ≤ 209715200

pub Fits-WithinLimits :
    (qs : Queues) (k : String) (msg : Message) → Fits qs k msg → WithinLimits qs k msg
Fits-WithinLimits qs k msg f = record {
  room = f.room;
  queue_bytes = omega (arith, f.queue_bytes, message_size msg, queue_size (state_of qs k).items);
  engine_bytes = omega (arith, f.engine_bytes, message_size msg, engine_size qs);
}

pub WithinLimits-Fits :
    (qs : Queues) (k : String) (msg : Message) → WithinLimits qs k msg → Fits qs k msg
WithinLimits-Fits qs k msg w = record {
  room = w.room;
  queue_bytes = omega (arith, w.queue_bytes, message_size msg, queue_size (state_of qs k).items);
  engine_bytes = omega (arith, w.engine_bytes, message_size msg, engine_size qs);
}
