-- ===== src/Collect/Batch.antt =====
-- core/collect.go: the operations on the batch of a chat, from its start to the end of its flush.
use echo_client.Prelude.{
  ℕ, ◌+◌, ◌%◌, String, Bool, true, false, not, ◌&&◌, ◌||◌, Option, none, some, [], ◌∷◌, ◌++◌, ◌==◌,
  ltb, leb, eqb, if◌then◌else◌, length,
}
use echo_client.Prelude.Text.{trim_space}
use echo_client.Prelude.Dict.{get}
use echo_client.Message.{Message}
use echo_client.Collect.{
  max_collected_items, collect_ack_every, collect_ttl, CollectedMessageSnapshot, CollectedItem,
  PendingCollectedBatch, PendingAttachments, Collections, at, set_batch, drop_batch, is_nil,
  clear_pending_attachments, collected_image_refs, collected_file_refs,
}

-- Whether the batch is dropped, with a reply that says so.
unfoldable pub expire_pending_collection_if_needed : Collections → String → ℕ → Collections × Bool
expire_pending_collection_if_needed c key now = elim (at c key) [
  | none ↦ (c, false)
  | some b ↦
      if b.flushing || (not (eqb b.expires_at 0) && ltb now b.expires_at)
      then (c, false)
      else (drop_batch c key, true)
]

abbrev pub new_batch : ℕ → PendingCollectedBatch
new_batch now = record {
  created_at = now;
  updated_at = now;
  expires_at = now + collect_ttl;
  items = [];
  images = [];
  files = [];
  awaiting_instruction = false;
  pending_instruction = "";
  flushing = false;
  retry_as_plain_text = false;
}

unfoldable pub start_pending_collection :
    Collections → String → ℕ → Collections × PendingCollectedBatch
start_pending_collection c key now = elim (at c key) [
  | some b ↦ (c, b)
  | none ↦ (set_batch c key (new_batch now), new_batch now)
]

unfoldable pub clear_pending_collection : Collections → String → Collections × Bool
clear_pending_collection c key = elim (at c key) [
  | none ↦ (c, false)
  | some b ↦ (drop_batch c key, true)
]

unfoldable pub set_pending_collection_awaiting_instruction :
    Collections → String → Bool → ℕ → Collections × Bool
set_pending_collection_awaiting_instruction c key awaiting now = elim (at c key) [
  | none ↦ (c, false)
  | some b ↦ (
    set_batch c key (record b {
      awaiting_instruction = awaiting;
      pending_instruction = (if awaiting then "" else b.pending_instruction);
      retry_as_plain_text = (if awaiting then false else b.retry_as_plain_text);
      updated_at = now;
    }),
    true,
  )
]

unfoldable pub is_pending_collection_flushing : Collections → String → Bool
is_pending_collection_flushing c key = elim (at c key) [ none ↦ false | some b ↦ b.flushing ]

unfoldable pub collected_item_count : Collections → String → ℕ
collected_item_count c key = elim (at c key) [ none ↦ 0 | some b ↦ length b.items ]

abbrev pub no_message : CollectedMessageSnapshot
no_message = record {
  message_id = "";
  user_id = "";
  user_name = "";
  content = "";
  quoted_message_id = "";
  quoted_user_id = "";
  quoted_user_name = "";
  quoted_content = "";
  from_voice = false;
}

unfoldable pub attachments_item : PendingAttachments → ℕ → CollectedItem
unfolding collected_image_refs collected_file_refs
attachments_item p now = record {
  message = no_message;
  platform = "";
  collected_at = now;
  forwarded = false;
  forward_source = "";
  forward_chat = "";
  forward_date = 0;
  image_count = length p.images;
  file_count = length p.files;
  image_refs = collected_image_refs p.images;
  file_refs = collected_file_refs p.files;
}

unfoldable pub absorb_into : PendingCollectedBatch → PendingAttachments → ℕ → PendingCollectedBatch
unfolding attachments_item
absorb_into b p now = record b {
  items =
      (if ltb (length b.items) max_collected_items
        then b.items ++ attachments_item p now ∷ []
        else b.items);
  images = b.images ++ p.images;
  files = b.files ++ p.files;
  pending_instruction = "";
  updated_at = now;
  retry_as_plain_text = false;
}

unfoldable pub absorb_pending_attachments_into_collection : Collections → String → ℕ → Collections
unfolding absorb_into clear_pending_attachments
absorb_pending_attachments_into_collection c key now = elim (get key c.pending_attach) [
  | none ↦ c
  | some p ↦ if is_nil p.images && is_nil p.files then c else (elim (at c key) [
    | none ↦ clear_pending_attachments c key
    | some b ↦ set_batch (clear_pending_attachments c key) key (absorb_into b p now)
  ])
]

unfoldable pub collected_item : Message → ℕ → CollectedItem
unfolding collected_image_refs collected_file_refs
collected_item msg now = record {
  message = record {
    message_id = msg.message_id;
    user_id = msg.user_id;
    user_name = msg.user_name;
    content = trim_space msg.content;
    quoted_message_id = msg.quoted_message_id;
    quoted_user_id = msg.quoted_user_id;
    quoted_user_name = msg.quoted_user_name;
    quoted_content = msg.quoted_content;
    from_voice = msg.from_voice;
  };
  platform = msg.platform;
  collected_at = now;
  forwarded = msg.forwarded;
  forward_source = trim_space msg.forward_source;
  forward_chat = trim_space msg.forward_chat;
  forward_date = msg.forward_date;
  image_count = length msg.images;
  file_count = length msg.files;
  image_refs = collected_image_refs msg.images;
  file_refs = collected_file_refs msg.files;
}

unfoldable pub buffered : PendingCollectedBatch → Message → ℕ → PendingCollectedBatch
unfolding collected_item
buffered b msg now = record b {
  items = b.items ++ collected_item msg now ∷ [];
  images = b.images ++ msg.images;
  files = b.files ++ msg.files;
  updated_at = now;
  awaiting_instruction = false;
  pending_instruction = "";
  retry_as_plain_text = false;
}

-- The number of items, and whether the batch was full.
unfoldable pub buffer_pending_collection : Collections → Message → ℕ → Collections × (ℕ × Bool)
unfolding buffered
buffer_pending_collection c msg now = elim (at c msg.session_key) [
  | none ↦ (c, (0, false))
  | some b ↦ if leb max_collected_items (length b.items) then (c, (length b.items, true)) else (
    set_batch c msg.session_key (buffered b msg now),
    (length (buffered b msg now).items, false),
  )
]

unfoldable pub begin_flush : PendingCollectedBatch → String → ℕ → PendingCollectedBatch
begin_flush b instruction now = record b {
  flushing = true;
  retry_as_plain_text = b.awaiting_instruction;
  awaiting_instruction = false;
  pending_instruction = instruction;
  updated_at = now;
}

unfoldable pub begin_pending_collection_flush :
    Collections → String → String → ℕ → Collections × Option PendingCollectedBatch
unfolding begin_flush
begin_pending_collection_flush c key instruction now = elim (at c key) [
  | none ↦ (c, none)
  | some b ↦
      if b.flushing
      then (c, none)
      else (set_batch c key (begin_flush b instruction now), some (begin_flush b instruction now))
]

unfoldable pub fail_flush : PendingCollectedBatch → ℕ → PendingCollectedBatch
fail_flush b now = record b {
  flushing = false;
  awaiting_instruction = b.retry_as_plain_text && not (trim_space b.pending_instruction == "");
  retry_as_plain_text = false;
  updated_at = now;
}

unfoldable pub fail_pending_collection_flush : Collections → String → ℕ → Collections
unfolding fail_flush
fail_pending_collection_flush c key now = elim (at c key) [
  | none ↦ c
  | some b ↦ set_batch c key (fail_flush b now)
]

-- Whether maybeAcknowledgeCollectedItem replies.
unfoldable pub acknowledges : ℕ → Bool
acknowledges count =
    not (leb count 0) && not (not (eqb count 1) && not (eqb (count % collect_ack_every) 0))
