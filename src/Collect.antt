-- ===== src/Collect.antt =====
-- core/collect.go, and the pending attachments of core/engine.go: the batch of messages that a chat
-- buffers until it asks for them. Copies are the identity. Times are nanoseconds, 0 is the zero time.
mod Batch
mod Flush
mod Ongoing
mod Bound
mod Witnesses
use echo_client.Prelude.{
  ℕ, ◌+◌, ◌*◌, ◌%◌, ◌^◌, String, Bool, true, false, not, ◌&&◌, ◌||◌, Option, none, some, List, [],
  ◌∷◌, ◌++◌, ◌==◌, ltb, leb, eqb, if◌then◌else◌, length, map,
}
use echo_client.Prelude.Text.{trim_space}
use echo_client.Prelude.Dict.{Dict, get, put, delete}
use echo_client.Message.{ImageAttachment, FileAttachment, Message}

abbrev pub max_collected_items : ℕ
max_collected_items = 50

abbrev pub collect_ack_every : ℕ
collect_ack_every = 5

abbrev pub collect_ttl : ℕ
collect_ttl = 24 * 60 * 60 * 10 ^ 9

pub record CollectedAttachmentRef : Type 0 where
  pub file_name : String
  pub mime_type : String

pub record CollectedMessageSnapshot : Type 0 where
  pub message_id : String
  pub user_id : String
  pub user_name : String
  pub content : String
  pub quoted_message_id : String
  pub quoted_user_id : String
  pub quoted_user_name : String
  pub quoted_content : String
  pub from_voice : Bool

pub record CollectedItem : Type 0 where
  pub message : CollectedMessageSnapshot
  pub platform : String
  pub collected_at : ℕ
  pub forwarded : Bool
  pub forward_source : String
  pub forward_chat : String
  pub forward_date : ℕ
  pub image_count : ℕ
  pub file_count : ℕ
  pub image_refs : List CollectedAttachmentRef
  pub file_refs : List CollectedAttachmentRef

pub record PendingCollectedBatch : Type 0 where
  pub created_at : ℕ
  pub updated_at : ℕ
  pub expires_at : ℕ
  pub items : List CollectedItem
  pub images : List ImageAttachment
  pub files : List FileAttachment
  pub awaiting_instruction : Bool
  pub pending_instruction : String
  pub flushing : Bool
  pub retry_as_plain_text : Bool

pub record PendingAttachments : Type 0 where
  pub images : List ImageAttachment
  pub files : List FileAttachment

-- The two maps of the engine.
pub record Collections : Type 0 where
  pub pending_collect : Dict PendingCollectedBatch
  pub pending_attach : Dict PendingAttachments

abbrev pub at : Collections → String → Option PendingCollectedBatch
at c key = get key c.pending_collect

abbrev pub set_batch : Collections → String → PendingCollectedBatch → Collections
set_batch c key batch = record c { pending_collect = put key batch c.pending_collect }

abbrev pub drop_batch : Collections → String → Collections
drop_batch c key = record c { pending_collect = delete key c.pending_collect }

abbrev pub is_nil {ℓ} : {A : Type ℓ} → List A → Bool
is_nil [] = true
is_nil (x ∷ xs) = false

unfoldable pub store_pending_attachments :
    Collections → String → List ImageAttachment → List FileAttachment → Collections
store_pending_attachments c key images files =
    if is_nil images && is_nil files then c else (elim (get key c.pending_attach) [
      | none ↦ record c {
        pending_attach = put key (record { images = images; files = files }) c.pending_attach;
      }
      | some p ↦ record c {
        pending_attach =
            put key (record { images = p.images ++ images; files = p.files ++ files })
              c.pending_attach;
      }
    ])

unfoldable pub clear_pending_attachments : Collections → String → Collections
clear_pending_attachments c key = record c { pending_attach = delete key c.pending_attach }

unfoldable pub collected_image_refs : List ImageAttachment → List CollectedAttachmentRef
collected_image_refs [] = []
collected_image_refs (i ∷ images) =
    record { file_name = trim_space i.file_name; mime_type = trim_space i.mime_type }
    ∷ collected_image_refs images

unfoldable pub collected_file_refs : List FileAttachment → List CollectedAttachmentRef
collected_file_refs [] = []
collected_file_refs (f ∷ files) =
    record { file_name = trim_space f.file_name; mime_type = trim_space f.mime_type }
    ∷ collected_file_refs files
