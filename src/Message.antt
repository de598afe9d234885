-- ===== src/Message.antt =====
-- core/message.go: the message that a platform hands to the engine. A reply context, `any` in the
-- source, is an opaque token here; times are numbers; the bytes of an attachment are a list.
use echo_client.Prelude.{ℕ, String, Bool, Option, List}

pub record ImageAttachment : Type 0 where
  pub mime_type : String
  pub payload : List ℕ
  pub file_name : String

pub record FileAttachment : Type 0 where
  pub mime_type : String
  pub payload : List ℕ
  pub file_name : String

pub record AudioAttachment : Type 0 where
  pub mime_type : String
  pub payload : List ℕ
  pub format : String
  pub duration : ℕ

pub record Message : Type 0 where
  pub session_key : String
  pub platform : String
  pub message_id : String
  pub user_id : String
  pub user_name : String
  pub content : String
  pub forwarded : Bool
  pub forward_source : String
  pub forward_chat : String
  pub forward_date : ℕ
  pub quoted_message_id : String
  pub quoted_user_id : String
  pub quoted_user_name : String
  pub quoted_content : String
  pub images : List ImageAttachment
  pub files : List FileAttachment
  pub audio : Option AudioAttachment
  pub reply_ctx : Option String
  pub from_voice : Bool
