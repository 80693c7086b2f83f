-- ===== src/Messages/Message.antt =====
-- backend/internal/messaging/models.go and the table `messages`: one message with the rows that hang on
-- it (attachments, mentions, reactions, earlier texts, reads), and what Send is given.
use Prim.Native.String.{String}
use sobhemessenger.Common.{ℕ, Bool, true, false, Option, none, some, Uuid, List, [], ◌==◌}
use sobhemessenger.Common.Text.{Runes}

-- json.RawMessage; the code passes it on unread.
abbrev pub Json : Type 0
Json = String

pub data MessageType : Type 0 where
  text image video audio voice file location contact sticker gif poll system call : MessageType
  other_type : String → MessageType

pub record Attachment : Type 0 where
  pub media_id : Uuid
  pub position : ℕ
  pub caption : Runes

-- A row of `message_edits`.
pub record Edit : Type 0 where
  pub previous_content : Runes
  pub edited_by : Uuid

pub record Message : Type 0 where
  pub id : Uuid
  pub seq : ℕ
  pub sender_id : Option Uuid
  pub client_message_id : Uuid
  pub type : MessageType
  pub content : Runes
  pub entities : Json
  pub payload : Json
  pub reply_to_id : Option Uuid
  pub reply_markup : Option Json
  pub is_pinned : Bool
  pub created_at : ℕ
  pub edited_at : Option ℕ
  pub deleted_at : Option ℕ
  pub deleted_by : Option Uuid
  pub attachments : List Attachment
  pub mentions : List Uuid
  pub reactions : List (Uuid × Runes)
  pub edits : List Edit
  pub reads : List Uuid

pub record SendParams : Type 0 where
  pub sender_id : Uuid
  pub client_message_id : Uuid
  pub type : MessageType
  pub content : Runes
  pub entities : Option Json
  pub payload : Option Json
  pub reply_to_id : Option Uuid
  pub attachments : List Attachment
  pub mention_user_ids : List Uuid
  pub reply_markup : Option Json
  pub as_chat : Bool

abbrev pub is_deleted : Message → Bool
is_deleted m = elim m.deleted_at [ none ↦ false | some _ ↦ true ]

-- `sender_id = $1`, which NULL never satisfies.
abbrev pub is_from : Uuid → Option Uuid → Bool
is_from u none = false
is_from u (some sender) = sender == u

-- A row as `messageByClientID` and the RETURNING of `Edit` read it: without the keyboard and without what
-- hangs on the row.
abbrev pub returned : Message → Message
returned m = record m {
  reply_markup = none;
  deleted_by = none;
  attachments = [];
  mentions = [];
  reactions = [];
  edits = [];
  reads = [];
}
