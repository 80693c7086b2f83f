-- ===== src/Messages/Statements.antt =====
-- backend/internal/messaging/repository.go: the statements of the repository on the messages of a chat,
-- each one transaction. int64 sequence numbers below zero act as 0 here, since each is only compared
-- with numbers that are not negative.
use sobhemessenger.Common.{
  on_option, ℕ, ◌+◌, Bool, true, false, not, ◌&&◌, ◌||◌, Option, none, some, Uuid, [], ◌∷◌, ◌==◌,
  if◌then◌else◌, ltb, leb, contains, bit,
}
use sobhemessenger.Common.Assoc.{Assoc}
use sobhemessenger.Common.Text.{Runes}
use sobhemessenger.Httpx.{Result, ok, err, on_row}
use sobhemessenger.Messages.Message.{Json, Message, SendParams, is_deleted, returned}
use sobhemessenger.Messages.Store.{
  Member, message_new, message_edited, message_deleted, Store, RepoError, not_found, map_members,
  map_message, message_by_id, message_by_client_id, is_active, event_seqs, append_user_events,
}

-- `FanoutThreshold`
abbrev pub fanout_threshold : ℕ
fanout_threshold = 1000

-- COALESCE
abbrev pub or_else : Option Json → Json → Json
or_else none old = old
or_else (some new) old = new

-- GREATEST
abbrev pub greatest : ℕ → ℕ → ℕ
greatest a b = if leb a b then b else a

pub record SendResult : Type 0 where
  pub message : Message
  -- the recipients are the keys
  pub event_seqs : Assoc ℕ
  pub duplicate : Bool
  pub fanned_out : Bool

-- The row that the INSERT returns.
unfoldable pub new_message : ℕ → Uuid → SendParams → ℕ → Message
new_message now id p seq = record {
  id = id;
  seq = seq;
  sender_id = if p.as_chat then none else some p.sender_id;
  client_message_id = p.client_message_id;
  type = p.type;
  content = p.content;
  entities = or_else p.entities "[]";
  payload = or_else p.payload "{}";
  reply_to_id = p.reply_to_id;
  reply_markup = p.reply_markup;
  is_pinned = false;
  created_at = now;
  edited_at = none;
  deleted_at = none;
  deleted_by = none;
  attachments = p.attachments;
  mentions = p.mention_user_ids;
  reactions = [];
  edits = [];
  reads = [];
}

-- The cursor of the sender moves with the message.
abbrev pub sender_cursor : SendParams → ℕ → Uuid → Member → Member
sender_cursor p seq u m =
    if not p.as_chat && u == p.sender_id
    then record m { last_read_seq = seq; last_delivered_seq = seq }
    else m

abbrev pub bump_unread : SendParams → Uuid → Member → Member
bump_unread p u m =
    if (p.as_chat || not (u == p.sender_id)) && not m.has_left
    then record m {
      unread_count = m.unread_count + 1;
      mention_count = m.mention_count + bit (contains u p.mention_user_ids);
    }
    else m

-- The message is stored and `chats` and the cursor of the sender move on.
unfoldable pub insert_message : ℕ → Uuid → SendParams → Store → Store
unfolding new_message
insert_message now id p store =
    let seq = store.last_seq + 1 in
    record store {
      last_seq = seq;
      last_message_id = some id;
      last_message_at = some now;
      messages = new_message now id p seq ∷ store.messages;
      members = map_members (sender_cursor p seq) store.members;
    }

-- The part that is left out in a chat of more than `FanoutThreshold` members.
unfoldable pub fan_out : SendParams → Message → Store → Store
unfolding append_user_events
fan_out p message store =
    append_user_events (message_new message)
      (record store { members = map_members (bump_unread p) store.members })

unfoldable pub post : ℕ → Uuid → SendParams → Store → SendResult × Store
unfolding insert_message fan_out new_message
post now id p store =
    let message = new_message now id p (store.last_seq + 1) in
    let stored = insert_message now id p store in
    if ltb fanout_threshold store.member_count
    then (
      record { message = message; event_seqs = []; duplicate = false; fanned_out = false },
      stored,
    )
    else (
      record {
        message = message;
        event_seqs = event_seqs (is_active stored.members) stored.counters;
        duplicate = false;
        fanned_out = true;
      },
      fan_out p message stored,
    )

abbrev pub existing : SendParams → Store → Option Message
existing p store =
    if p.as_chat then none else message_by_client_id p.sender_id p.client_message_id store.messages

abbrev pub duplicate_of : Message → SendResult
duplicate_of m = record { message = m; event_seqs = []; duplicate = true; fanned_out = false }

-- The transaction, with its recovery from the idempotency index.
unfoldable pub commit : ℕ → Uuid → SendParams → Store → Result RepoError (SendResult × Store)
unfolding post
commit now id p store =
    if store.is_deleted
    then err not_found
    else on_option (existing p store) (ok (post now id p store)) λ m. ok (duplicate_of m, store)

-- `Send`. `early` says that the lookup of the fast path ran before a concurrent send of the same key
-- committed, and so found nothing.
unfoldable pub send : ℕ → Uuid → SendParams → Bool → Store → Result RepoError (SendResult × Store)
unfolding commit
send now id p early store =
    on_option (if early then none else existing p store) (commit now id p store)
      λ m. ok (duplicate_of m, store)

-- A message that is there and not deleted.
abbrev pub live_message : Uuid → Store → Option Message
live_message id store = elim (message_by_id id store.messages) [
  | none ↦ none
  | some m ↦ if is_deleted m then none else some m
]

abbrev pub edited : ℕ → Uuid → Runes → Option Json → Message → Message
edited now editor content entities m = record m {
  content = content;
  entities = or_else entities m.entities;
  edited_at = some now;
  edits = record { previous_content = m.content; edited_by = editor } ∷ m.edits;
}

unfoldable pub edit :
    ℕ → Uuid → Uuid → Runes → Option Json → Store → Result RepoError (Message × Store)
unfolding append_user_events
edit now id editor content entities store = on_row (live_message id store) not_found λ m. ok (
  returned (edited now editor content entities m),
  append_user_events (message_edited (returned (edited now editor content entities m)))
      (record store {
        messages = map_message id (edited now editor content entities) store.messages;
      }),
)

abbrev pub tombstone : ℕ → Uuid → Message → Message
tombstone now actor m = record m {
  deleted_at = some now;
  deleted_by = some actor;
  content = [];
  entities = "[]";
  attachments = [];
}

-- With the sequence of the message.
unfoldable pub delete : ℕ → Uuid → Uuid → Store → Result RepoError (ℕ × Store)
unfolding append_user_events
delete now id actor store = on_row (live_message id store) not_found λ m. ok (
  m.seq,
  append_user_events (message_deleted id m.seq)
      (record store { messages = map_message id (tombstone now actor) store.messages }),
)
