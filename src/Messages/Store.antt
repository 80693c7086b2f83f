-- ===== src/Messages/Store.antt =====
-- The rows behind one chat that sending and reading touch: its line in `chats`, its messages with the
-- newest first, its members, and the sync log of the users (`user_event_counters`, `user_events`).
-- One element of `events` is one row, the latest first. Ids and the time are arguments of the
-- statements.
use sobhemessenger.Common.{
  ℕ, ◌+◌, Bool, false, not, ◌&&◌, Option, none, some, Uuid, List, [], ◌∷◌, ◌==◌, if◌then◌else◌, map,
  on_option,
}
use sobhemessenger.Common.Assoc.{Assoc, lookup}
use sobhemessenger.Common.Text.{Runes}
use sobhemessenger.Messaging.Permissions.{ChatType}
use sobhemessenger.Messages.Message.{Message, is_from, returned}

-- A row of `chat_members`.
pub record Member : Type 0 where
  pub last_read_seq : ℕ
  pub last_delivered_seq : ℕ
  pub unread_count : ℕ
  pub mention_count : ℕ
  pub history_cleared_seq : ℕ
  pub has_left : Bool
  pub draft : Runes

-- The type and the payload of an event.
pub data Body : Type 0 where
  message_new message_edited : Message → Body
  message_deleted : Uuid → ℕ → Body
  history_cleared : ℕ → Bool → Body
  other_event : Body

pub record Event : Type 0 where
  pub user_id : Uuid
  pub seq : ℕ
  pub body : Body

pub record Store : Type 0 where
  pub chat_type : ChatType
  pub is_deleted : Bool
  pub member_count : ℕ
  pub last_seq : ℕ
  pub last_message_id : Option Uuid
  pub last_message_at : Option ℕ
  pub messages : List Message
  pub members : Assoc Member
  pub counters : Assoc ℕ
  pub events : List Event

pub data RepoError : Type 0 where
  not_found not_member : RepoError

-- UPDATE of `chat_members`: the function holds the WHERE clause.
unfoldable pub map_members : (Uuid → Member → Member) → Assoc Member → Assoc Member
map_members f [] = []
map_members f ((u, m) ∷ rest) = (u, f u m) ∷ map_members f rest

-- UPDATE of one row of `messages`.
abbrev pub map_message : Uuid → (Message → Message) → List Message → List Message
map_message id f = map λ m. if m.id == id then f m else m

unfoldable pub message_by_id : Uuid → List Message → Option Message
message_by_id id [] = none
message_by_id id (m ∷ rest) =
    let later = message_by_id id rest in if m.id == id then some m else later

-- WHERE sender_id = $2 AND client_message_id = $3
unfoldable pub row_by_client_id : Uuid → Uuid → List Message → Option Message
row_by_client_id sender client [] = none
row_by_client_id sender client (m ∷ rest) =
    let later = row_by_client_id sender client rest in
    if is_from sender m.sender_id && m.client_message_id == client then some m else later

abbrev pub message_by_client_id : Uuid → Uuid → List Message → Option Message
message_by_client_id sender client rows =
    on_option (row_by_client_id sender client rows) none (λ m. some (returned m))

abbrev pub is_active_row : Option Member → Bool
is_active_row none = false
is_active_row (some m) = not m.has_left

abbrev pub is_active : Assoc Member → Uuid → Bool
is_active members u = is_active_row (lookup u members)

-- The statements `bumped` and INSERT of `appendUserEvents`, over the counters that it locks: a
-- recipient with no counter gets no event.
unfoldable pub bump_counters : (Uuid → Bool) → Assoc ℕ → Assoc ℕ
bump_counters chosen [] = []
bump_counters chosen ((u, n) ∷ rest) =
    (u, if chosen u then n + 1 else n) ∷ bump_counters chosen rest

unfoldable pub add_events : (Uuid → Bool) → Body → Assoc ℕ → List Event → List Event
add_events chosen body [] log = log
add_events chosen body ((u, n) ∷ rest) log =
    let others = add_events chosen body rest log in
    if chosen u then record { user_id = u; seq = n + 1; body = body } ∷ others else others

-- The sequence that each recipient is given.
unfoldable pub event_seqs : (Uuid → Bool) → Assoc ℕ → Assoc ℕ
event_seqs chosen [] = []
event_seqs chosen ((u, n) ∷ rest) =
    let others = event_seqs chosen rest in if chosen u then (u, n + 1) ∷ others else others

unfoldable pub append_user_events : Body → Store → Store
unfolding bump_counters add_events
append_user_events body store = record store {
  counters = bump_counters (is_active store.members) store.counters;
  events = add_events (is_active store.members) body store.counters store.events;
}

-- The pair of statements that `PublishUserEvent` and a one-sided clear share.
abbrev pub next_count : Option ℕ → ℕ
next_count none = 1
next_count (some n) = n + 1
