-- ===== src/Messages/Reading.antt =====
-- backend/internal/messaging/repository.go: the statements that move cursors (ClearHistory, MarkRead,
-- RecordReads), small changes to a message or a member, and the queries History and EventsSince.
use sobhemessenger.Common.{
  ℕ, Bool, true, false, not, ◌&&◌, Option, none, some, Uuid, List, [], ◌∷◌, ◌==◌, if◌then◌else◌,
  ltb, leb, contains, count_if, map, add, any,
}
use sobhemessenger.Common.Assoc.{lookup, insert}
use sobhemessenger.Common.Lists.Rows.{filter_if, take, order_by}
use sobhemessenger.Common.Text.{Runes, is_equal}
use sobhemessenger.Httpx.{Result, ok, err, on_row}
use sobhemessenger.Messaging.Permissions.{is_secret}
use sobhemessenger.Messages.Message.{Message, is_deleted, is_from}
use sobhemessenger.Messages.Store.{
  Member, Body, history_cleared, Event, Store, RepoError, not_found, not_member, map_members,
  map_message, is_active, append_user_events, next_count,
}
use sobhemessenger.Messages.Statements.{greatest, live_message}

-- The tombstones of a clear for everyone, which also empties what `Delete` leaves.
abbrev pub wiped : ℕ → Uuid → ℕ → Message → Message
wiped now actor upto m =
    if leb m.seq upto
    then (if is_deleted m then record m { attachments = [] } else record m {
      deleted_at = some now;
      deleted_by = some actor;
      content = [];
      entities = "[]";
      payload = "{}";
      reply_markup = none;
      attachments = [];
    })
    else m

abbrev pub cleared : ℕ → Member → Member
cleared watermark m = record m {
  history_cleared_seq = greatest m.history_cleared_seq watermark;
  last_read_seq = greatest m.last_read_seq watermark;
  last_delivered_seq = greatest m.last_delivered_seq watermark;
  unread_count = 0;
  mention_count = 0;
}

abbrev pub clear_all : ℕ → Uuid → Member → Member
clear_all watermark u m = if m.has_left then m else cleared watermark m

abbrev pub clear_own : Uuid → ℕ → Uuid → Member → Member
clear_own actor watermark u m = if u == actor && not m.has_left then cleared watermark m else m

-- One more event for one user, whose counter is made where there is none.
unfoldable pub publish_user_event : Uuid → Body → Store → Store
publish_user_event u body store =
    let seq = next_count (lookup u store.counters) in
    record store {
      counters = insert u seq store.counters;
      events = record { user_id = u; seq = seq; body = body } ∷ store.events;
    }

unfoldable pub clear_for_everyone : ℕ → Uuid → Store → Store
unfolding map_members append_user_events
clear_for_everyone now actor store =
    append_user_events (history_cleared store.last_seq true) (record store {
      messages = map (wiped now actor store.last_seq) store.messages;
      members =
          map_members (clear_own actor store.last_seq)
            (map_members (clear_all store.last_seq) store.members);
    })

unfoldable pub clear_for_one : Uuid → Store → Store
unfolding map_members publish_user_event
clear_for_one actor store =
    publish_user_event actor (history_cleared store.last_seq false)
      (record store { members = map_members (clear_own actor store.last_seq) store.members })

-- With the watermark.
unfoldable pub clear_history : ℕ → Uuid → Bool → Store → Result RepoError (ℕ × Store)
unfolding clear_for_everyone clear_for_one
clear_history now actor for_everyone store =
    if store.is_deleted
    then err not_found
    else if is_active store.members actor
    then ok (
      store.last_seq,
      if for_everyone then clear_for_everyone now actor store else clear_for_one actor store,
    )
    else err not_member

-- What lies above a cursor: the messages that are not deleted, and the mentions, deleted or not.
abbrev pub is_above : ℕ → Message → Bool
is_above cursor m = ltb cursor m.seq && not (is_deleted m)

abbrev pub is_mention_above : Uuid → ℕ → Message → Bool
is_mention_above u cursor m = ltb cursor m.seq && contains u m.mentions

abbrev pub read_upto : List Message → Uuid → ℕ → Member → Member
read_upto messages u upto m =
    let cursor = greatest m.last_read_seq upto in
    record m {
      last_read_seq = cursor;
      last_delivered_seq = greatest m.last_delivered_seq upto;
      unread_count = count_if (is_above cursor) messages;
      mention_count = count_if (is_mention_above u cursor) messages;
    }

abbrev pub read_own : List Message → Uuid → ℕ → Uuid → Member → Member
read_own messages reader upto u m =
    if u == reader && not m.has_left then read_upto messages u upto m else m

abbrev pub active_member : Uuid → Store → Option Member
active_member u store = elim (lookup u store.members) [
  | none ↦ none
  | some m ↦ if m.has_left then none else some m
]

-- With the new cursor and the one before.
unfoldable pub mark_read : Uuid → ℕ → Store → Result RepoError (ℕ × ℕ × Store)
unfolding map_members
mark_read reader upto store = on_row (active_member reader store) not_member λ m. ok (
  greatest m.last_read_seq upto,
  m.last_read_seq,
  record store { members = map_members (read_own store.messages reader upto) store.members },
)

-- ORDER BY seq DESC
abbrev pub is_newer : Message → Message → Bool
is_newer a b = leb b.seq a.seq

abbrev pub is_unseen : Uuid → ℕ → ℕ → Message → Bool
is_unseen reader from to m =
    ltb from m.seq && leb m.seq to && not (is_deleted m) && not (is_from reader m.sender_id)

abbrev pub is_one_of : List Message → Message → Bool
is_one_of chosen m = any (λ c. c.id == m.id) chosen

unfoldable pub record_reads : Uuid → ℕ → ℕ → ℕ → Store → Store
unfolding filter_if take order_by
record_reads reader from to limit store =
    if leb to from
    then store
    else let chosen =
        take limit (order_by is_newer (filter_if (is_unseen reader from to) store.messages)) in
      record store {
        messages =
            map
              (λ (m : Message).
                if is_one_of chosen m then record m { reads = add reader m.reads } else m)
              store.messages;
      }

abbrev pub is_reaction : Uuid → Runes → Uuid × Runes → Bool
is_reaction u emoji (by, with) = by == u && is_equal with emoji

abbrev pub toggled : Uuid → Runes → Message → Message
toggled u emoji m =
    if any (is_reaction u emoji) m.reactions
    then record m { reactions = filter_if (λ r. not (is_reaction u emoji r)) m.reactions }
    else record m { reactions = (u, emoji) ∷ m.reactions }

-- With whether the reaction was added.
unfoldable pub react : Uuid → Uuid → Runes → Store → Result RepoError (Bool × Store)
unfolding filter_if
react id u emoji store = on_row (live_message id store) not_found λ m. ok (
  not (any (is_reaction u emoji) m.reactions),
  record store { messages = map_message id (toggled u emoji) store.messages },
)

unfoldable pub set_pinned : Uuid → Bool → Store → Result RepoError Store
set_pinned id pinned store = on_row (live_message id store) not_found λ _. ok (record store {
  messages = map_message id (λ m. record m { is_pinned = pinned }) store.messages;
})

abbrev pub drafted : Uuid → Runes → Uuid → Member → Member
drafted u draft v m = if v == u && not m.has_left then record m { draft = draft } else m

unfoldable pub set_draft : Uuid → Runes → Store → Result RepoError Store
unfolding map_members
set_draft u draft store =
    if is_active store.members u && not (is_secret store.chat_type)
    then ok (record store { members = map_members (drafted u draft) store.members })
    else err not_member

abbrev pub cleared_of : Option Member → ℕ
cleared_of none = 0
cleared_of (some m) = m.history_cleared_seq

abbrev pub is_below : Option ℕ → ℕ → Bool
is_below none seq = true
is_below (some before) seq = ltb seq before

abbrev pub is_after : Option ℕ → ℕ → Bool
is_after none seq = true
is_after (some after) seq = ltb after seq

-- What a page may show: the WHERE clause of `History`, without a thread or a topic.
abbrev pub is_visible : Option ℕ → Option ℕ → ℕ → Message → Bool
is_visible before after watermark m =
    is_below before m.seq && is_after after m.seq && ltb watermark m.seq

-- The CASE of the query.
abbrev pub shown : Message → Message
shown m = if is_deleted m then record m { content = [] } else m

unfoldable pub history : Uuid → Option ℕ → Option ℕ → ℕ → Store → List Message
unfolding filter_if take order_by
history viewer before after limit store =
    let watermark = cleared_of (lookup viewer store.members) in
    map shown (
      take limit (order_by is_newer (filter_if (is_visible before after watermark) store.messages)))

abbrev pub is_earlier : Event → Event → Bool
is_earlier a b = leb a.seq b.seq

abbrev pub is_later_event : Uuid → ℕ → Event → Bool
is_later_event u cursor e = e.user_id == u && ltb cursor e.seq

abbrev pub counter_of : Option ℕ → ℕ
counter_of none = 0
counter_of (some n) = n

-- With the latest sequence.
unfoldable pub events_since : Uuid → ℕ → ℕ → Store → List Event × ℕ
unfolding filter_if take order_by
events_since u cursor limit store = (
  take limit (order_by is_earlier (filter_if (is_later_event u cursor) store.events)),
  counter_of (lookup u store.counters),
)
