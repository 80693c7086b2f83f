-- ===== src/Groups/Service/Creation.antt =====
-- backend/internal/groups: `CreateChat` and `Create`, which makes a group or a channel with its owner.
use sobhemessenger.Common.{
  ℕ, Bool, true, false, not, ◌&&◌, ◌||◌, none, some, Uuid, if◌then◌else◌, List, [], ◌∷◌, ltb, ◌==◌,
  length, all,
}
use sobhemessenger.Common.Text.{Runes, is_empty, is_between, trim_space}
use sobhemessenger.Httpx.{Fault, Result, ok, err, validation, conflict, username_taken}
use sobhemessenger.Messaging.Permissions.{ChatType, group, channel, owner, member, is_channel}
use sobhemessenger.Groups.Chat.{Chat}
use sobhemessenger.Groups.Repository.{new_member, add_member}
use sobhemessenger.Groups.Service.{after}

-- The columns that `CreateChat` leaves to the database have its defaults: `max_members` is given.
unfoldable pub create_chat : Uuid → ChatType → Uuid → ℕ → Chat
create_chat id type owner_id max_members = record {
  id = id;
  type = type;
  deleted = false;
  member_count = 1;
  subscriber_count = if is_channel type then 1 else 0;
  max_members = some max_members;
  default_permissions = some [];
  is_broadcast = elim type [ group ↦ some false | _ ↦ none ];
  join_requires_approval = some false;
  invites = [];
  members = (owner_id, new_member owner) ∷ [];
  roles = [];
  requests = [];
}

abbrev pub is_letter : ℕ → Bool
is_letter c = is_between 97 122 c || is_between 65 90 c

abbrev pub is_handle_char : ℕ → Bool
is_handle_char c = is_letter c || is_between 48 57 c || c == 95

-- ^[a-zA-Z][a-zA-Z0-9_]{4,31}$
abbrev pub matches_username : Runes → Bool
matches_username [] = false
matches_username (c ∷ s) = is_letter c && is_between 4 31 (length s) && all is_handle_char s

pub record CreateInput : Type 0 where
  pub owner_id : Uuid
  pub type : ChatType
  pub title : Runes
  pub description : Runes
  pub username : Runes
  pub is_public : Bool
  pub member_ids : List Uuid

abbrev pub is_unsupported : ChatType → Bool
is_unsupported group = false
is_unsupported channel = false
is_unsupported _ = true

-- Seeding is best effort: an error is logged and the loop goes on.
unfoldable pub seed : Uuid → List Uuid → Chat → Chat
seed owner_id [] chat = chat
seed owner_id (u ∷ us) chat =
    let seeded = after (add_member u member chat) chat in
    seed owner_id us (if u == owner_id then chat else seeded)

-- `id`, `max_members` and whether the handle is taken come from the database.
unfoldable pub create : Uuid → ℕ → (Runes → Bool) → CreateInput → Result Fault Chat
unfolding create_chat seed
create id max_members is_taken input =
    let title = trim_space input.title in
    let handle = trim_space input.username in
    if is_unsupported input.type
    then err validation
    else if is_empty title
    then err validation
    else if ltb 128 (length title)
    then err validation
    else if ltb 1024 (length input.description)
    then err validation
    else if not (is_empty handle) && not (matches_username handle)
    then err validation
    else if input.is_public && is_empty handle
    then err validation
    else if not (is_empty handle) && is_taken handle
    then err (conflict username_taken)
    else ok (
        seed input.owner_id input.member_ids (create_chat id input.type input.owner_id max_members))
