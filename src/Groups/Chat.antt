-- ===== src/Groups/Chat.antt =====
-- The tables behind one chat: its row in `chats` with the columns of `chat_settings`, `groups` and
-- `channels`, and its rows in `chat_members`, `group_roles` and `chat_join_requests`. Columns that no
-- decision reads (titles, photos, times, who invited whom) are left out.
use sobhemessenger.Common.{ℤ, ℕ, Bool, Option, none, some, Uuid, if◌then◌else◌}
use sobhemessenger.Common.Text.{Runes}
use sobhemessenger.Common.Assoc.{Assoc, lookup}
use sobhemessenger.Httpx.{Result, ok, err}
use sobhemessenger.Messaging.Permissions.{ChatType, Role, Overrides, Raw}
use sobhemessenger.Messaging.Context.{Row, ChatContext, context_of}

-- A row of `chat_members`; `left` is `left_at IS NOT NULL`.
pub record Member : Type 0 where
  pub role : Role
  pub permissions : Raw
  pub custom_role : Option Uuid
  pub left : Bool

-- A row of `group_roles`.
pub record NamedRole : Type 0 where
  pub chat : Uuid
  pub name : Runes
  pub permissions : Overrides
  pub rank : ℤ

-- The status of a row of `chat_join_requests`.
pub data Status : Type 0 where
  pending approved rejected : Status

-- A row of `chat_invite_links`, with its slug as key. A slug is only compared.
pub record Invite : Type 0 where
  pub id : Uuid
  pub revoked : Bool
  pub expires_at : Option ℕ
  pub member_limit : Option ℕ
  pub usage_count : ℕ

pub record Chat : Type 0 where
  pub id : Uuid
  pub type : ChatType
  pub deleted : Bool
  pub member_count : ℕ
  pub subscriber_count : ℕ
  pub max_members : Option ℕ
  pub default_permissions : Raw
  pub is_broadcast : Option Bool
  pub join_requires_approval : Option Bool
  pub invites : Assoc Invite
  pub members : Assoc Member
  pub roles : Assoc NamedRole
  pub requests : Assoc Status

-- The errors of the package.
pub data RepoError : Type 0 where
  no_chat not_member already_member full role_not_found role_taken too_many_roles : RepoError

-- `… AND m.left_at IS NULL`
abbrev pub if_active : Option Member → Option Member
if_active none = none
if_active (some m) = if m.left then none else some m

unfoldable pub active : Uuid → Chat → Option Member
active u chat = if_active (lookup u chat.members)

abbrev pub role_of : Option Member → Option Role
role_of none = none
role_of (some m) = some m.role

abbrev pub raw_of : Option Member → Raw
raw_of none = none
raw_of (some m) = m.permissions

abbrev pub held_role : Option Member → Option Uuid
held_role none = none
held_role (some m) = m.custom_role

abbrev pub bundle : Option NamedRole → Raw
bundle none = none
bundle (some r) = some r.permissions

abbrev pub bundle_of : Option Uuid → Assoc NamedRole → Raw
bundle_of none roles = none
bundle_of (some id) roles = bundle (lookup id roles)

-- The joins of `ChatContextFor`.
unfoldable pub row_of : Uuid → Chat → Row
unfolding active
row_of u chat =
    let member = active u chat in
    record {
      chat_type = chat.type;
      member_count = chat.member_count;
      role = role_of member;
      permissions = raw_of member;
      default_permissions = chat.default_permissions;
      is_broadcast = chat.is_broadcast;
      role_permissions = bundle_of (held_role member) chat.roles;
    }

unfoldable pub chat_context_for : Uuid → Chat → Result RepoError ChatContext
chat_context_for u chat = if chat.deleted then err no_chat else ok (context_of (row_of u chat))
