-- ===== src/Messaging/Context.antt =====
-- backend/internal/messaging/repository.go: `ChatContextFor`, from the row that its query joins.
pub mod Effective
use sobhemessenger.Common.{ℕ, Bool, true, false, Option, none, some, ◌||◌, ◌&&◌, if◌then◌else◌}
use sobhemessenger.Messaging.Permissions.{
  ChatType, Role, other_role, member, restricted, Permission, send_messages, send_media, send_files,
  send_polls, send_stickers, Permissions, Raw, permissions_for_role, apply_overrides,
}

-- The columns of the query that bear on the permissions. `role` is NULL for one who is no member or
-- has left.
pub record Row : Type 0 where
  pub chat_type : ChatType
  pub member_count : ℕ
  pub role : Option Role
  pub permissions : Raw
  pub default_permissions : Raw
  pub is_broadcast : Option Bool
  pub role_permissions : Raw

pub record ChatContext : Type 0 where
  pub chat_type : ChatType
  pub member_count : ℕ
  pub role : Role
  pub permissions : Permissions
  pub is_member : Bool

abbrev pub is_ordinary : Role → Bool
is_ordinary member = true
is_ordinary restricted = true
is_ordinary _ = false

abbrev pub is_true : Option Bool → Bool
is_true (some true) = true
is_true _ = false

-- The five flags that a broadcast group clears.
unfoldable pub silence : Permissions → Permissions
silence base send_messages = false
silence base send_media = false
silence base send_files = false
silence base send_polls = false
silence base send_stickers = false
silence base p = base p

-- What the role and the chat grant, before the two personal layers.
unfoldable pub chat_layer : Role → Row → Permissions
unfolding silence permissions_for_role apply_overrides
chat_layer role row =
    let granted = permissions_for_role role row.chat_type in
    let limited = apply_overrides granted row.default_permissions in
    if is_ordinary role
    then (if is_true row.is_broadcast then silence limited else limited)
    else granted

unfoldable pub effective : Role → Row → Permissions
unfolding chat_layer
effective role row =
    apply_overrides (apply_overrides (chat_layer role row) row.role_permissions) row.permissions

-- The zero value of `Permissions`.
abbrev pub no_permissions : Permissions
no_permissions p = false

-- For one who is no member `Role` stays the empty text.
unfoldable pub context_of : Row → ChatContext
unfolding effective
context_of row = elim row.role [
  | none ↦ record {
    chat_type = row.chat_type;
    member_count = row.member_count;
    role = other_role "";
    permissions = no_permissions;
    is_member = false;
  }
  | some role ↦ record {
    chat_type = row.chat_type;
    member_count = row.member_count;
    role = role;
    permissions = effective role row;
    is_member = true;
  }
]
