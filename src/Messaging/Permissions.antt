-- ===== src/Messaging/Permissions.antt =====
-- backend/internal/messaging/models.go: roles, chat types and the permission set of a member.
-- The struct `Permissions` has one flag for each key of the vocabulary; it is the function from the
-- keys to the flags, which is how `applyOverrides` reaches its fields.
pub mod Layers
use Prim.Native.String.{String}
use sobhemessenger.Common.{
  ℕ, Bool, true, false, not, ◌||◌, ◌&&◌, Option, none, some, List, [], ◌∷◌, ◌==◌, if◌then◌else◌,
}

pub data ChatType : Type 0 where
  private group channel secret : ChatType
  other_type : String → ChatType

pub data Role : Type 0 where
  owner admin moderator member restricted : Role
  other_role : String → Role

pub data Permission : Type 0 where
  send_messages send_media send_files send_polls send_stickers embed_links : Permission
  add_members remove_members ban_members pin_messages edit_group delete_messages : Permission
  manage_admins manage_calls manage_invites post_stories : Permission

abbrev pub Permissions : Type 0
Permissions = Permission → Bool

abbrev pub index : Permission → ℕ
index send_messages = 0
index send_media = 1
index send_files = 2
index send_polls = 3
index send_stickers = 4
index embed_links = 5
index add_members = 6
index remove_members = 7
index ban_members = 8
index pin_messages = 9
index edit_group = 10
index delete_messages = 11
index manage_admins = 12
index manage_calls = 13
index manage_invites = 14
index post_stories = 15

abbrev pub is_same : Permission → Permission → Bool
is_same a b = index a == index b

-- A key of a permission map: one of the vocabulary, or any other text.
pub data Key : Type 0 where
  known : Permission → Key
  unknown : String → Key

-- map[string]bool, and the JSON that a column holds of one: `none` where the column is empty or
-- does not decode.
abbrev pub Overrides : Type 0
Overrides = List (Key × Bool)

abbrev pub Raw : Type 0
Raw = Option Overrides

pub data Scope : Type 0 where
  both groups channels : Scope

-- `PermissionKeys`
unfoldable pub applies_to : Key → Option Scope
applies_to (known send_stickers) = some groups
applies_to (known manage_calls) = some groups
applies_to (known post_stories) = some channels
applies_to (known _) = some both
applies_to (unknown _) = none

-- Whether `UnknownPermissionKeys` appends the key.
unfoldable pub is_unknown : ChatType → Option Scope → Bool
is_unknown type none = true
is_unknown group (some channels) = true
is_unknown channel (some groups) = true
is_unknown _ (some _) = false

-- The result is sorted in the source, for the text of an error.
unfoldable pub unknown_permission_keys : Overrides → ChatType → List Key
unfolding applies_to is_unknown
unknown_permission_keys [] type = []
unknown_permission_keys ((key, v) ∷ m) type =
    let rest = unknown_permission_keys m type in
    if is_unknown type (applies_to key) then key ∷ rest else rest

abbrev pub is_channel : ChatType → Bool
is_channel channel = true
is_channel _ = false

abbrev pub is_secret : ChatType → Bool
is_secret secret = true
is_secret _ = false

abbrev pub is_group : ChatType → Bool
is_group group = true
is_group _ = false

abbrev pub is_one_to_one : ChatType → Bool
is_one_to_one private = true
is_one_to_one secret = true
is_one_to_one _ = false

unfoldable pub admin_permissions : Permissions
admin_permissions manage_admins = false
admin_permissions _ = true

unfoldable pub moderator_permissions : Permissions
moderator_permissions add_members = false
moderator_permissions ban_members = false
moderator_permissions edit_group = false
moderator_permissions manage_admins = false
moderator_permissions manage_calls = false
moderator_permissions manage_invites = false
moderator_permissions post_stories = false
moderator_permissions _ = true

unfoldable pub restricted_permissions : Permissions
restricted_permissions send_messages = true
restricted_permissions _ = false

unfoldable pub member_permissions : ChatType → Permissions
member_permissions type send_messages = not (is_channel type)
member_permissions type send_media = not (is_channel type)
member_permissions type send_files = not (is_channel type)
member_permissions type send_polls = not (is_channel type)
member_permissions type send_stickers = not (is_channel type)
member_permissions type embed_links = not (is_channel type)
member_permissions type add_members = is_group type
member_permissions type pin_messages = is_one_to_one type
member_permissions type manage_calls = is_one_to_one type
member_permissions type _ = false

unfoldable pub permissions_for_role : Role → ChatType → Permissions
unfolding admin_permissions moderator_permissions restricted_permissions member_permissions
permissions_for_role owner type = λ p. true
permissions_for_role admin type = admin_permissions
permissions_for_role moderator type = moderator_permissions
permissions_for_role restricted type = restricted_permissions
permissions_for_role _ type = member_permissions type

-- `*target = value`
abbrev pub set_permission : Permissions → Permission → Bool → Permissions
set_permission base p v q = if is_same p q then v else base q

unfoldable pub apply_map : Permissions → Overrides → Permissions
apply_map base [] = base
apply_map base ((known p, v) ∷ m) = apply_map (set_permission base p v) m
apply_map base ((unknown _, v) ∷ m) = apply_map base m

unfoldable pub apply_overrides : Permissions → Raw → Permissions
unfolding apply_map
apply_overrides base none = base
apply_overrides base (some m) = apply_map base m
