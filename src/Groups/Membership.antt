-- ===== src/Groups/Membership.antt =====
-- What holds of the members of a chat between two operations, and that the statements of the
-- repository keep it.
pub mod Statements
pub mod Requests
pub mod Services
pub mod Roles
pub mod Joining
pub mod Ownership
pub mod SoleOwner
pub mod Settings
pub mod History
pub mod Operations
pub mod Succession
use sobhemessenger.Common.{
  ℕ, ◌+◌, ◌≤◌, ◌≡◌, ◌⊎◌, Bool, true, false, not, ◌&&◌, none, some, Uuid, bit, if◌then◌else◌, arith,
  Option,
}
use sobhemessenger.Common.Assoc.{
  Assoc, lookup, insert, total, value, IsDistinct, total-insert, insert-IsDistinct,
}
use sobhemessenger.Messaging.Permissions.{is_channel}
use sobhemessenger.Groups.Chat.{Member, Chat}
use sobhemessenger.Groups.Repository.{is_owner, set_member}

abbrev pub is_active : Member → Bool
is_active m = not m.left

abbrev pub is_active_owner : Member → Bool
is_active_owner m = not m.left && is_owner m.role

abbrev pub is_past_owner : Member → Bool
is_past_owner m = m.left && is_owner m.role

abbrev pub how_many : (Member → Bool) → Chat → ℕ
how_many p chat = total (λ m. bit (p m)) chat.members

-- The members who have not left, and those of them who own the chat.
abbrev pub actives : Chat → ℕ
actives = how_many is_active

abbrev pub owners : Chat → ℕ
owners = how_many is_active_owner

pub record Inv (chat : Chat) : Type 0 where
  -- (chat_id, user_id) is the primary key
  pub distinct : IsDistinct chat.members
  pub counted : actives chat ≤ chat.member_count
  pub mirrored : (is_channel chat.type ≡ false) ⊎ (chat.subscriber_count ≡ chat.member_count)
  pub single : owners chat ≤ 1
  -- no owner has left a chat that is still there
  pub present : (chat.deleted ≡ true) ⊎ (how_many is_past_owner chat ≡ 0)

abbrev pub passes : (Member → Bool) → Option Member → ℕ
passes p o = value (λ m. bit (p m)) o

-- A row that is written moves a count by what the row was and is.
pub how_many-set_member :
    (p : Member → Bool) (u : Uuid) (m : Member) (chat : Chat)
    → how_many p (set_member u m chat) + passes p (lookup u chat.members)
      ≡ how_many p chat + bit (p m)
how_many-set_member p u m chat = total-insert (λ m. bit (p m)) u m chat.members
