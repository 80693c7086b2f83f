-- ===== src/Groups/Repository.antt =====
-- backend/internal/groups/repository.go and roles.go: the statements that change a chat. Each runs in
-- a transaction or is one statement, so an error leaves the chat as it was.
use sobhemessenger.Common.{
  ℤ, ℕ, ◌+◌, ◌-◌, Bool, true, false, ◌&&◌, ◌||◌, Option, none, some, Uuid, if◌then◌else◌, [], ◌∷◌,
  leb, ◌==◌,
}
use sobhemessenger.Common.Text.{Runes, is_equal}
use sobhemessenger.Common.Assoc.{Assoc, lookup, insert, delete}
use sobhemessenger.Httpx.{Result, ok, err, on_row}
use sobhemessenger.Messaging.Permissions.{Role, owner, admin, member, Overrides, Raw, is_channel}
use sobhemessenger.Groups.Chat.{
  Member, NamedRole, Status, pending, approved, rejected, Chat, RepoError, no_chat, not_member,
  already_member, full, role_not_found, role_taken, too_many_roles, active,
}

abbrev pub set_member : Uuid → Member → Chat → Chat
set_member u m chat = record chat { members = insert u m chat.members }

-- `bumpMemberCount` by 1 and by -1; the truncated subtraction is GREATEST(0, …).
unfoldable pub bump_up : Chat → Chat
bump_up chat = record chat {
  member_count = chat.member_count + 1;
  subscriber_count =
      if is_channel chat.type then chat.subscriber_count + 1 else chat.subscriber_count;
}

unfoldable pub bump_down : Chat → Chat
bump_down chat = record chat {
  member_count = chat.member_count - 1;
  subscriber_count =
      if is_channel chat.type then chat.subscriber_count - 1 else chat.subscriber_count;
}

abbrev pub limit_of : Option ℕ → ℕ
limit_of none = 200000
limit_of (some n) = n

abbrev pub new_member : Role → Member
new_member role = record { role = role; permissions = none; custom_role = none; left = false }

-- The INSERT … ON CONFLICT of `AddMember`.
abbrev pub upsert : Uuid → Role → Option Member → Chat → Result RepoError Chat
upsert u role none chat = ok (bump_up (set_member u (new_member role) chat))
upsert u role (some m) chat =
    if m.left
    then ok (bump_up (set_member u (record m { left = false; role = role }) chat))
    else err already_member

unfoldable pub add_member : Uuid → Role → Chat → Result RepoError Chat
unfolding bump_up
add_member u role chat =
    if chat.deleted
    then err no_chat
    else if leb (limit_of chat.max_members) chat.member_count
    then err full
    else upsert u role (lookup u chat.members) chat

unfoldable pub remove_member : Uuid → Chat → Result RepoError Chat
unfolding bump_down active
remove_member u chat =
    on_row (active u chat) not_member
      λ m. ok (bump_down (set_member u (record m { left = true }) chat))

abbrev pub encode : Overrides → Raw
encode [] = none
encode (e ∷ m) = some (e ∷ m)

unfoldable pub set_role : Uuid → Role → Overrides → Chat → Result RepoError Chat
unfolding active
set_role u role permissions chat =
    on_row (active u chat) not_member
      λ m. ok (set_member u (record m { role = role; permissions = encode permissions }) chat)

abbrev pub is_owner : Role → Bool
is_owner owner = true
is_owner _ = false

-- The second UPDATE of `TransferOwnership`.
unfoldable pub promote : Uuid → Chat → Result RepoError Chat
unfolding active
promote to chat =
    on_row (active to chat) not_member
      λ m. ok (set_member to (record m { role = owner; permissions = none }) chat)

unfoldable pub transfer_ownership : Uuid → Uuid → Chat → Result RepoError Chat
unfolding promote
transfer_ownership from to chat = on_row (active from chat) no_chat λ m.
    if is_owner m.role
    then promote to (set_member from (record m { role = admin }) chat)
    else err no_chat

abbrev pub is_pending : Option Status → Bool
is_pending (some pending) = true
is_pending _ = false

-- A request that is not pending becomes pending again.
unfoldable pub create_join_request : Uuid → Chat → Chat
create_join_request u chat =
    if is_pending (lookup u chat.requests)
    then chat
    else record chat { requests = insert u pending chat.requests }

-- The INSERT … ON CONFLICT of `ResolveJoinRequest`, which has no WHERE and leaves the role.
abbrev pub reinstate : Option Member → Member
reinstate none = new_member member
reinstate (some m) = record m { left = false }

unfoldable pub resolve_join_request : Uuid → Bool → Chat → Result RepoError Chat
unfolding bump_up
resolve_join_request u approve chat =
    if is_pending (lookup u chat.requests)
    then (if approve
        then ok (
            bump_up (
              set_member u (reinstate (lookup u chat.members))
                (record chat { requests = insert u approved chat.requests })))
        else ok (record chat { requests = insert u rejected chat.requests }))
    else err no_chat

unfoldable pub delete_chat : Chat → Chat
delete_chat chat = record chat { deleted = true }

-- The rows of `group_roles` of this chat, and whether one has the name.
unfoldable pub roles_of : Uuid → Assoc NamedRole → ℕ
roles_of chat [] = 0
roles_of chat ((id, r) ∷ m) =
    let rest = roles_of chat m in if r.chat == chat then rest + 1 else rest

unfoldable pub is_taken : Uuid → Runes → Assoc NamedRole → Bool
is_taken chat name [] = false
is_taken chat name ((id, r) ∷ m) =
    ((r.chat == chat) && is_equal r.name name) || is_taken chat name m

abbrev pub max_roles_per_chat : ℕ
max_roles_per_chat = 20

-- The database gives the row an id that no row has.
unfoldable pub create_role : Uuid → Runes → Overrides → ℤ → Chat → Result RepoError Chat
unfolding roles_of is_taken
create_role id name permissions rank chat =
    if leb max_roles_per_chat (roles_of chat.id chat.roles)
    then err too_many_roles
    else if is_taken chat.id name chat.roles
    then err role_taken
    else ok (record chat {
      roles =
          insert id (record { chat = chat.id; name = name; permissions = permissions; rank = rank })
            chat.roles;
    })

abbrev pub is_of : Uuid → Option NamedRole → Bool
is_of chat none = false
is_of chat (some r) = r.chat == chat

-- ON DELETE SET NULL
unfoldable pub forget_role : Uuid → Assoc Member → Assoc Member
forget_role id [] = []
forget_role id ((u, m) ∷ ms) =
    let held : Bool = elim m.custom_role [ none ↦ false | some r ↦ r == id ] in
    (u, if held then record m { custom_role = none } else m) ∷ forget_role id ms

-- The unique index on the name looks at the other rows.
unfoldable pub update_role : Uuid → Runes → Overrides → ℤ → Chat → Result RepoError Chat
unfolding is_taken
update_role id name permissions rank chat =
    if is_of chat.id (lookup id chat.roles)
    then (if is_taken chat.id name (delete id chat.roles)
        then err role_taken
        else ok (record chat {
          roles =
              insert id
                (record { chat = chat.id; name = name; permissions = permissions; rank = rank })
                chat.roles;
        }))
    else err role_not_found

unfoldable pub delete_role : Uuid → Chat → Result RepoError Chat
unfolding forget_role
delete_role id chat =
    if is_of chat.id (lookup id chat.roles)
    then ok (record chat { roles = delete id chat.roles; members = forget_role id chat.members })
    else err role_not_found

-- The role has to be one of this chat, or absent.
abbrev pub is_assignable : Option Uuid → Chat → Bool
is_assignable none chat = true
is_assignable (some id) chat = is_of chat.id (lookup id chat.roles)

unfoldable pub assign_role : Uuid → Option Uuid → Chat → Result RepoError Chat
unfolding active
assign_role u role chat =
    on_row (active u chat) (if is_assignable role chat then not_member else role_not_found) λ m.
      if is_assignable role chat
      then ok (set_member u (record m { custom_role = role }) chat)
      else err role_not_found
