-- ===== src/Groups/Service.antt =====
-- backend/internal/groups/service.go: the gate and the operations on members. An operation returns the
-- chat after it; an error leaves it as it was. What `announce` broadcasts and the log are left out.
pub mod Roles
pub mod Joining
pub mod Creation
pub mod Settings
use sobhemessenger.Common.{
  ℕ, Bool, true, false, not, ◌&&◌, ◌||◌, Option, none, some, Uuid, if◌then◌else◌, List, [], ◌∷◌,
  leb, ltb,
}
use sobhemessenger.Httpx.{
  Fault, Result, ok, err, ◌>>=◌, ◌>>◌, map_err, internal, validation, forbidden, not_found,
  conflict, not_chat_member, chat_not_found, permission_denied, not_found_code, conflict_code,
}
use sobhemessenger.Messaging.Permissions.{
  ChatType, Role, owner, admin, moderator, member, restricted, other_role, Permission,
  remove_members, manage_admins, Overrides, unknown_permission_keys,
}
use sobhemessenger.Messaging.Permissions.{add_members as may_add_members}
use sobhemessenger.Messaging.Context.{ChatContext}
use sobhemessenger.Groups.Chat.{
  Chat, RepoError, no_chat, not_member, already_member, full, chat_context_for,
}
use sobhemessenger.Groups.Repository as Repo

unfoldable pub rank : Role → ℕ
rank owner = 0
rank admin = 1
rank moderator = 2
rank member = 3
rank _ = 4

abbrev pub is_empty_list {ℓ} : {A : Type ℓ} → List A → Bool
is_empty_list [] = true
is_empty_list _ = false

unfoldable pub reject_unknown_permissions : Overrides → ChatType → Result Fault (Unit {0})
reject_unknown_permissions permissions type =
    if is_empty_list (unknown_permission_keys permissions type) then ok tt else err validation

-- What the services make of the errors of the repository.
abbrev pub when_not_found : RepoError → Fault
when_not_found no_chat = not_found chat_not_found
when_not_found _ = internal

abbrev pub always_internal : RepoError → Fault
always_internal _ = internal

abbrev pub when_not_member : RepoError → Fault
when_not_member not_member = not_found not_found_code
when_not_member _ = internal

unfoldable pub authorize : Permission → Uuid → Chat → Result Fault ChatContext
authorize allowed actor chat = map_err when_not_found (chat_context_for actor chat) >>= λ ctx.
    if not ctx.is_member
    then err (forbidden not_chat_member)
    else if not (ctx.permissions allowed)
    then err (forbidden permission_denied)
    else ok ctx

-- The outcome of one invitation, in words in the source.
pub data Outcome : Type 0 where
  added already_in chat_is_full failed : Outcome

abbrev pub outcome_of : RepoError → Outcome
outcome_of already_member = already_in
outcome_of full = chat_is_full
outcome_of _ = failed

abbrev pub outcome : Result RepoError Chat → Outcome
outcome (ok _) = added
outcome (err e) = outcome_of e

abbrev pub after : Result RepoError Chat → Chat → Chat
after (ok chat) _ = chat
after (err _) chat = chat

-- The loop of `AddMembers`. The source keys the outcomes by user.
unfoldable pub add_each : List Uuid → Chat → List (Uuid × Outcome) × Chat
add_each [] chat = ([], chat)
add_each (u ∷ us) chat =
    let result = Repo.add_member u member chat in
    let rest = add_each us (after result chat) in ((u, outcome result) ∷ rest.0, rest.1)

unfoldable pub add_members : Uuid → List Uuid → Chat → Result Fault (List (Uuid × Outcome) × Chat)
unfolding authorize add_each
add_members actor users chat =
    authorize may_add_members actor chat >>= λ _. ok (add_each users chat)

-- The part of `RemoveMember` and `AssignRole` that looks at the target.
abbrev pub outranks : ChatContext → ChatContext → Result Fault (Unit {0})
outranks actor target =
    if leb (rank target.role) (rank actor.role) then err (forbidden permission_denied) else ok tt

abbrev pub target_of : Uuid → Chat → Result Fault ChatContext
target_of target chat = map_err always_internal (chat_context_for target chat) >>= λ ctx.
    if not ctx.is_member then err (not_found not_found_code) else ok ctx

unfoldable pub remove_member : Uuid → Uuid → Chat → Result Fault Chat
unfolding authorize rank
remove_member actor target chat = authorize remove_members actor chat >>= λ actor_ctx.
    target_of target chat >>= λ target_ctx.
    outranks actor_ctx target_ctx >> map_err when_not_member (Repo.remove_member target chat)

-- A chat that the last member leaves is deleted.
unfoldable pub leave : Uuid → Chat → Result Fault Chat
leave user chat = map_err when_not_found (chat_context_for user chat) >>= λ ctx.
    if not ctx.is_member
    then err (forbidden not_chat_member)
    else if Repo.is_owner ctx.role && ltb 1 ctx.member_count
    then err (conflict conflict_code)
    else map_err always_internal (Repo.remove_member user chat) >>= λ left.
        ok (if leb ctx.member_count 1 then Repo.delete_chat left else left)

-- The switch of `SetRole`.
abbrev pub is_grantable : Role → Bool
is_grantable admin = true
is_grantable moderator = true
is_grantable member = true
is_grantable restricted = true
is_grantable _ = false

unfoldable pub set_role : Uuid → Uuid → Role → Overrides → Chat → Result Fault Chat
unfolding authorize rank reject_unknown_permissions
set_role actor target role permissions chat = authorize manage_admins actor chat >>= λ ctx.
    if not (is_grantable role)
    then err validation
    else if ltb (rank role) (rank ctx.role)
    then err (forbidden permission_denied)
    else reject_unknown_permissions permissions ctx.chat_type
      >> map_err when_not_member (Repo.set_role target role permissions chat)

abbrev pub owner_only : Uuid → Chat → Result Fault (Unit {0})
owner_only actor chat = map_err always_internal (chat_context_for actor chat) >>= λ ctx.
    if not ctx.is_member || not (Repo.is_owner ctx.role)
    then err (forbidden permission_denied)
    else ok tt

unfoldable pub transfer_ownership : Uuid → Uuid → Chat → Result Fault Chat
transfer_ownership actor target chat =
    owner_only actor chat >> map_err when_not_member (Repo.transfer_ownership actor target chat)

unfoldable pub delete_chat : Uuid → Chat → Result Fault Chat
delete_chat actor chat = owner_only actor chat >> ok (Repo.delete_chat chat)
