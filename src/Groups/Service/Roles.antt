-- ===== src/Groups/Service/Roles.antt =====
-- backend/internal/groups/roles.go: the named permission bundles of a chat.
use sobhemessenger.Common.{
  ℕ, ℤ, pos, negsuc, Bool, true, false, not, ◌&&◌, Option, Uuid, if◌then◌else◌, List, [], ◌∷◌, ltb,
  ◌==◌, length,
}
use sobhemessenger.Common.Text.{Runes, is_empty, trim_space}
use sobhemessenger.Httpx.{
  Fault, Result, ok, err, ◌>>=◌, ◌>>◌, map_err, internal, validation, forbidden, not_found,
  conflict, permission_denied, not_found_code, conflict_code,
}
use sobhemessenger.Messaging.Permissions.{
  ChatType, manage_admins, Permissions, Key, known, unknown, Overrides,
}
use sobhemessenger.Groups.Chat.{
  Chat, RepoError, not_member, role_not_found, role_taken, too_many_roles,
}
use sobhemessenger.Groups.Service.{
  authorize, reject_unknown_permissions, is_empty_list, target_of, outranks,
}
use sobhemessenger.Groups.Repository as Repo

abbrev pub max_role_name : ℕ
max_role_name = 64

abbrev pub is_rank_out_of_range : ℤ → Bool
is_rank_out_of_range (negsuc _) = true
is_rank_out_of_range (pos n) = ltb 1000 n

-- `validateRole`, which trims the name in place.
unfoldable pub validate_role : Runes → Overrides → ℤ → ChatType → Result Fault Runes
validate_role name permissions rank type =
    let trimmed = trim_space name in
    if is_empty trimmed
    then err validation
    else if ltb max_role_name (length trimmed)
    then err validation
    else if is_rank_out_of_range rank
    then err validation
    else reject_unknown_permissions permissions type >> ok trimmed

-- `granted[key]`
abbrev pub is_granted : Permissions → Key → Bool
is_granted held (known p) = held p
is_granted held (unknown _) = false

unfoldable pub overreach : Overrides → Permissions → List Key
overreach [] held = []
overreach ((key, value) ∷ m) held =
    let rest = overreach m held in if value && not (is_granted held key) then key ∷ rest else rest

unfoldable pub within_own_grant : Overrides → Permissions → Result Fault (Unit {0})
unfolding overreach
within_own_grant permissions held =
    if is_empty_list (overreach permissions held) then ok tt else err (forbidden permission_denied)

abbrev pub when_role_error : RepoError → Fault
when_role_error role_taken = conflict conflict_code
when_role_error too_many_roles = conflict conflict_code
when_role_error role_not_found = not_found not_found_code
when_role_error not_member = not_found not_found_code
when_role_error _ = internal

unfoldable pub create_role : Uuid → Uuid → Runes → Overrides → ℤ → Chat → Result Fault Chat
unfolding validate_role within_own_grant
create_role actor id name permissions rank chat = authorize manage_admins actor chat >>= λ ctx.
    validate_role name permissions rank ctx.chat_type >>= λ trimmed.
    within_own_grant permissions ctx.permissions
    >> map_err when_role_error (Repo.create_role id trimmed permissions rank chat)

unfoldable pub update_role : Uuid → Uuid → Runes → Overrides → ℤ → Chat → Result Fault Chat
unfolding validate_role within_own_grant
update_role actor id name permissions rank chat = authorize manage_admins actor chat >>= λ ctx.
    validate_role name permissions rank ctx.chat_type >>= λ trimmed.
    within_own_grant permissions ctx.permissions
    >> map_err when_role_error (Repo.update_role id trimmed permissions rank chat)

unfoldable pub delete_role : Uuid → Uuid → Chat → Result Fault Chat
delete_role actor id chat =
    authorize manage_admins actor chat >>= λ _. map_err when_role_error (Repo.delete_role id chat)

unfoldable pub assign_role : Uuid → Uuid → Option Uuid → Chat → Result Fault Chat
assign_role actor target role chat = authorize manage_admins actor chat >>= λ actor_ctx.
    target_of target chat >>= λ target_ctx.
    (if target == actor then ok tt else outranks actor_ctx target_ctx)
    >> map_err when_role_error (Repo.assign_role target role chat)
