-- ===== src/Groups/Service/Joining.antt =====
-- backend/internal/groups/service.go: invite links, join requests and the join of a public chat.
use sobhemessenger.Common.{ℕ, Bool, false, ◌||◌, Option, none, some, Uuid, if◌then◌else◌, ltb}
use sobhemessenger.Httpx.{
  Fault, Result, ok, err, ◌>>=◌, map_err, internal, validation, forbidden, not_found,
  not_found_code, chat_full,
}
use sobhemessenger.Messaging.Permissions.{member, add_members, manage_invites}
use sobhemessenger.Messaging.Context.{is_true}
use sobhemessenger.Groups.Chat.{Chat, RepoError, no_chat, already_member, full, chat_context_for}
use sobhemessenger.Groups.Service.{authorize, when_not_found}
use sobhemessenger.Groups.Repository as Repo
use sobhemessenger.Groups.Invites as Links

-- `JoinResult`, without the title and the type that it copies from the chat.
pub data JoinResult : Type 0 where
  joined pending_approval : JoinResult

abbrev pub is_out_of_range : Option ℕ → Bool
is_out_of_range none = false
is_out_of_range (some n) = ltb n 1 || ltb 100000 n

-- `expiresAt.Before(time.Now())`
abbrev pub is_past : ℕ → Option ℕ → Bool
is_past now none = false
is_past now (some at) = ltb at now

unfoldable pub create_invite_link :
    Uuid → ℕ → Uuid → ℕ → Option ℕ → Option ℕ → Chat → Result Fault Chat
create_invite_link actor now id slug member_limit expires_at chat =
    authorize manage_invites actor chat >>= λ _.
    if is_past now expires_at
    then err validation
    else if is_out_of_range member_limit
    then err validation
    else ok (Links.create_invite_link id slug member_limit expires_at chat)

abbrev pub when_missing : RepoError → Fault
when_missing no_chat = not_found not_found_code
when_missing full = forbidden chat_full
when_missing _ = internal

unfoldable pub revoke_invite_link : Uuid → Uuid → Chat → Result Fault Chat
revoke_invite_link actor id chat = authorize manage_invites actor chat >>= λ _.
    map_err when_missing (Links.revoke_invite_link id chat)

-- The switch of `JoinByInvite` on what `AddMember` returned.
unfoldable pub redeemed : Uuid → Result RepoError Chat → Chat → Result Fault (JoinResult × Chat)
redeemed link (ok with_member) chat = ok (joined, Links.count_invite_use link with_member)
redeemed link (err already_member) chat = ok (joined, chat)
redeemed link (err full) chat = err (forbidden chat_full)
redeemed link (err _) chat = err internal

unfoldable pub join_by_invite : Uuid → ℕ → ℕ → Chat → Result Fault (JoinResult × Chat)
unfolding redeemed
join_by_invite user now slug chat =
    map_err when_missing (Links.resolve_invite now slug chat) >>= λ link.
    if is_true chat.join_requires_approval
    then ok (pending_approval, Repo.create_join_request user chat)
    else redeemed link.id (Repo.add_member user member chat) chat

-- `JoinPublic` on what `AddMember` returned.
unfoldable pub subscribed : Result RepoError Chat → Chat → Result Fault (JoinResult × Chat)
subscribed (ok with_member) chat = ok (joined, with_member)
subscribed (err already_member) chat = ok (joined, chat)
subscribed (err full) chat = err (forbidden chat_full)
subscribed (err _) chat = err internal

unfoldable pub join_public : Uuid → Chat → Result Fault (JoinResult × Chat)
unfolding subscribed
join_public user chat = map_err when_not_found (chat_context_for user chat) >>= λ ctx.
    if ctx.is_member
    then ok (joined, chat)
    else if is_true chat.join_requires_approval
    then ok (pending_approval, Repo.create_join_request user chat)
    else subscribed (Repo.add_member user member chat) chat

unfoldable pub resolve_join_request : Uuid → Uuid → Bool → Chat → Result Fault Chat
resolve_join_request actor target approve chat = authorize add_members actor chat >>= λ _.
    map_err when_missing (Repo.resolve_join_request target approve chat)
