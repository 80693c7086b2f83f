-- ===== src/Groups/Invites.antt =====
-- backend/internal/groups/repository.go: the statements on invite links.
use sobhemessenger.Common.{
  ℕ, ◌+◌, Bool, true, false, ◌&&◌, not, Option, none, some, Uuid, if◌then◌else◌, [], ◌∷◌, ltb, ◌==◌,
}
use sobhemessenger.Common.Assoc.{Assoc, lookup, insert}
use sobhemessenger.Httpx.{Result, ok, err, on_row}
use sobhemessenger.Groups.Chat.{Invite, Chat, RepoError, no_chat}

-- The id and the slug are new; the database and `security.RandomToken` make them.
unfoldable pub create_invite_link : Uuid → ℕ → Option ℕ → Option ℕ → Chat → Chat
create_invite_link id slug member_limit expires_at chat = record chat {
  invites =
      insert slug
        (record {
          id = id;
          revoked = false;
          expires_at = expires_at;
          member_limit = member_limit;
          usage_count = 0;
        })
        chat.invites;
}

abbrev pub is_live : ℕ → Option ℕ → Bool
is_live now none = true
is_live now (some at) = ltb now at

abbrev pub has_room : ℕ → Option ℕ → Bool
has_room used none = true
has_room used (some limit) = ltb used limit

-- The WHERE of `ResolveInvite`.
unfoldable pub is_valid : ℕ → Invite → Bool
is_valid now link =
    not link.revoked && is_live now link.expires_at && has_room link.usage_count link.member_limit

abbrev pub if_valid : ℕ → Option Invite → Option Invite
if_valid now none = none
if_valid now (some link) = elim (is_valid now link) [ true ↦ some link | false ↦ none ]

-- `now()` is that of the database.
unfoldable pub resolve_invite : ℕ → ℕ → Chat → Result RepoError Invite
unfolding is_valid
resolve_invite now slug chat =
    if chat.deleted
    then err no_chat
    else on_row (if_valid now (lookup slug chat.invites)) no_chat ok

abbrev pub on_link : Uuid → (Invite → Invite) → Assoc Invite → Assoc Invite
on_link id f [] = []
on_link id f ((slug, link) ∷ m) = (slug, if link.id == id then f link else link) ∷ on_link id f m

abbrev pub has_link : Uuid → Assoc Invite → Bool
has_link id [] = false
has_link id ((slug, link) ∷ m) =
    let rest = has_link id m in if link.id == id then not link.revoked else rest

unfoldable pub revoke_invite_link : Uuid → Chat → Result RepoError Chat
revoke_invite_link id chat =
    if has_link id chat.invites
    then ok
        (record chat { invites = on_link id (λ link. record link { revoked = true }) chat.invites })
    else err no_chat

unfoldable pub count_invite_use : Uuid → Chat → Chat
count_invite_use id chat = record chat {
  invites = on_link id (λ link. record link { usage_count = link.usage_count + 1 }) chat.invites;
}
