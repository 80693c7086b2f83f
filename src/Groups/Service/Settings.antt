-- ===== src/Groups/Service/Settings.antt =====
-- backend/internal/groups: `UpdateSettings` of service.go and repository.go, and the part of `Comment`
-- of comments.go that makes a commenter a member of the discussion group.
use sobhemessenger.Common.{
  ℕ, ◌+◌, ℤ, pos, negsuc, Bool, true, false, not, ◌&&◌, ◌||◌, Option, none, some, Uuid,
  if◌then◌else◌, [], ◌∷◌, ltb, ◌==◌, length, all, map, is_some,
}
use sobhemessenger.Common.Text.{Runes, is_empty, is_between, trim_space}
use sobhemessenger.Httpx.{
  Fault, Result, ok, err, ◌>>=◌, ◌>>◌, map_err, internal, validation, conflict, conflict_code,
}
use sobhemessenger.Messaging.Permissions.{Overrides, edit_group, member}
use sobhemessenger.Groups.Chat.{Chat, RepoError, already_member, full, chat_context_for}
use sobhemessenger.Groups.Service.{authorize, reject_unknown_permissions, always_internal}
use sobhemessenger.Groups.Repository as Repo

-- Without the columns that are stored as given and that no decision reads.
pub record Settings : Type 0 where
  pub slow_mode_seconds : ℤ
  pub join_requires_approval : Bool
  pub max_members : ℤ
  pub default_permissions : Overrides
  pub is_broadcast : Option Bool
  pub sticker_set : Option Runes

abbrev pub is_outside : ℕ → ℕ → ℤ → Bool
is_outside low high (negsuc _) = true
is_outside low high (pos n) = ltb n low || ltb high n

-- `unicode.ToLower`, as far as it decides whether a text is a slug: U+0130 and U+212A go to i and k, and
-- no other rune outside ASCII goes into it.
abbrev pub to_lower : ℕ → ℕ
to_lower r =
    if is_between 65 90 r then r + 32 else if r == 304 then 105 else if r == 8490 then 107 else r

abbrev pub is_slug_char : ℕ → Bool
is_slug_char c = is_between 97 122 c || is_between 48 57 c || c == 95

-- ^[a-z][a-z0-9_]{2,31}$
abbrev pub matches_slug : Runes → Bool
matches_slug [] = false
matches_slug (c ∷ s) = is_between 97 122 c && is_between 2 31 (length s) && all is_slug_char s

-- The sticker set as it is looked up.
abbrev pub normalised : Option Runes → Result Fault (Option Runes)
normalised none = ok none
normalised (some text) =
    let slug = map to_lower (trim_space text) in
    if not (is_empty slug) && not (matches_slug slug) then err validation else ok (some slug)

-- An empty slug clears the column.
abbrev pub is_missing : (Runes → Bool) → Option Runes → Bool
is_missing has_set none = false
is_missing has_set (some slug) = not (is_empty slug) && not (has_set slug)

-- UPDATE of a column of a row that the chat may not have.
abbrev pub rewritten {ℓ} : {A : Type ℓ} → A → Option A → Option A
rewritten new none = none
rewritten new (some _) = some new

-- COALESCE
abbrev pub rewritten_if {ℓ} : {A : Type ℓ} → Option A → Option A → Option A
rewritten_if none old = old
rewritten_if (some new) old = rewritten new old

abbrev pub magnitude : ℤ → ℕ
magnitude (pos n) = n
magnitude (negsuc n) = n + 1

-- The statements of `Repository.UpdateSettings`; a chat with a limit has a row in `chat_settings`.
abbrev pub with_settings : Settings → Chat → Chat
with_settings settings chat = record chat {
  join_requires_approval = rewritten settings.join_requires_approval chat.join_requires_approval;
  max_members = rewritten (magnitude settings.max_members) chat.max_members;
  default_permissions =
      if is_some chat.max_members
      then some settings.default_permissions
      else chat.default_permissions;
  is_broadcast = rewritten_if settings.is_broadcast chat.is_broadcast;
}

-- `has_set` says which sticker sets there are. The transaction of a missing one is rolled back.
unfoldable pub update_settings : Uuid → (Runes → Bool) → Settings → Chat → Result Fault Chat
unfolding trim_space
update_settings actor has_set settings chat = authorize edit_group actor chat >>= λ ctx.
    if is_outside 0 21600 settings.slow_mode_seconds
    then err validation
    else if is_outside 2 1000000 settings.max_members
    then err validation
    else reject_unknown_permissions settings.default_permissions ctx.chat_type
      >> (normalised settings.sticker_set >>= λ slug.
          if is_missing has_set slug then err validation else ok (with_settings settings chat))

abbrev pub commented : Result RepoError Chat → Chat → Result Fault Chat
commented (ok with_member) chat = ok with_member
commented (err already_member) chat = ok chat
commented (err full) chat = err (conflict conflict_code)
commented (err _) chat = err internal

-- `chat` is the discussion group. The message is sent after it.
unfoldable pub join_discussion : Uuid → Chat → Result Fault Chat
join_discussion user chat = map_err always_internal (chat_context_for user chat) >>= λ ctx.
    if ctx.is_member then ok chat else commented (Repo.add_member user member chat) chat
