-- ===== src/Groups/Operations.antt =====
-- The operations of the service that write a row or a column of `Chat`, as values, and what a sequence of
-- them leaves. `Update`, `RecordView`, `LinkDiscussion`, `UnlinkDiscussion` and the mirrors of posts write
-- other ones (titles, photos, handles, views, the links of chats to each other, messages).
use sobhemessenger.Common.{ℕ, ℤ, Bool, Option, Uuid, List, [], ◌∷◌}
use sobhemessenger.Common.Text.{Runes}
use sobhemessenger.Httpx.{Fault, Result, ok, err, ◌>>=◌}
use sobhemessenger.Messaging.Permissions.{Role, Overrides}
use sobhemessenger.Groups.Chat.{Chat}
use sobhemessenger.Groups.Service as Members
use sobhemessenger.Groups.Service.Roles as Roles
use sobhemessenger.Groups.Service.Joining as Joining
use sobhemessenger.Groups.Service.Settings as Settings

-- The first argument is the caller.
pub data Op : Type 0 where
  adding : Uuid → List Uuid → Op
  removing : Uuid → Uuid → Op
  leaving : Uuid → Op
  ranking : Uuid → Uuid → Role → Overrides → Op
  transferring : Uuid → Uuid → Op
  deleting : Uuid → Op
  defining : Uuid → Uuid → Runes → Overrides → ℤ → Op
  redefining : Uuid → Uuid → Runes → Overrides → ℤ → Op
  dropping : Uuid → Uuid → Op
  assigning : Uuid → Uuid → Option Uuid → Op
  linking : Uuid → ℕ → Uuid → ℕ → Option ℕ → Option ℕ → Op
  revoking : Uuid → Uuid → Op
  redeeming : Uuid → ℕ → ℕ → Op
  joining : Uuid → Op
  resolving : Uuid → Uuid → Bool → Op
  configuring : Uuid → (Runes → Bool) → Settings.Settings → Op
  commenting : Uuid → Op

-- Drops the answer of an operation and keeps the chat.
abbrev pub chat_of {ℓ} : {A : Type ℓ} → Result Fault (A × Chat) → Result Fault Chat
chat_of r = r >>= λ p. ok p.1

unfoldable pub run : Op → Chat → Result Fault Chat
run (adding actor users) chat = chat_of (Members.add_members actor users chat)
run (removing actor target) chat = Members.remove_member actor target chat
run (leaving user) chat = Members.leave user chat
run (ranking actor target role permissions) chat =
    Members.set_role actor target role permissions chat
run (transferring actor target) chat = Members.transfer_ownership actor target chat
run (deleting actor) chat = Members.delete_chat actor chat
run (defining actor id name permissions rank) chat =
    Roles.create_role actor id name permissions rank chat
run (redefining actor id name permissions rank) chat =
    Roles.update_role actor id name permissions rank chat
run (dropping actor id) chat = Roles.delete_role actor id chat
run (assigning actor target role) chat = Roles.assign_role actor target role chat
run (linking actor now id slug member_limit expires_at) chat =
    Joining.create_invite_link actor now id slug member_limit expires_at chat
run (revoking actor id) chat = Joining.revoke_invite_link actor id chat
run (redeeming user now slug) chat = chat_of (Joining.join_by_invite user now slug chat)
run (joining user) chat = chat_of (Joining.join_public user chat)
run (resolving actor target approve) chat = Joining.resolve_join_request actor target approve chat
run (configuring actor has_set settings) chat = Settings.update_settings actor has_set settings chat
run (commenting user) chat = Settings.join_discussion user chat

abbrev pub settle : Result Fault Chat → Chat → Chat
settle (ok after) chat = after
settle (err _) chat = chat

-- A refused operation leaves the chat as it was.
unfoldable pub apply : Op → Chat → Chat
unfolding run
apply op chat = settle (run op chat) chat

unfoldable pub apply_all : List Op → Chat → Chat
unfolding apply
apply_all [] chat = chat
apply_all (op ∷ ops) chat = apply_all ops (apply op chat)
