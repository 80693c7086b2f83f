-- ===== src/Groups/Membership/Settings.antt =====
-- The settings of a chat and its commenters beside its members and its owner.
use sobhemessenger.Common.{Bool, Uuid, refl, inr}
use sobhemessenger.Common.Text.{Runes}
use sobhemessenger.Httpx.{Result, ok, err, Holds, Holds-map, if-Holds, bind-Holds}
use sobhemessenger.Messaging.Permissions.{member, edit_group}
use sobhemessenger.Groups.Chat.{RepoError, Chat, already_member, full}
use sobhemessenger.Groups.Repository as Repo
use sobhemessenger.Groups.Gate.{seen, context-Holds, authorize-Holds}
use sobhemessenger.Groups.Service.{always_internal, reject_unknown_permissions}
use sobhemessenger.Groups.Service.Settings.{
  Settings, update_settings, with_settings, join_discussion, commented, is_outside, normalised,
  is_missing,
}
use sobhemessenger.Groups.Membership.{Inv}
use sobhemessenger.Groups.Membership.Statements.{add_member-Inv}
use sobhemessenger.Groups.Membership.Ownership.{Kept, add_member-Kept}

-- What holds of the chat as it is and with its settings rewritten holds after `UpdateSettings`.
update_settings-Holds {κ} :
    (P : Chat → Type κ) (actor : Uuid) (chat : Chat) (has_set : Runes → Bool) (settings : Settings)
    → P (with_settings settings chat)
    → Holds P (update_settings actor has_set settings chat)
unfolding update_settings
update_settings-Holds P actor chat has_set settings h =
    authorize-Holds P actor chat edit_group _ λ _ _ _.
      if-Holds P (is_outside 0 21600 settings.slow_mode_seconds) _ _ (λ _. tt)
        λ _.
          if-Holds P (is_outside 2 1000000 settings.max_members) _ _ (λ _. tt)
            λ _.
              bind-Holds P
                (reject_unknown_permissions settings.default_permissions
                  (seen actor chat).chat_type)
                _
                λ _.
                  bind-Holds P (normalised settings.sticker_set) _
                    λ slug. if-Holds P (is_missing has_set slug) _ (ok _) (λ _. tt) (λ _. h)

commented-Holds {κ} :
    (P : Chat → Type κ) (r : Result RepoError Chat) (chat : Chat)
    → P chat
    → Holds P r
    → Holds P (commented r chat)
commented-Holds P (ok after) chat same h = h
commented-Holds P (err already_member) chat same h = same
commented-Holds P (err full) chat same h = tt
commented-Holds P (err _) chat same h = tt

join_discussion-Holds {κ} :
    (P : Chat → Type κ) (user : Uuid) (chat : Chat)
    → P chat
    → Holds P (Repo.add_member user member chat)
    → Holds P (join_discussion user chat)
unfolding join_discussion
join_discussion-Holds P user chat same h = context-Holds P user chat always_internal _ λ _.
    if-Holds P (seen user chat).is_member (ok chat) _ (λ _. same)
      λ _. commented-Holds P (Repo.add_member user member chat) chat same h

module _ (actor : Uuid) (chat : Chat) where
  pub update_settings-Inv :
      Inv chat
      → (has_set : Runes → Bool) (settings : Settings)
      → Holds Inv (update_settings actor has_set settings chat)
  update_settings-Inv i has_set settings =
      update_settings-Holds Inv actor chat has_set settings (record {
        distinct = i.distinct;
        counted = i.counted;
        mirrored = i.mirrored;
        single = i.single;
        present = i.present;
      })

  pub join_discussion-Inv : Inv chat → Holds Inv (join_discussion actor chat)
  join_discussion-Inv i = join_discussion-Holds Inv actor chat i (add_member-Inv actor chat i)

  pub update_settings-Kept :
      (has_set : Runes → Bool) (settings : Settings)
      → Holds (Kept chat) (update_settings actor has_set settings chat)
  update_settings-Kept has_set settings =
      update_settings-Holds (Kept chat) actor chat has_set settings (inr refl)

  pub join_discussion-Kept : Holds (Kept chat) (join_discussion actor chat)
  join_discussion-Kept = join_discussion-Holds (Kept chat) actor chat (inr refl) (
      Holds-map (Repo.add_member actor member chat) (add_member-Kept actor chat)
        (λ c same. inr same))
