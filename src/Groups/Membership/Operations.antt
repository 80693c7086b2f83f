-- ===== src/Groups/Membership/Operations.antt =====
-- Each operation of the service leaves as many owners, unless it is `SetRole` on the owner.
use sobhemessenger.Common.{ℤ, ◌≡◌, refl, inl, inr, true, Uuid, bit, if◌then◌else◌, leb, ◌==◌}
use sobhemessenger.Common.Assoc.{lookup, delete}
use sobhemessenger.Common.Text.{Runes}
use sobhemessenger.Httpx.{ok, err, Holds, if-Holds, bind-Holds, map_err-Holds}
use sobhemessenger.Messaging.Permissions.{
  member, Overrides, add_members as may_add_members, manage_admins, manage_invites,
}
use sobhemessenger.Messaging.Context.{is_true}
use sobhemessenger.Groups.Chat.{Chat, no_chat, role_not_found, role_taken, too_many_roles}
use sobhemessenger.Groups.Repository as Repo
use sobhemessenger.Groups.Invites as Links
use sobhemessenger.Groups.Gate.{seen, context-Holds, authorize-Holds, target-Holds}
use sobhemessenger.Groups.Service as Members
use sobhemessenger.Groups.Service.Roles as Roles
use sobhemessenger.Groups.Service.Joining as Joining
use sobhemessenger.Groups.Operations.{
  Op, adding, removing, leaving, ranking, transferring, deleting, defining, redefining, dropping,
  assigning, linking, revoking, redeeming, joining, resolving, configuring, commenting, run,
}
use sobhemessenger.Groups.Membership.{Inv, is_active_owner}
use sobhemessenger.Groups.Membership.Roles.{total-forget_role}
use sobhemessenger.Groups.Membership.Ownership.{
  Kept, add_member-Kept, assign_role-Kept, transfer-Kept, resolve_join_request-Kept,
  create_join_request-Kept,
}
use sobhemessenger.Groups.Membership.SoleOwner.{
  add_each_same, joined-Kept, redeemed-Kept, chat_of-Kept, spares_owner, remove-Kept, leave-Kept,
  rank-Kept,
}
use sobhemessenger.Groups.Membership.Settings.{update_settings-Kept, join_discussion-Kept}

module _ (chat : Chat) (i : Inv chat) where
  define-Kept :
      (id : Uuid) (name : Runes) (permissions : Overrides) (rank : ℤ)
      → Holds (Kept chat) (Repo.create_role id name permissions rank chat)
  unfolding Repo.create_role
  define-Kept id name permissions rank =
      if-Holds (Kept chat) (leb Repo.max_roles_per_chat (Repo.roles_of chat.id chat.roles))
        (err too_many_roles) _ (λ _. tt)
        λ _.
          if-Holds (Kept chat) (Repo.is_taken chat.id name chat.roles) (err role_taken) (ok _)
            (λ _. tt) (λ _. inr refl)

  redefine-Kept :
      (id : Uuid) (name : Runes) (permissions : Overrides) (rank : ℤ)
      → Holds (Kept chat) (Repo.update_role id name permissions rank chat)
  unfolding Repo.update_role
  redefine-Kept id name permissions rank =
      if-Holds (Kept chat) (Repo.is_of chat.id (lookup id chat.roles)) _ (err role_not_found)
        (λ _.
          if-Holds (Kept chat) (Repo.is_taken chat.id name (delete id chat.roles)) (err role_taken)
            (ok _) (λ _. tt) (λ _. inr refl))
        (λ _. tt)

  drop-Kept : (id : Uuid) → Holds (Kept chat) (Repo.delete_role id chat)
  unfolding Repo.delete_role
  drop-Kept id =
      if-Holds (Kept chat) (Repo.is_of chat.id (lookup id chat.roles)) (ok _) (err role_not_found)
        (λ _. inr (total-forget_role (λ m. bit (is_active_owner m)) id chat.members (λ n. refl)))
        (λ _. tt)

  pub run-Kept : (op : Op) → spares_owner op chat ≡ true → Holds (Kept chat) (run op chat)
  unfolding run Members.add_members Members.transfer_ownership Members.delete_chat Repo.delete_chat
      Roles.create_role Roles.update_role Roles.delete_role Roles.assign_role
      Joining.create_invite_link Links.create_invite_link Joining.revoke_invite_link
      Links.revoke_invite_link Joining.join_by_invite Joining.join_public
      Joining.resolve_join_request
  run-Kept (adding actor users) s = chat_of-Kept chat _ (
      authorize-Holds (λ p. Kept chat p.1) actor chat may_add_members _
        λ _ _ _. inr (add_each_same users chat))
  run-Kept (removing actor target) s = remove-Kept actor chat i target
  run-Kept (leaving user) s = leave-Kept user chat i
  run-Kept (ranking actor target role permissions) s =
      rank-Kept actor chat i target role permissions s
  run-Kept (transferring actor target) s =
      bind-Holds (Kept chat) (Members.owner_only actor chat) _ λ _.
        map_err-Holds (Kept chat) Members.when_not_member
          (Repo.transfer_ownership actor target chat) (transfer-Kept actor chat i target)
  run-Kept (deleting actor) s =
      bind-Holds (Kept chat) (Members.owner_only actor chat) _ λ _. inl refl
  run-Kept (defining actor id name permissions rank) s =
      authorize-Holds (Kept chat) actor chat manage_admins _ λ _ _ _.
        bind-Holds (Kept chat)
          (Roles.validate_role name permissions rank (seen actor chat).chat_type) _
          λ trimmed.
            bind-Holds (Kept chat)
              (Roles.within_own_grant permissions (seen actor chat).permissions) _
              λ _.
                map_err-Holds (Kept chat) Roles.when_role_error
                  (Repo.create_role id trimmed permissions rank chat)
                  (define-Kept id trimmed permissions rank)
  run-Kept (redefining actor id name permissions rank) s =
      authorize-Holds (Kept chat) actor chat manage_admins _ λ _ _ _.
        bind-Holds (Kept chat)
          (Roles.validate_role name permissions rank (seen actor chat).chat_type) _
          λ trimmed.
            bind-Holds (Kept chat)
              (Roles.within_own_grant permissions (seen actor chat).permissions) _
              λ _.
                map_err-Holds (Kept chat) Roles.when_role_error
                  (Repo.update_role id trimmed permissions rank chat)
                  (redefine-Kept id trimmed permissions rank)
  run-Kept (dropping actor id) s = authorize-Holds (Kept chat) actor chat manage_admins _ λ _ _ _.
      map_err-Holds (Kept chat) Roles.when_role_error (Repo.delete_role id chat) (drop-Kept id)
  run-Kept (assigning actor target role) s =
      authorize-Holds (Kept chat) actor chat manage_admins _ λ _ _ _.
        target-Holds (Kept chat) target chat _ λ _.
          bind-Holds (Kept chat)
            (if target == actor
              then ok tt
              else Members.outranks (seen actor chat) (seen target chat))
            _
            λ _.
              map_err-Holds (Kept chat) Roles.when_role_error (Repo.assign_role target role chat)
                (assign_role-Kept target chat i role)
  run-Kept (linking actor now id slug member_limit expires_at) s =
      authorize-Holds (Kept chat) actor chat manage_invites _ λ _ _ _.
        if-Holds (Kept chat) (Joining.is_past now expires_at) _ _ (λ _. tt)
          λ _.
            if-Holds (Kept chat) (Joining.is_out_of_range member_limit) _ (ok _) (λ _. tt)
              (λ _. inr refl)
  run-Kept (revoking actor id) s = authorize-Holds (Kept chat) actor chat manage_invites _ λ _ _ _.
      map_err-Holds (Kept chat) Joining.when_missing (Links.revoke_invite_link id chat) (
        if-Holds (Kept chat) (Links.has_link id chat.invites) (ok _) (err no_chat) (λ _. inr refl)
          (λ _. tt))
  run-Kept (redeeming user now slug) s = chat_of-Kept chat _ (
      bind-Holds (λ p. Kept chat p.1) _ _
        λ link.
          if-Holds (λ p. Kept chat p.1) (is_true chat.join_requires_approval) (ok _) _
            (λ _. create_join_request-Kept user chat)
            (λ _.
              redeemed-Kept link.id (Repo.add_member user member chat) chat
                (add_member-Kept user chat)))
  run-Kept (joining user) s = chat_of-Kept chat _ (
      context-Holds (λ p. Kept chat p.1) user chat Members.when_not_found _
        λ _.
          if-Holds (λ p. Kept chat p.1) (seen user chat).is_member (ok _) _ (λ _. inr refl)
            λ _.
              if-Holds (λ p. Kept chat p.1) (is_true chat.join_requires_approval) (ok _) _
                (λ _. create_join_request-Kept user chat)
                (λ _.
                  joined-Kept (Repo.add_member user member chat) chat (add_member-Kept user chat)))
  run-Kept (resolving actor target approve) s =
      authorize-Holds (Kept chat) actor chat may_add_members _ λ alive _ _.
        map_err-Holds (Kept chat) Joining.when_missing
          (Repo.resolve_join_request target approve chat)
          (resolve_join_request-Kept target chat i approve alive)
  run-Kept (configuring actor has_set settings) s = update_settings-Kept actor chat has_set settings
  run-Kept (commenting user) s = join_discussion-Kept user chat
