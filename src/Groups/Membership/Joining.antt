-- ===== src/Groups/Membership/Joining.antt =====
-- The operations on links and join requests keep the invariant of the members.
use sobhemessenger.Common.{ℕ, Bool, Uuid, Option}
use sobhemessenger.Httpx.{Result, ok, err, Holds, if-Holds, bind-Holds, map_err-Holds}
use sobhemessenger.Messaging.Permissions.{member, add_members, manage_invites}
use sobhemessenger.Messaging.Context.{is_true}
use sobhemessenger.Groups.Chat.{RepoError, Chat, no_chat, already_member}
use sobhemessenger.Groups.Repository as Repo
use sobhemessenger.Groups.Invites as Links
use sobhemessenger.Groups.Gate.{seen, context-Holds, authorize-Holds}
use sobhemessenger.Groups.Membership.{Inv}
use sobhemessenger.Groups.Membership.Statements.{add_member-Inv}
use sobhemessenger.Groups.Membership.Requests.{
  create_join_request-Inv, resolve_join_request-Inv, invites-Inv,
}
use sobhemessenger.Groups.Service.{when_not_found}
use sobhemessenger.Groups.Service.Joining.{
  create_invite_link, revoke_invite_link, join_by_invite, join_public, resolve_join_request,
  redeemed, subscribed, when_missing, is_past, is_out_of_range,
}

count_invite_use-Inv : (id : Uuid) (chat : Chat) → Inv chat → Inv (Links.count_invite_use id chat)
unfolding Links.count_invite_use
count_invite_use-Inv id chat i = invites-Inv id chat i _

redeemed-Inv :
    (link : Uuid) (r : Result RepoError Chat) (chat : Chat)
    → Inv chat
    → Holds Inv r
    → Holds (λ p. Inv p.1) (redeemed link r chat)
unfolding redeemed
redeemed-Inv link (ok after) chat i h = count_invite_use-Inv link after h
redeemed-Inv link (err already_member) chat i h = i
redeemed-Inv link (err _) chat i h = tt

subscribed-Inv :
    (r : Result RepoError Chat) (chat : Chat)
    → Inv chat
    → Holds Inv r
    → Holds (λ p. Inv p.1) (subscribed r chat)
unfolding subscribed
subscribed-Inv (ok after) chat i h = h
subscribed-Inv (err already_member) chat i h = i
subscribed-Inv (err _) chat i h = tt

module _ (actor : Uuid) (chat : Chat) (i : Inv chat) where
  pub create_invite_link-Inv :
      (now : ℕ) (id : Uuid) (slug : ℕ) (member_limit expires_at : Option ℕ)
      → Holds Inv (create_invite_link actor now id slug member_limit expires_at chat)
  unfolding create_invite_link Links.create_invite_link
  create_invite_link-Inv now id slug member_limit expires_at =
      authorize-Holds Inv actor chat manage_invites _ λ _ _ _.
        if-Holds Inv (is_past now expires_at) _ _ (λ _. tt)
          λ _.
            if-Holds Inv (is_out_of_range member_limit) _ (ok _) (λ _. tt)
              λ _. invites-Inv actor chat i _

  pub revoke_invite_link-Inv : (id : Uuid) → Holds Inv (revoke_invite_link actor id chat)
  unfolding revoke_invite_link Links.revoke_invite_link
  revoke_invite_link-Inv id = authorize-Holds Inv actor chat manage_invites _ λ _ _ _.
      map_err-Holds Inv when_missing (Links.revoke_invite_link id chat) (
        if-Holds Inv (Links.has_link id chat.invites) (ok _) (err no_chat)
          (λ _. invites-Inv actor chat i _) (λ _. tt))

  pub join_by_invite-Inv :
      (now slug : ℕ) → Holds (λ p. Inv p.1) (join_by_invite actor now slug chat)
  unfolding join_by_invite
  join_by_invite-Inv now slug =
      bind-Holds (λ p. Inv p.1) _ _
        λ link.
          if-Holds (λ p. Inv p.1) (is_true chat.join_requires_approval) (ok _) _
            (λ _. create_join_request-Inv actor chat i)
            (λ _.
              redeemed-Inv link.id (Repo.add_member actor member chat) chat i
                (add_member-Inv actor chat i))

  pub join_public-Inv : Holds (λ p. Inv p.1) (join_public actor chat)
  unfolding join_public
  join_public-Inv =
      context-Holds (λ p. Inv p.1) actor chat when_not_found _
        λ _.
          if-Holds (λ p. Inv p.1) (seen actor chat).is_member (ok _) _ (λ _. i)
            λ _.
              if-Holds (λ p. Inv p.1) (is_true chat.join_requires_approval) (ok _) _
                (λ _. create_join_request-Inv actor chat i)
                (λ _.
                  subscribed-Inv (Repo.add_member actor member chat) chat i
                    (add_member-Inv actor chat i))

  pub resolve-Inv :
      (target : Uuid) (approve : Bool) → Holds Inv (resolve_join_request actor target approve chat)
  unfolding resolve_join_request
  resolve-Inv target approve = authorize-Holds Inv actor chat add_members _ λ alive _ _.
      map_err-Holds Inv when_missing (Repo.resolve_join_request target approve chat)
        (resolve_join_request-Inv target chat i approve alive)
