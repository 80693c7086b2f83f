-- ===== src/Groups/Membership/SoleOwner.antt =====
-- The operations of the service and the owner of the chat.
use sobhemessenger.Common.{
  ◌≡◌, refl, ◌∙◌, inl, inr, Bool, true, false, not, ◌&&◌, Uuid, arith, leb, ltb, List, [], ◌∷◌,
}
use sobhemessenger.Httpx.{
  Fault, Result, ok, err, Holds, if-Holds, bind-Holds, map_err-Holds, after-Holds, guard-Holds,
}
use sobhemessenger.Messaging.Permissions.{Role, member, Overrides, remove_members, manage_admins}
use sobhemessenger.Groups.Chat.{Chat, RepoError, already_member}
use sobhemessenger.Groups.Repository as Repo
use sobhemessenger.Groups.Invites as Links
use sobhemessenger.Groups.Gate.{
  seen, seen-row, rank-is_owner, context-Holds, authorize-Holds, target-Holds,
}
use sobhemessenger.Groups.Service as Members
use sobhemessenger.Groups.Service.Joining as Joining
use sobhemessenger.Groups.Operations.{Op, ranking, chat_of}
use sobhemessenger.Groups.Membership.{Inv, owners}
use sobhemessenger.Groups.Membership.Services.{grantable_plain}
use sobhemessenger.Groups.Membership.Ownership.{
  Kept, add_member-Kept, set_role-Kept, remove_member-Kept,
}

pub after_same :
    (u : Uuid) (chat : Chat)
    → owners (Members.after (Repo.add_member u member chat) chat) ≡ owners chat
after_same u chat = go (Repo.add_member u member chat) (add_member-Kept u chat)
  where
    go :
        (r : Result RepoError Chat)
        → Holds (λ c. owners c ≡ owners chat) r
        → owners (Members.after r chat) ≡ owners chat
    go (ok c) h = h
    go (err e) h = refl

pub add_each_same :
    (us : List Uuid) (chat : Chat) → owners (Members.add_each us chat).1 ≡ owners chat
unfolding Members.add_each
add_each_same [] chat = refl
add_each_same (u ∷ us) chat =
    add_each_same us (Members.after (Repo.add_member u member chat) chat) ∙ after_same u chat

pub joined-Kept :
    (r : Result RepoError Chat) (chat : Chat)
    → Holds (λ c. owners c ≡ owners chat) r
    → Holds (λ p. Kept chat p.1) (Joining.subscribed r chat)
unfolding Joining.subscribed
joined-Kept (ok after) chat h = inr h
joined-Kept (err already_member) chat h = inr refl
joined-Kept (err _) chat h = tt

pub redeemed-Kept :
    (link : Uuid) (r : Result RepoError Chat) (chat : Chat)
    → Holds (λ c. owners c ≡ owners chat) r
    → Holds (λ p. Kept chat p.1) (Joining.redeemed link r chat)
unfolding Joining.redeemed Links.count_invite_use
redeemed-Kept link (ok after) chat h = inr h
redeemed-Kept link (err already_member) chat h = inr refl
redeemed-Kept link (err _) chat h = tt

pub chat_of-Kept {ℓ} :
    {A : Type ℓ} (chat : Chat) (r : Result Fault (A × Chat))
    → Holds (λ p. Kept chat p.1) r
    → Holds (Kept chat) (chat_of r)
chat_of-Kept chat (ok p) h = h
chat_of-Kept chat (err e) h = tt

-- Whether an operation is no `SetRole` on the owner.
abbrev pub spares_owner : Op → Chat → Bool
spares_owner (ranking actor target role permissions) chat =
    not (Repo.is_owner (seen target chat).role)
spares_owner _ chat = true

module _ (actor : Uuid) (chat : Chat) (i : Inv chat) where
  pub remove-Kept : (target : Uuid) → Holds (Kept chat) (Members.remove_member actor target chat)
  unfolding Members.remove_member
  remove-Kept target = authorize-Holds (Kept chat) actor chat remove_members _ λ _ _ _.
      target-Holds (Kept chat) target chat _ λ _.
        guard-Holds (Kept chat)
          (leb (Members.rank (seen target chat).role) (Members.rank (seen actor chat).role)) _ _
          λ below.
            map_err-Holds (Kept chat) Members.when_not_member (Repo.remove_member target chat) (
              remove_member-Kept target chat i false λ m found. inl (
                rank-is_owner m.role (Members.rank (seen actor chat).role)
                  (rw (← (seen-row target chat m found).0) below)))

  pub leave-Kept : Holds (Kept chat) (Members.leave actor chat)
  unfolding Members.leave
  leave-Kept = context-Holds (Kept chat) actor chat Members.when_not_found _ λ _.
      if-Holds (Kept chat) (not (seen actor chat).is_member) _ _ (λ _. tt)
        λ _.
          if-Holds (Kept chat)
            (Repo.is_owner (seen actor chat).role && ltb 1 (seen actor chat).member_count) _ _
            (λ _. tt)
            λ may.
              after-Holds (Kept chat) Members.always_internal (Repo.remove_member actor chat) _ (
                remove_member-Kept actor chat i (leb (seen actor chat).member_count 1)
                  λ m found. ground (arith, may, seen-row actor chat m found))

  pub rank-Kept :
      (target : Uuid) (role : Role) (permissions : Overrides)
      → not (Repo.is_owner (seen target chat).role) ≡ true
      → Holds (Kept chat) (Members.set_role actor target role permissions chat)
  unfolding Members.set_role
  rank-Kept target role permissions spared =
      authorize-Holds (Kept chat) actor chat manage_admins _ λ _ _ _.
        if-Holds (Kept chat) (not (Members.is_grantable role)) _ _ (λ _. tt)
          λ grantable.
            if-Holds (Kept chat) (ltb (Members.rank role) (Members.rank (seen actor chat).role)) _ _
              (λ _. tt)
              λ _.
                bind-Holds (Kept chat)
                  (Members.reject_unknown_permissions permissions (seen actor chat).chat_type) _
                  λ _.
                    map_err-Holds (Kept chat) Members.when_not_member
                      (Repo.set_role target role permissions chat)
                      (set_role-Kept target chat i role permissions (grantable_plain role grantable)
                        λ m found. ground (arith, spared, seen-row target chat m found))
