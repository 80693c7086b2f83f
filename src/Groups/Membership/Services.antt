-- ===== src/Groups/Membership/Services.antt =====
-- The operations of the service on members keep the invariant of the members.
use sobhemessenger.Common.{◌≡◌, refl, false, not, ◌&&◌, Uuid, arith, inl, leb, ltb, List, [], ◌∷◌}
use sobhemessenger.Httpx.{
  Result, ok, err, Holds, if-Holds, bind-Holds, after-Holds, guard-Holds, map_err-Holds,
}
use sobhemessenger.Messaging.Permissions.{
  Role, owner, member, Overrides, add_members as may_add_members, remove_members, manage_admins,
}
use sobhemessenger.Groups.Chat.{RepoError, Chat}
use sobhemessenger.Groups.Repository as Repo
use sobhemessenger.Groups.Gate.{
  seen, seen-row, rank-is_owner, context-Holds, authorize-Holds, target-Holds,
}
use sobhemessenger.Groups.Membership.{Inv}
use sobhemessenger.Groups.Membership.Statements.{
  add_member-Inv, remove_member-Inv, set_role-Inv, transfer_ownership-Inv,
}
use sobhemessenger.Groups.Service.{
  add_each, add_members, after, remove_member, leave, set_role, transfer_ownership, delete_chat,
  rank, owner_only, is_grantable, when_not_member, always_internal, when_not_found,
  reject_unknown_permissions,
}

pub after-Inv :
    (r : Result RepoError Chat) (chat : Chat) → Holds Inv r → Inv chat → Inv (after r chat)
after-Inv (ok c) chat h i = h
after-Inv (err e) chat h i = i

pub grantable_plain : (r : Role) → not (is_grantable r) ≡ false → Repo.is_owner r ≡ false
grantable_plain owner h = ground arith
grantable_plain _ h = refl

add_each-Inv : (us : List Uuid) (chat : Chat) → Inv chat → Inv (add_each us chat).1
unfolding add_each
add_each-Inv [] chat i = i
add_each-Inv (u ∷ us) chat i =
    add_each-Inv us (after (Repo.add_member u member chat) chat)
      (after-Inv (Repo.add_member u member chat) chat (add_member-Inv u chat i) i)

module _ (actor : Uuid) (chat : Chat) (i : Inv chat) where
  pub add_members-Inv : (users : List Uuid) → Holds (λ r. Inv r.1) (add_members actor users chat)
  unfolding add_members
  add_members-Inv users =
      authorize-Holds (λ r. Inv r.1) actor chat may_add_members _ λ _ _ _. add_each-Inv users chat i

  -- A target below the actor is not the owner.
  pub remove-Inv : (target : Uuid) → Holds Inv (remove_member actor target chat)
  unfolding remove_member
  remove-Inv target = authorize-Holds Inv actor chat remove_members _ λ _ _ _.
      target-Holds Inv target chat _ λ _.
        guard-Holds Inv (leb (rank (seen target chat).role) (rank (seen actor chat).role)) _ _
          λ below. map_err-Holds Inv when_not_member (Repo.remove_member target chat) (
            remove_member-Inv target chat i false λ m found. inl (
              rank-is_owner m.role (rank (seen actor chat).role)
                (rw (← (seen-row target chat m found).0) below)))

  pub leave-Inv : Holds Inv (leave actor chat)
  unfolding leave
  leave-Inv = context-Holds Inv actor chat when_not_found _ λ _.
      if-Holds Inv (not (seen actor chat).is_member) _ _ (λ _. tt)
        λ _.
          if-Holds Inv
            (Repo.is_owner (seen actor chat).role && ltb 1 (seen actor chat).member_count) _ _
            (λ _. tt)
            λ may. after-Holds Inv always_internal (Repo.remove_member actor chat) _ (
              remove_member-Inv actor chat i (leb (seen actor chat).member_count 1)
                λ m found. ground (arith, may, seen-row actor chat m found))

  pub set_role-Inv' :
      (target : Uuid) (role : Role) (permissions : Overrides)
      → Holds Inv (set_role actor target role permissions chat)
  unfolding set_role
  set_role-Inv' target role permissions = authorize-Holds Inv actor chat manage_admins _ λ _ _ _.
      if-Holds Inv (not (is_grantable role)) _ _ (λ _. tt)
        λ grantable.
          if-Holds Inv (ltb (rank role) (rank (seen actor chat).role)) _ _ (λ _. tt)
            λ _.
              bind-Holds Inv (reject_unknown_permissions permissions (seen actor chat).chat_type) _
                λ _.
                  map_err-Holds Inv when_not_member (Repo.set_role target role permissions chat)
                    (set_role-Inv target chat i role permissions (grantable_plain role grantable))

  pub transfer-Inv : (target : Uuid) → Holds Inv (transfer_ownership actor target chat)
  unfolding transfer_ownership
  transfer-Inv target = bind-Holds Inv (owner_only actor chat) _ λ _.
      map_err-Holds Inv when_not_member (Repo.transfer_ownership actor target chat)
        (transfer_ownership-Inv actor target chat i)

  pub delete-Inv : Holds Inv (delete_chat actor chat)
  unfolding delete_chat Repo.delete_chat
  delete-Inv = bind-Holds Inv (owner_only actor chat) _ λ _. record {
    distinct = i.distinct;
    counted = i.counted;
    mirrored = i.mirrored;
    single = i.single;
    present = inl refl;
  }
