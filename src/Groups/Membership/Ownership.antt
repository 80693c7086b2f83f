-- ===== src/Groups/Membership/Ownership.antt =====
-- The owner of a chat: the operations, but for `SetRole` on the owner, leave the number of owners.
use sobhemessenger.Common.{
  ◌≡◌, refl, ◌⊎◌, inl, inr, Bool, true, false, none, some, Option, Uuid, bit, arith, if_intro,
  if◌then◌else◌, leb,
}
use sobhemessenger.Common.Assoc.{lookup, insert, value-le-total}
use sobhemessenger.Httpx.{ok, err, Holds, if-Holds, on_row-Holds}
use sobhemessenger.Messaging.Permissions.{Role, owner, admin, member, Overrides}
use sobhemessenger.Groups.Chat.{
  Member, Chat, no_chat, full, role_not_found, approved, rejected, active,
}
use sobhemessenger.Groups.Repository as Repo
use sobhemessenger.Groups.Membership.{
  Inv, is_active_owner, is_past_owner, owners, how_many-set_member,
}
use sobhemessenger.Groups.Membership.Statements.{active-row}
use sobhemessenger.Groups.Membership.Requests.{requests-Inv}

-- A later state of a chat has as many owners, or is deleted.
abbrev pub Kept : Chat → Chat → Type 0
Kept chat after = (after.deleted ≡ true) ⊎ (owners after ≡ owners chat)

module _ (u : Uuid) (chat : Chat) where
  abbrev pub Same : Chat → Type 0
  Same after = owners after ≡ owners chat

  upsert-Kept :
      (o : Option Member) → lookup u chat.members ≡ o → Holds Same (Repo.upsert u member o chat)
  unfolding Repo.bump_up
  upsert-Kept none e =
      ground (arith, how_many-set_member is_active_owner u (Repo.new_member member) chat, e)
  upsert-Kept (some m) e =
      if-Holds Same m.left (ok _) (err _)
        (λ gone. ground (
          arith,
          how_many-set_member is_active_owner u (record m { left = false; role = member }) chat,
          e,
          gone,
        ))
        (λ _. tt)

  pub add_member-Kept : Holds Same (Repo.add_member u member chat)
  unfolding Repo.add_member
  add_member-Kept =
      if-Holds Same chat.deleted (err no_chat) _ (λ _. tt)
        λ _.
          if-Holds Same (leb (Repo.limit_of chat.max_members) chat.member_count) (err full) _
            (λ _. tt) (λ _. upsert-Kept (lookup u chat.members) refl)

module _ (u : Uuid) (chat : Chat) (i : Inv chat) where
  rewrite-Kept :
      (m n : Member)
      → active u chat ≡ some m
      → is_active_owner n ≡ Repo.is_owner m.role
      → owners (Repo.set_member u n chat) ≡ owners chat
  rewrite-Kept m n found same =
      ground (arith, how_many-set_member is_active_owner u n chat, active-row u chat m found, same)

  pub set_role-Kept :
      (role : Role) (permissions : Overrides)
      → Repo.is_owner role ≡ false
      → ((m : Member) → active u chat ≡ some m → Repo.is_owner m.role ≡ false)
      → Holds (Kept chat) (Repo.set_role u role permissions chat)
  unfolding Repo.set_role
  set_role-Kept role permissions plain spared = on_row-Holds (Kept chat) _ _ _ λ m found. inr (
      rewrite-Kept m (record m { role = role; permissions = Repo.encode permissions }) found
        (ground (arith, plain, spared m found)))

  pub assign_role-Kept : (role : Option Uuid) → Holds (Kept chat) (Repo.assign_role u role chat)
  unfolding Repo.assign_role
  assign_role-Kept role = on_row-Holds (Kept chat) _ _ _ λ m found.
      if-Holds (Kept chat) (Repo.is_assignable role chat) (ok _) (err role_not_found)
        (λ _. inr (
          rewrite-Kept m (record m { custom_role = role }) found
            (ground (arith, active-row u chat m found))))
        (λ _. tt)

  pub remove_member-Kept :
      (gone : Bool)
      → ((m : Member) → active u chat ≡ some m → (Repo.is_owner m.role ≡ false) ⊎ (gone ≡ true))
      → Holds (λ c. Kept chat (if gone then Repo.delete_chat c else c)) (Repo.remove_member u chat)
  unfolding Repo.remove_member Repo.bump_down Repo.delete_chat
  remove_member-Kept gone plain =
      on_row-Holds (λ c. Kept chat (if gone then Repo.delete_chat c else c)) _ _ _
        λ m found.
          if_intro (Kept chat) gone _ _ (λ _. inl refl)
            λ stays. inr (
              rewrite-Kept m (record m { left = true }) found
                (ground (arith, plain m found, stays)))

  -- An active owner is the only one.
  pub transfer-Kept : (to : Uuid) → Holds (Kept chat) (Repo.transfer_ownership u to chat)
  unfolding Repo.transfer_ownership Repo.promote
  transfer-Kept to = on_row-Holds (Kept chat) (active u chat) _ _ λ m found.
      if-Holds (Kept chat) (Repo.is_owner m.role) _ (err no_chat)
        (λ own.
          let c : Chat = Repo.set_member u (record m { role = admin }) chat in
          let one : (owners c ≡ 0) × (owners chat ≡ 1) = ground (
            arith,
            how_many-set_member is_active_owner u (record m { role = admin }) chat,
            active-row u chat m found,
            own,
            i.single,
          ) in
          on_row-Holds (Kept chat) (active to c) _ _ λ k there.
            let n : Member = record k { role = owner; permissions = none } in
            inr (
              ground (
                arith,
                one,
                how_many-set_member is_active_owner to n c,
                active-row to c k there,
                value-le-total (λ m. bit (is_active_owner m)) to c.members,
              )))
        (λ _. tt)

  reinstate-Kept :
      chat.deleted ≡ false
      → (o : Option Member) → lookup u chat.members ≡ o
      → owners (Repo.bump_up (Repo.set_member u (Repo.reinstate o) chat)) ≡ owners chat
  unfolding Repo.bump_up
  reinstate-Kept alive none e =
      ground (arith, how_many-set_member is_active_owner u (Repo.new_member member) chat, e)
  reinstate-Kept alive (some m) e = ground (
    arith,
    how_many-set_member is_active_owner u (record m { left = false }) chat,
    value-le-total (λ m. bit (is_past_owner m)) u chat.members,
    i.present,
    alive,
    e,
  )

pub resolve_join_request-Kept :
    (u : Uuid) (chat : Chat)
    → Inv chat
    → (approve : Bool) → chat.deleted ≡ false
    → Holds (Kept chat) (Repo.resolve_join_request u approve chat)
unfolding Repo.resolve_join_request
resolve_join_request-Kept u chat i approve alive =
    if-Holds (Kept chat) (Repo.is_pending (lookup u chat.requests)) _ (err no_chat)
      (λ _.
        if-Holds (Kept chat) approve
          (ok (
            Repo.bump_up (
              Repo.set_member u (Repo.reinstate (lookup u chat.members))
                (record chat { requests = insert u approved chat.requests }))))
          (ok (record chat { requests = insert u rejected chat.requests }))
          (λ _. inr (
            reinstate-Kept u (record chat { requests = insert u approved chat.requests })
              (requests-Inv u chat i _) alive (lookup u chat.members) refl))
          (λ _. inr refl))
      (λ _. tt)

pub create_join_request-Kept :
    (u : Uuid) (chat : Chat) → Kept chat (Repo.create_join_request u chat)
unfolding Repo.create_join_request
create_join_request-Kept u chat =
    if_intro (Kept chat) (Repo.is_pending (lookup u chat.requests)) chat _ (λ _. inr refl)
      (λ _. inr refl)
