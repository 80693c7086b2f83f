-- ===== src/Groups/Membership/Statements.antt =====
-- The statements of the repository beside the invariant of the members.
use sobhemessenger.Common.{
  ◌+◌, ◌-◌, ◌≤◌, ◌≡◌, refl, ◌⊎◌, Bool, true, false, none, some, Uuid, bit, if◌then◌else◌, arith,
  Option, Bool-cases, ap, sym, ◌∙◌, inl, inr, leb,
}
use sobhemessenger.Common.Assoc.{lookup, insert-IsDistinct, value-le-total}
use sobhemessenger.Httpx.{err, Holds, if-Holds, on_row-Holds}
use sobhemessenger.Messaging.Permissions.{Role, owner, admin, member, Overrides}
use sobhemessenger.Groups.Chat.{Member, Chat, full, no_chat, active, if_active}
use sobhemessenger.Groups.Repository.{
  is_owner, set_member, bump_up, bump_down, upsert, limit_of, new_member, add_member, remove_member,
  set_role, promote, transfer_ownership, delete_chat, encode,
}
use sobhemessenger.Groups.Membership.{
  Inv, is_active, is_active_owner, is_past_owner, actives, owners, passes, how_many-set_member,
}

-- What the WHERE of a statement finds: the row of an active member.
if_active-some :
    (o : Option Member) (m : Member) → if_active o ≡ some m → (o ≡ some m) × (m.left ≡ false)
if_active-some none m h = ground arith
if_active-some (some n) m h = elim (Bool-cases n.left) [
  | inl left ↦ ground (arith, found true left)
  | inr here ↦ (found false here, rw (← ap or_else_n (found false here)) here)
]
  where
    found : (b : Bool) → n.left ≡ b → (if b then none else some n) ≡ some m
    found b e = ap (λ c. if c then none else some n) (sym e) ∙ h

    or_else_n : Option Member → Member
    or_else_n none = n
    or_else_n (some x) = x

pub active-row :
    (u : Uuid) (chat : Chat) (m : Member)
    → active u chat ≡ some m
    → (lookup u chat.members ≡ some m) × (m.left ≡ false)
unfolding active
active-row u chat m h = if_active-some (lookup u chat.members) m h

module _ (u : Uuid) (chat : Chat) (i : Inv chat) where
  -- One row is written for the user, who becomes or stays active, and is counted if they were not.
  pub seat-Inv :
      (m : Member)
      → m.left ≡ false
      → is_owner m.role ≡ false
      → passes is_active (lookup u chat.members) ≡ 0
      → passes is_past_owner (lookup u chat.members) ≡ 0
      → Inv (bump_up (set_member u m chat))
  unfolding bump_up
  seat-Inv m here plain absent ghost = record {
    distinct = insert-IsDistinct u m chat.members i.distinct;
    counted = ground (arith, how_many-set_member is_active u m chat, i.counted);
    mirrored = ground (arith, i.mirrored);
    single = ground (arith, how_many-set_member is_active_owner u m chat, i.single);
    present = ground (arith, how_many-set_member is_past_owner u m chat, i.present);
  }

  -- A user who joins has no row or has left.
  module _ (alive : chat.deleted ≡ false) where
    pub no_ghost : passes is_past_owner (lookup u chat.members) ≡ 0
    no_ghost =
        ground (arith, i.present, alive, value-le-total (λ m. bit (is_past_owner m)) u chat.members)

    upsert-Inv :
        (o : Option Member) → lookup u chat.members ≡ o → Holds Inv (upsert u member o chat)
    upsert-Inv none e = seat-Inv (new_member member) refl refl (rw e refl) no_ghost
    upsert-Inv (some m) e = elim (Bool-cases m.left) [
      | inl left ↦ rw left (
          seat-Inv (record m { left = false; role = member }) refl refl (rw (e, left) refl)
            no_ghost)
      | inr here ↦ rw here tt
    ]

  pub add_member-Inv : Holds Inv (add_member u member chat)
  unfolding add_member
  add_member-Inv =
      if-Holds Inv _ _ _ (λ _. tt)
        (λ alive.
          if-Holds Inv (leb (limit_of chat.max_members) chat.member_count) (err full) _ (λ _. tt)
            (λ _. upsert-Inv alive (lookup u chat.members) refl))

  -- A row of an active member that is written and stays active.
  pub rewrite-Inv :
      (m n : Member)
      → active u chat ≡ some m
      → n.left ≡ false
      → owners chat + bit (is_owner n.role) ≤ 1 + bit (is_owner m.role)
      → Inv (set_member u n chat)
  rewrite-Inv m n found here single =
      let row = active-row u chat m found in
      record {
        distinct = insert-IsDistinct u n chat.members i.distinct;
        counted = ground (arith, how_many-set_member is_active u n chat, i.counted, row);
        mirrored = i.mirrored;
        single = ground (arith, how_many-set_member is_active_owner u n chat, row);
        present = ground (arith, how_many-set_member is_past_owner u n chat, i.present, row);
      }

  -- `SetRole` writes a role that is not the owner's.
  pub set_role-Inv :
      (role : Role) (permissions : Overrides)
      → is_owner role ≡ false
      → Holds Inv (set_role u role permissions chat)
  unfolding set_role
  set_role-Inv role permissions plain = on_row-Holds Inv _ _ _ λ m found.
      rewrite-Inv m (record m { role = role; permissions = encode permissions }) found
        (active-row u chat m found).1 (ground (arith, i.single, plain))

  promote-Inv : owners chat ≡ 0 → Holds Inv (promote u chat)
  unfolding promote
  promote-Inv nobody = on_row-Holds Inv _ _ _ λ m found.
      rewrite-Inv m (record m { role = owner; permissions = none }) found
        (active-row u chat m found).1 (ground (arith, nobody))

  -- The row of an active member leaves; the owner only with the chat.
  pub remove_member-Inv :
      (gone : Bool)
      → ((m : Member) → active u chat ≡ some m → (is_owner m.role ≡ false) ⊎ (gone ≡ true))
      → Holds (λ c. Inv (if gone then delete_chat c else c)) (remove_member u chat)
  unfolding remove_member bump_down delete_chat
  remove_member-Inv gone plain =
      on_row-Holds (λ c. Inv (if gone then delete_chat c else c)) _ _ _
        λ m found. removed gone m found (plain m found)
    where
      removed :
          (gone : Bool) (m : Member)
          → active u chat ≡ some m
          → (is_owner m.role ≡ false) ⊎ (gone ≡ true)
          → Inv (
              if gone
              then delete_chat (bump_down (set_member u (record m { left = true }) chat))
              else bump_down (set_member u (record m { left = true }) chat))
      removed gone m found plain =
          let row = active-row u chat m found in
          let n : Member = record m { left = true } in
          let counted : actives (set_member u n chat) ≤ chat.member_count - 1 =
            ground (arith, how_many-set_member is_active u n chat, i.counted, row) in
          let single : owners (set_member u n chat) ≤ 1 =
            ground (arith, how_many-set_member is_active_owner u n chat, i.single, row) in
          elim (Bool-cases gone) [
            | inl last ↦ rw last (record {
              distinct = insert-IsDistinct u n chat.members i.distinct;
              counted = counted;
              mirrored = ground (arith, i.mirrored);
              single = single;
              present = inl refl;
            })
            | inr stays ↦ rw stays (record {
              distinct = insert-IsDistinct u n chat.members i.distinct;
              counted = counted;
              mirrored = ground (arith, i.mirrored);
              single = single;
              present =
                  ground (
                    arith,
                    how_many-set_member is_past_owner u n chat,
                    i.present,
                    row,
                    plain,
                    stays,
                  );
            })
          ]

-- The owner steps down before the other is promoted, so there is none in between.
pub transfer_ownership-Inv :
    (from to : Uuid) (chat : Chat) → Inv chat → Holds Inv (transfer_ownership from to chat)
unfolding transfer_ownership
transfer_ownership-Inv from to chat i = on_row-Holds Inv _ _ _ λ m found.
    if-Holds Inv (is_owner m.role) _ (err no_chat)
      (λ own.
        let row = active-row from chat m found in
        let n : Member = record m { role = admin } in
        promote-Inv to (set_member from n chat)
          (rewrite-Inv from chat i m n found row.1 (ground (arith, i.single)))
          (ground (arith, how_many-set_member is_active_owner from n chat, i.single, row, own)))
      (λ _. tt)
