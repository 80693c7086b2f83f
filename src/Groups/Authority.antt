-- ===== src/Groups/Authority.antt =====
-- Who may do what to whom: what a granted operation shows of its caller and its target.
use sobhemessenger.Common.{
  ℤ, ◌<◌, ◌≡◌, refl, ◌⊎◌, inl, inr, true, false, none, some, Uuid, if◌then◌else◌, arith, leb, ◌==◌,
  [], ◌∷◌, Bool-cases, ap,
}
use sobhemessenger.Common.Text.{Runes}
use sobhemessenger.Common.Assoc.{lookup-insert}
use sobhemessenger.Httpx.{
  Fault, Result, ok, ◌>>◌, Holds, Holds-ok, Holds-map, Holds-const, on_row-Holds, bind-Holds,
  guard-Holds, map_err-Holds,
}
use sobhemessenger.Messaging.Permissions.{
  Permission, Permissions, known, unknown, Overrides, manage_admins, remove_members,
}
use sobhemessenger.Messaging.Permissions.Layers.{find, eq_of_same}
use sobhemessenger.Groups.Chat.{Member, Chat, active, if_active}
use sobhemessenger.Groups.Repository as Repo
use sobhemessenger.Groups.Gate.{seen, rank-is_owner, authorize-Holds, target-Holds}
use sobhemessenger.Groups.Service.{remove_member, rank, is_empty_list, when_not_member}
use sobhemessenger.Groups.Service.Roles.{
  create_role, update_role, overreach, within_own_grant, validate_role,
}

-- The row of a user after a row was written.
pub active-set_member :
    (u t : Uuid) (m : Member) (chat : Chat)
    → active u (Repo.set_member t m chat) ≡ (if t == u then if_active (some m) else active u chat)
unfolding active
active-set_member u t m chat =
    rw (lookup-insert t u m chat.members)
      (elim (Bool-cases (t == u)) [ inl same ↦ rw same refl | inr other ↦ rw other refl ])

record Removal (actor target : Uuid) (chat after : Chat) : Type 0 where
  pub permitted : (seen actor chat).permissions remove_members ≡ true
  pub below : rank (seen actor chat).role < rank (seen target chat).role
  pub gone : (u : Uuid) → active u after ≡ (if target == u then none else active u chat)

removed_row :
    (target : Uuid) (chat : Chat)
    → Holds
        (λ after. (u : Uuid) → active u after ≡ (if target == u then none else active u chat))
        (Repo.remove_member target chat)
unfolding Repo.remove_member Repo.bump_down active
removed_row target chat =
    on_row-Holds _ (active target chat) _ _
      λ m found. λ u. active-set_member u target (record m { left = true }) chat

remove_member-Removal :
    (actor target : Uuid) (chat : Chat)
    → Holds (Removal actor target chat) (remove_member actor target chat)
unfolding remove_member
remove_member-Removal actor target chat =
    authorize-Holds (Removal actor target chat) actor chat remove_members _ λ _ _ permitted.
      target-Holds (Removal actor target chat) target chat _ λ _.
        guard-Holds (Removal actor target chat)
          (leb (rank (seen target chat).role) (rank (seen actor chat).role)) _ _
          λ below.
            map_err-Holds (Removal actor target chat) when_not_member
              (Repo.remove_member target chat)
              (Holds-map (Repo.remove_member target chat) (removed_row target chat) λ after gone.
                record { permitted = permitted; below = ground (arith, below); gone = gone })

-- `RemoveMember` succeeds only for a caller who holds remove_members and whose role is strictly above
-- the target's, so never on the owner, and takes the target and nobody else out of the active members.
pub remove_member_only_below :
    (actor target : Uuid) (chat after : Chat)
    → remove_member actor target chat ≡ ok after
    → ((seen actor chat).permissions remove_members ≡ true)
      × (rank (seen actor chat).role < rank (seen target chat).role)
      × (Repo.is_owner (seen target chat).role ≡ false)
      × ((u : Uuid) → active u after ≡ (if target == u then none else active u chat))
remove_member_only_below actor target chat after done =
    let r : Removal actor target chat after =
      Holds-ok (Removal actor target chat) _ after (remove_member-Removal actor target chat) done in
    (
      r.permitted,
      r.below,
      rank-is_owner (seen target chat).role (rank (seen actor chat).role) (ground (arith, r.below)),
      r.gone,
    )

-- The loop of `withinOwnGrant`.
overreach-find :
    (m : Overrides) (held : Permissions) (p : Permission)
    → is_empty_list (overreach m held) ≡ true
    → find p m ≡ some true
    → held p ≡ true
unfolding overreach find
overreach-find [] held p h e = ground arith
overreach-find ((known q, v) ∷ m) held p h e =
    ground (arith, overreach-find m held p, λ (s : q ≡ p). ap held s, eq_of_same q p)
overreach-find ((unknown k, v) ∷ m) held p h e = ground (arith, overreach-find m held p)

abbrev pub Granted : Uuid → Chat → Overrides → Type 0
Granted actor chat permissions =
    (p : Permission) → find p permissions ≡ some true → (seen actor chat).permissions p ≡ true

within-Granted :
    (actor : Uuid) (chat : Chat) (permissions : Overrides) (k : Result Fault Chat)
    → Holds
        (λ _. Granted actor chat permissions)
        (within_own_grant permissions (seen actor chat).permissions >> k)
unfolding within_own_grant
within-Granted actor chat permissions k =
    elim (Bool-cases (is_empty_list (overreach permissions (seen actor chat).permissions))) [
      | inl within ↦
          rw within
            (Holds-const k (λ p. overreach-find permissions (seen actor chat).permissions p within))
      | inr over ↦ rw over tt
    ]

create_role-Granted :
    (actor id : Uuid) (name : Runes) (permissions : Overrides) (rank : ℤ) (chat : Chat)
    → Holds (λ _. Granted actor chat permissions) (create_role actor id name permissions rank chat)
unfolding create_role
create_role-Granted actor id name permissions rank chat =
    authorize-Holds (λ _. Granted actor chat permissions) actor chat manage_admins _
      λ _ _ _.
        bind-Holds (λ _. Granted actor chat permissions)
          (validate_role name permissions rank (seen actor chat).chat_type) _
          λ _. within-Granted actor chat permissions _

update_role-Granted :
    (actor id : Uuid) (name : Runes) (permissions : Overrides) (rank : ℤ) (chat : Chat)
    → Holds (λ _. Granted actor chat permissions) (update_role actor id name permissions rank chat)
unfolding update_role
update_role-Granted actor id name permissions rank chat =
    authorize-Holds (λ _. Granted actor chat permissions) actor chat manage_admins _
      λ _ _ _.
        bind-Holds (λ _. Granted actor chat permissions)
          (validate_role name permissions rank (seen actor chat).chat_type) _
          λ _. within-Granted actor chat permissions _

-- Whoever defines or redefines a named role holds every permission that the role grants.
pub define_role_within_grant :
    (actor id : Uuid) (name : Runes) (permissions : Overrides) (rank : ℤ) (chat after : Chat)
    (p : Permission)
    → (create_role actor id name permissions rank chat ≡ ok after)
      ⊎ (update_role actor id name permissions rank chat ≡ ok after)
    → find p permissions ≡ some true
    → (seen actor chat).permissions p ≡ true
define_role_within_grant actor id name permissions rank chat after p (inl made) granted =
    Holds-ok (λ _. Granted actor chat permissions) _ after
      (create_role-Granted actor id name permissions rank chat) made p granted
define_role_within_grant actor id name permissions rank chat after p (inr changed) granted =
    Holds-ok (λ _. Granted actor chat permissions) _ after
      (update_role-Granted actor id name permissions rank chat) changed p granted
