-- ===== src/Groups/Ranks.antt =====
-- What the changes of a member's role come to, and what stays with a member who comes back.
use sobhemessenger.Common.{
  ◌+◌, ◌≤◌, ◌≡◌, refl, ◌∙◌, true, false, some, Uuid, bit, arith, ltb, [], ==-refl,
}
use sobhemessenger.Common.Assoc.{lookup}
use sobhemessenger.Httpx.{ok}
use sobhemessenger.Messaging.Permissions.{
  Role, owner, Permission, Overrides, manage_admins, unknown_permission_keys,
}
use sobhemessenger.Groups.Chat.{Member, Chat, active, chat_context_for}
use sobhemessenger.Groups.Repository as Repo
use sobhemessenger.Groups.Gate.{seen}
use sobhemessenger.Groups.Authority.{active-set_member}
use sobhemessenger.Groups.Membership.{is_active_owner, owners, how_many-set_member}
use sobhemessenger.Groups.Membership.Statements.{active-row}
use sobhemessenger.Groups.Service.{
  authorize, set_role, rank, is_grantable, reject_unknown_permissions,
}

-- The gate opens for a member of a chat that is there, with the permission.
authorize_ok :
    (allowed : Permission) (actor : Uuid) (chat : Chat)
    → chat.deleted ≡ false
    → (seen actor chat).is_member ≡ true
    → (seen actor chat).permissions allowed ≡ true
    → authorize allowed actor chat ≡ ok (seen actor chat)
unfolding authorize chat_context_for
authorize_ok allowed actor chat alive here may = ground (arith, alive, here, may)

set_role_ok :
    (target : Uuid) (role : Role) (permissions : Overrides) (chat : Chat) (m : Member)
    → active target chat ≡ some m
    → Repo.set_role target role permissions chat
      ≡ ok (
          Repo.set_member target
            (record m { role = role; permissions = Repo.encode permissions })
            chat)
unfolding Repo.set_role
set_role_ok target role permissions chat m found = rw found refl

all_known :
    (permissions : Overrides) (actor : Uuid) (chat : Chat)
    → unknown_permission_keys permissions (seen actor chat).chat_type ≡ []
    → reject_unknown_permissions permissions (seen actor chat).chat_type ≡ ok tt
unfolding reject_unknown_permissions
all_known permissions actor chat known = rw known refl

-- `SetRole` does not look at the role of its target: a caller who holds manage_admins, for a role that
-- may be granted and is not above the caller's own, and known permissions, rewrites the row of any
-- active member, the owner's too, which leaves the chat one owner fewer.
pub set_role_any_target :
    (actor target : Uuid) (role : Role) (permissions : Overrides) (chat : Chat) (m : Member)
    → chat.deleted ≡ false
    → (seen actor chat).is_member ≡ true
    → (seen actor chat).permissions manage_admins ≡ true
    → is_grantable role ≡ true
    → rank (seen actor chat).role ≤ rank role
    → unknown_permission_keys permissions (seen actor chat).chat_type ≡ []
    → active target chat ≡ some m
    → (after : Chat) × (set_role actor target role permissions chat ≡ ok after)
      × (active target after
          ≡ some (record m { role = role; permissions = Repo.encode permissions }))
      × (owners after + bit (Repo.is_owner m.role) ≡ owners chat)
unfolding set_role
set_role_any_target actor target role permissions chat m alive here may grantable below known
      found =
    (
      Repo.set_member target n chat,
      rw
          (
            authorize_ok manage_admins actor chat alive here may,
            grantable,
            not_above,
            all_known permissions actor chat known,
            set_role_ok target role permissions chat m found,
          )
          refl,
      active-set_member target target n chat ∙ rw (==-refl target, row.1) refl,
      ground (arith, how_many-set_member is_active_owner target n chat, row, plain role grantable),
    )
  where
    n : Member
    n = record m { role = role; permissions = Repo.encode permissions }

    row : (lookup target chat.members ≡ some m) × (m.left ≡ false)
    row = active-row target chat m found

    not_above : ltb (rank role) (rank (seen actor chat).role) ≡ false
    not_above = ground (arith, below)

    plain : (r : Role) → is_grantable r ≡ true → Repo.is_owner r ≡ false
    plain owner h = ground arith
    plain _ h = refl
