-- ===== src/Groups/Tests.antt =====
-- A group of an owner (1), an administrator (2) who may manage administrators, a member (3) and a
-- moderator (4) who has left and had a personal grant.
use sobhemessenger.Messaging.Context.{context_of}
use sobhemessenger.Common.{
  Option, ℕ, ◌+◌, ◌<◌, ◌≡◌, refl, true, false, none, some, List, [], ◌∷◌, Uuid, bit, is_some, arith,
  if◌then◌else◌, ◌==◌, inl, ◌⊎◌, pos,
}
use sobhemessenger.Common.Text.{trim_space}
use sobhemessenger.Common.Assoc.{lookup, insert}
use sobhemessenger.Httpx.{ok, ◌>>=◌}
use sobhemessenger.Messaging.Permissions.{
  group, owner, admin, moderator, member, known, ban_members, manage_admins, remove_members,
  pin_messages, Overrides, unknown_permission_keys,
}
use sobhemessenger.Messaging.Permissions.Layers.{find}
use sobhemessenger.Groups.Chat.{Chat, Member, pending, active, chat_context_for, row_of}
use sobhemessenger.Groups.Repository as Repo
use sobhemessenger.Groups.Service.{
  remove_member, add_members, set_role, rank, Outcome, added, already_in, authorize, leave,
  reject_unknown_permissions, transfer_ownership,
}
use sobhemessenger.Groups.Service.Roles.{create_role}
use sobhemessenger.Groups.Service.Joining.{resolve_join_request, join_public}
use sobhemessenger.Groups.Service.Creation.{CreateInput, create}
use sobhemessenger.Groups.Service.Settings.{Settings, update_settings, join_discussion}
use sobhemessenger.Groups.Operations.{
  Op, adding, transferring, removing, leaving, joining, resolving, configuring, commenting,
  apply_all, settle,
}
use sobhemessenger.Groups.Gate.{seen}
use sobhemessenger.Groups.Membership.{Inv, actives, owners}
use sobhemessenger.Groups.Membership.History.{create_then_apply_all-Inv}
use sobhemessenger.Groups.Membership.Succession.{one_owner, all_spare_owner}
use sobhemessenger.Groups.Authority.{remove_member_only_below, define_role_within_grant}
use sobhemessenger.Groups.Ranks.{set_role_any_target}
use sobhemessenger.Groups.Joins.{approve_exact}
use sobhemessenger.Groups.Final.{deleted_is_final}

abbrev grants : Overrides
grants = (known manage_admins, true) ∷ []

abbrev team : Chat
team = record {
  id = 7;
  type = group;
  deleted = false;
  member_count = 3;
  subscriber_count = 0;
  max_members = some 4;
  default_permissions = some [];
  is_broadcast = some false;
  join_requires_approval = some true;
  invites = [];
  members =
      (1, Repo.new_member owner)
      ∷ (2, record { role = admin; permissions = some grants; custom_role = none; left = false })
      ∷ (3, Repo.new_member member)
      ∷ (
        4,
        record {
          role = moderator;
          permissions = some ((known ban_members, true) ∷ []);
          custom_role = none;
          left = true;
        },
      )
      ∷ [];
  roles = [];
  requests = (4, pending) ∷ (3, pending) ∷ [];
}

abbrev input : CreateInput
input = record {
  owner_id = 1;
  type = group;
  title = 83 ∷ 32 ∷ [];
  description = [];
  username = [];
  is_public = false;
  member_ids = 1 ∷ 2 ∷ 2 ∷ 3 ∷ [];
}

abbrev made : Chat
made = settle (create 7 4 (λ _. false) input) team

abbrev by_approval : Settings
by_approval = record {
  slow_mode_seconds = pos 0;
  join_requires_approval = true;
  max_members = pos 50;
  default_permissions = [];
  is_broadcast = none;
  sticker_set = none;
}

-- User 9 asks to join and is approved.
abbrev script : List Op
script =
    adding 3 (5 ∷ 6 ∷ [])
    ∷ leaving 1
    ∷ transferring 1 2
    ∷ leaving 1
    ∷ removing 2 3
    ∷ joining 8
    ∷ configuring 2 (λ _. false) by_approval
    ∷ joining 9
    ∷ resolving 2 9 true
    ∷ commenting 10
    ∷ []

create_then_apply_all-Inv_example : Inv (apply_all script made)
unfolding create trim_space
create_then_apply_all-Inv_example =
    create_then_apply_all-Inv 7 4 (λ _. false) input made script refl

counts : ℕ × ℕ
counts = (made.member_count, (apply_all script made).member_count)

counts-after_script : counts ≡ (3, 5)
unfolding counts create apply_all trim_space Repo.add_member join_public lookup insert
    chat_context_for remove_member leave transfer_ownership add_members context_of row_of
    Repo.transfer_ownership Repo.remove_member update_settings reject_unknown_permissions
    unknown_permission_keys resolve_join_request Repo.resolve_join_request join_discussion
    Repo.create_join_request
counts-after_script = refl

approved_user : Option Member
approved_user = active 9 (apply_all script made)

approved-after_script : approved_user ≡ some (Repo.new_member member)
unfolding approved_user create apply_all trim_space Repo.add_member join_public lookup insert
    chat_context_for remove_member leave transfer_ownership add_members context_of row_of
    Repo.transfer_ownership Repo.remove_member update_settings reject_unknown_permissions
    unknown_permission_keys resolve_join_request Repo.resolve_join_request join_discussion
    Repo.create_join_request active
approved-after_script = refl

abbrev removed : Chat
removed = settle (remove_member 2 3 team) team

remove_member_only_below_example :
    ((seen 2 team).permissions remove_members ≡ true)
    × (rank (seen 2 team).role < rank (seen 3 team).role)
    × (Repo.is_owner (seen 3 team).role ≡ false)
    × ((u : Uuid) → active u removed ≡ (if 3 == u then none else active u team))
unfolding remove_member chat_context_for context_of row_of lookup Repo.remove_member
remove_member_only_below_example = remove_member_only_below 2 3 team removed refl

abbrev pins : Overrides
pins = (known pin_messages, true) ∷ []

abbrev with_role : Chat
with_role = settle (create_role 2 30 (69 ∷ 100 ∷ []) pins (pos 1) team) team

define_role_within_grant_example : (seen 2 team).permissions pin_messages ≡ true
unfolding create_role find authorize chat_context_for context_of row_of lookup trim_space
    reject_unknown_permissions unknown_permission_keys Repo.create_role
define_role_within_grant_example =
    define_role_within_grant 2 30 (69 ∷ 100 ∷ []) pins (pos 1) team with_role pin_messages
      (inl refl) refl

-- The administrator makes the owner a member and leaves the group without an owner.
set_role_any_target_example :
    (after : Chat) × (set_role 2 1 member [] team ≡ ok after)
    × (active 1 after ≡ some (Repo.new_member member))
    × (owners after + 1 ≡ owners team)
unfolding active context_of row_of lookup rank unknown_permission_keys
set_role_any_target_example =
    set_role_any_target 2 1 member [] team (Repo.new_member owner) refl refl refl refl (omega arith)
      refl refl

abbrev invited : List (Uuid × Outcome) × Chat
invited = (
  (3, already_in) ∷ (5, added) ∷ [],
  settle (add_members 1 (3 ∷ 5 ∷ []) team >>= λ r. ok r.1) team,
)

-- The moderator who had left is back with role and grant.
abbrev approved_once : Chat
approved_once = settle (resolve_join_request 1 4 true team) team

approve_exact_example :
    (approved_once.member_count ≡ team.member_count + 1)
    × (actives approved_once + bit (is_some (active 4 team)) ≡ actives team + 1)
    × (active 4 approved_once
        ≡ some (record {
          role = moderator;
          permissions = some ((known ban_members, true) ∷ []);
          custom_role = none;
          left = false;
        }))
unfolding resolve_join_request authorize chat_context_for context_of row_of lookup
    Repo.resolve_join_request
approve_exact_example = approve_exact 1 4 team approved_once refl

deleted_is_final_example : apply_all script (Repo.delete_chat team) ≡ Repo.delete_chat team
unfolding Repo.delete_chat
deleted_is_final_example = deleted_is_final script (Repo.delete_chat team) refl

one_owner_example : ((apply_all script made).deleted ≡ true) ⊎ (owners (apply_all script made) ≡ 1)
unfolding create trim_space all_spare_owner
one_owner_example = one_owner 7 4 (λ _. false) input made script refl refl
