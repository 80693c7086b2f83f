-- ===== src/Groups/Membership/History.antt =====
-- A chat from its creation on.
use sobhemessenger.Common.{
  ℕ, ◌≡◌, refl, Bool, List, [], ◌∷◌, Uuid, if◌then◌else◌, arith, ◌==◌, inl, inr, Bool-cases, ltb,
  length, not, ◌&&◌,
}
use sobhemessenger.Common.Assoc.{total, lookup}
use sobhemessenger.Common.Text.{Runes, is_empty, trim_space}
use sobhemessenger.Httpx.{Fault, Result, ok, err, Holds, if-Holds, Holds-ok}
use sobhemessenger.Messaging.Permissions.{ChatType, member}
use sobhemessenger.Groups.Chat.{Chat}
use sobhemessenger.Groups.Repository.{add_member}
use sobhemessenger.Groups.Service.{after}
use sobhemessenger.Groups.Service.Creation.{
  CreateInput, is_unsupported, matches_username, create, create_chat, seed,
}
use sobhemessenger.Groups.Operations.{
  Op, adding, removing, leaving, ranking, transferring, deleting, defining, redefining, dropping,
  assigning, linking, revoking, redeeming, joining, resolving, configuring, commenting, run, apply,
  apply_all, settle, chat_of,
}
use sobhemessenger.Groups.Membership.{Inv}
use sobhemessenger.Groups.Membership.Statements.{add_member-Inv}
use sobhemessenger.Groups.Membership.Services.{
  add_members-Inv, remove-Inv, leave-Inv, set_role-Inv', transfer-Inv, delete-Inv, after-Inv,
}
use sobhemessenger.Groups.Membership.Roles.{
  create_role-Inv, update_role-Inv, delete_role-Inv, assign_role-Inv,
}
use sobhemessenger.Groups.Membership.Joining.{
  create_invite_link-Inv, revoke_invite_link-Inv, join_by_invite-Inv, join_public-Inv, resolve-Inv,
}
use sobhemessenger.Groups.Membership.Settings.{update_settings-Inv, join_discussion-Inv}

chat_of-Holds {ℓ} :
    {A : Type ℓ} (r : Result Fault (A × Chat)) → Holds (λ p. Inv p.1) r → Holds Inv (chat_of r)
chat_of-Holds (ok p) h = h
chat_of-Holds (err e) h = tt

pub run-Inv : (op : Op) (chat : Chat) → Inv chat → Holds Inv (run op chat)
unfolding run
run-Inv (adding actor users) chat i = chat_of-Holds _ (add_members-Inv actor chat i users)
run-Inv (removing actor target) chat i = remove-Inv actor chat i target
run-Inv (leaving user) chat i = leave-Inv user chat i
run-Inv (ranking actor target role permissions) chat i =
    set_role-Inv' actor chat i target role permissions
run-Inv (transferring actor target) chat i = transfer-Inv actor chat i target
run-Inv (deleting actor) chat i = delete-Inv actor chat i
run-Inv (defining actor id name permissions rank) chat i =
    create_role-Inv actor chat i id name permissions rank
run-Inv (redefining actor id name permissions rank) chat i =
    update_role-Inv actor chat i id name permissions rank
run-Inv (dropping actor id) chat i = delete_role-Inv actor chat i id
run-Inv (assigning actor target role) chat i = assign_role-Inv actor chat i target role
run-Inv (linking actor now id slug member_limit expires_at) chat i =
    create_invite_link-Inv actor chat i now id slug member_limit expires_at
run-Inv (revoking actor id) chat i = revoke_invite_link-Inv actor chat i id
run-Inv (redeeming user now slug) chat i = chat_of-Holds _ (join_by_invite-Inv user chat i now slug)
run-Inv (joining user) chat i = chat_of-Holds _ (join_public-Inv user chat i)
run-Inv (resolving actor target approve) chat i = resolve-Inv actor chat i target approve
run-Inv (configuring actor has_set settings) chat i =
    update_settings-Inv actor chat i has_set settings
run-Inv (commenting user) chat i = join_discussion-Inv user chat i

pub settle-Inv :
    (r : Result Fault Chat) (chat : Chat) → Holds Inv r → Inv chat → Inv (settle r chat)
settle-Inv (ok after) chat h i = h
settle-Inv (err e) chat h i = i

pub apply_all-Inv : (ops : List Op) (chat : Chat) → Inv chat → Inv (apply_all ops chat)
unfolding apply_all apply
apply_all-Inv [] chat i = i
apply_all-Inv (op ∷ ops) chat i =
    apply_all-Inv ops (settle (run op chat) chat)
      (settle-Inv (run op chat) chat (run-Inv op chat i) i)

create_chat-Inv :
    (id : Uuid) (type : ChatType) (owner_id : Uuid) (limit : ℕ)
    → Inv (create_chat id type owner_id limit)
unfolding create_chat total lookup
create_chat-Inv id type owner_id limit = record {
  distinct = (refl, tt);
  counted = omega arith;
  mirrored = ground arith;
  single = omega arith;
  present = inr refl;
}

seed-Inv : (owner_id : Uuid) (us : List Uuid) (chat : Chat) → Inv chat → Inv (seed owner_id us chat)
unfolding seed
seed-Inv owner_id [] chat i = i
seed-Inv owner_id (u ∷ us) chat i =
    seed-Inv owner_id us (if u == owner_id then chat else after (add_member u member chat) chat)
      (elim (Bool-cases (u == owner_id)) [
        | inl same ↦ rw same i
        | inr other ↦
            rw other (after-Inv (add_member u member chat) chat (add_member-Inv u chat i) i)
      ])

pub create-Inv :
    (id : Uuid) (limit : ℕ) (is_taken : Runes → Bool) (input : CreateInput)
    → Holds Inv (create id limit is_taken input)
unfolding create
create-Inv id limit is_taken input =
    let title = trim_space input.title in
    let handle = trim_space input.username in
    if-Holds Inv (is_unsupported input.type) _ _ (λ _. tt)
      λ _.
        if-Holds Inv (is_empty title) _ _ (λ _. tt)
          λ _.
            if-Holds Inv (ltb 128 (length title)) _ _ (λ _. tt)
              λ _.
                if-Holds Inv (ltb 1024 (length input.description)) _ _ (λ _. tt)
                  λ _.
                    if-Holds Inv (not (is_empty handle) && not (matches_username handle)) _ _
                      (λ _. tt)
                      λ _.
                        if-Holds Inv (input.is_public && is_empty handle) _ _ (λ _. tt)
                          λ _.
                            if-Holds Inv (not (is_empty handle) && is_taken handle) _ (ok _)
                              (λ _. tt)
                              λ _.
                                seed-Inv input.owner_id input.member_ids _
                                  (create_chat-Inv id input.type input.owner_id limit)

-- A chat that `Create` made satisfies the invariant of the members after every sequence of the operations
-- in `Op`, refused ones included, with approval switched on and off by the settings: one row for a user, at most as many active members as its
-- member count says, a channel's subscriber count equal to the member count, at most one active
-- owner, and no owner who has left unless the chat is deleted.
pub create_then_apply_all-Inv :
    (id : Uuid) (limit : ℕ) (is_taken : Runes → Bool) (input : CreateInput) (chat : Chat)
    (ops : List Op)
    → create id limit is_taken input ≡ ok chat
    → Inv (apply_all ops chat)
create_then_apply_all-Inv id limit is_taken input chat ops made =
    apply_all-Inv ops chat (Holds-ok Inv _ chat (create-Inv id limit is_taken input) made)
