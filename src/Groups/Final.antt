-- ===== src/Groups/Final.antt =====
-- A chat that is deleted.
use sobhemessenger.Common.{ℕ, ap, ◌∙◌, ◌≡◌, refl, true, false, arith, List, [], ◌∷◌, Uuid}
use sobhemessenger.Httpx.{
  Fault, Result, ok, err, ◌>>=◌, ◌>>◌, Holds, if-Holds, assoc-Holds, map_err, after-Holds,
}
use sobhemessenger.Messaging.Permissions.{
  add_members, remove_members, manage_admins, manage_invites, edit_group, Permission,
}
use sobhemessenger.Messaging.Context.{ChatContext}
use sobhemessenger.Groups.Chat.{Chat, no_chat, chat_context_for}
use sobhemessenger.Groups.Invites as Links
use sobhemessenger.Groups.Gate.{context-Holds, authorize-Holds}
use sobhemessenger.Groups.Service as Members
use sobhemessenger.Groups.Service.Roles as Roles
use sobhemessenger.Groups.Service.Joining as Joining
use sobhemessenger.Groups.Service.Settings as Settings
use sobhemessenger.Groups.Operations.{
  Op, adding, removing, leaving, ranking, transferring, deleting, defining, redefining, dropping,
  assigning, linking, revoking, redeeming, joining, resolving, configuring, commenting, run, apply,
  apply_all, settle, chat_of,
}

module _ (chat : Chat) (gone : chat.deleted ≡ true) where
  abbrev IsSame : Chat → Type 0
  IsSame after = after ≡ chat

  never : {A : Type 0} → chat.deleted ≡ false → A
  never alive = ground (arith, alive, gone)

  shut {ℓ} :
      {B : Type ℓ} (P : B → Type 0) (allowed : Permission) (actor : Uuid)
      (k : ChatContext → Result Fault B)
      → Holds P (Members.authorize allowed actor chat >>= k)
  shut P allowed actor k = authorize-Holds P actor chat allowed k λ alive _ _. never alive

  owner_shut :
      (actor : Uuid) (k : Result Fault Chat) → Holds IsSame (Members.owner_only actor chat >> k)
  owner_shut actor k =
      assoc-Holds IsSame (map_err Members.always_internal (chat_context_for actor chat)) _ (λ _. k)
        (context-Holds IsSame actor chat Members.always_internal _ λ alive. never alive)

  chat_of-Holds {ℓ} :
      {A : Type ℓ} (r : Result Fault (A × Chat))
      → Holds (λ p. p.1 ≡ chat) r
      → Holds IsSame (chat_of r)
  chat_of-Holds (ok p) h = h
  chat_of-Holds (err e) h = tt

  redeem_shut :
      (user : Uuid) (now slug : ℕ)
      → Holds (λ p. p.1 ≡ chat) (Joining.join_by_invite user now slug chat)
  unfolding Joining.join_by_invite Links.resolve_invite
  redeem_shut user now slug =
      after-Holds (λ p. p.1 ≡ chat) Joining.when_missing (Links.resolve_invite now slug chat) _
        (if-Holds _ chat.deleted (err no_chat) _ (λ _. tt) λ alive. never alive)

  run_shut : (op : Op) → Holds IsSame (run op chat)
  unfolding run Members.add_members Members.remove_member Members.leave Members.set_role
      Members.transfer_ownership Members.delete_chat Roles.create_role Roles.update_role
      Roles.delete_role Roles.assign_role Joining.create_invite_link Joining.revoke_invite_link
      Joining.join_public Joining.resolve_join_request Settings.update_settings
      Settings.join_discussion
  run_shut (adding actor users) = chat_of-Holds _ (shut (λ p. p.1 ≡ chat) add_members actor _)
  run_shut (removing actor target) = shut IsSame remove_members actor _
  run_shut (leaving user) =
      context-Holds IsSame user chat Members.when_not_found _ λ alive. never alive
  run_shut (ranking actor target role permissions) = shut IsSame manage_admins actor _
  run_shut (transferring actor target) = owner_shut actor _
  run_shut (deleting actor) = owner_shut actor _
  run_shut (defining actor id name permissions rank) = shut IsSame manage_admins actor _
  run_shut (redefining actor id name permissions rank) = shut IsSame manage_admins actor _
  run_shut (dropping actor id) = shut IsSame manage_admins actor _
  run_shut (assigning actor target role) = shut IsSame manage_admins actor _
  run_shut (linking actor now id slug member_limit expires_at) = shut IsSame manage_invites actor _
  run_shut (revoking actor id) = shut IsSame manage_invites actor _
  run_shut (redeeming user now slug) = chat_of-Holds _ (redeem_shut user now slug)
  run_shut (joining user) =
      chat_of-Holds _
        (context-Holds (λ p. p.1 ≡ chat) user chat Members.when_not_found _ λ alive. never alive)
  run_shut (resolving actor target approve) = shut IsSame add_members actor _
  run_shut (configuring actor has_set settings) = shut IsSame edit_group actor _
  run_shut (commenting user) =
      context-Holds IsSame user chat Members.always_internal _ λ alive. never alive

settled :
    (r : Result Fault Chat) (chat : Chat) → Holds (λ after. after ≡ chat) r → settle r chat ≡ chat
settled (ok c) chat h = h
settled (err e) chat h = refl

-- No sequence of the operations in `Op`, whoever calls them, changes a chat that is deleted: its row with
-- its settings and counts, its members, named roles, links and join requests stay as they are.
pub deleted_is_final :
    (ops : List Op) (chat : Chat) → chat.deleted ≡ true → apply_all ops chat ≡ chat
unfolding apply_all apply
deleted_is_final [] chat gone = refl
deleted_is_final (op ∷ ops) chat gone =
    ap (apply_all ops) (settled (run op chat) chat (run_shut chat gone op))
    ∙ deleted_is_final ops chat gone
