-- ===== src/Groups/Membership/Succession.antt =====
-- A chat keeps its owner.
use sobhemessenger.Common.{
  ℕ, length, ◌≡◌, refl, ◌∙◌, ◌⊎◌, inl, inr, Bool, true, not, ◌&&◌, Uuid, arith, if_intro,
  if◌then◌else◌, ltb, List, [], ◌∷◌, ◌==◌,
}
use sobhemessenger.Common.Assoc.{total}
use sobhemessenger.Common.Text.{Runes, is_empty, trim_space}
use sobhemessenger.Httpx.{Fault, Result, ok, err, Holds, Holds-ok, if-Holds}
use sobhemessenger.Messaging.Permissions.{member}
use sobhemessenger.Groups.Chat.{Chat}
use sobhemessenger.Groups.Repository as Repo
use sobhemessenger.Groups.Service as Members
use sobhemessenger.Groups.Operations.{Op, run, apply, apply_all, settle}
use sobhemessenger.Groups.Membership.{Inv, owners}
use sobhemessenger.Groups.Membership.Ownership.{Kept}
use sobhemessenger.Groups.Membership.SoleOwner.{after_same, spares_owner}
use sobhemessenger.Groups.Membership.History.{create-Inv, run-Inv, settle-Inv}
use sobhemessenger.Groups.Final.{deleted_is_final}
use sobhemessenger.Groups.Service.Creation.{
  CreateInput, is_unsupported, matches_username, create, create_chat, seed,
}
use sobhemessenger.Groups.Membership.Operations.{run-Kept}

-- A chat that is there has one active owner.
abbrev pub SoleOwned : Chat → Type 0
SoleOwned chat = (chat.deleted ≡ true) ⊎ (owners chat ≡ 1)

step-SoleOwned :
    (op : Op) (chat : Chat)
    → Inv chat
    → spares_owner op chat ≡ true
    → SoleOwned chat
    → SoleOwned (settle (run op chat) chat)
unfolding apply_all apply
step-SoleOwned op chat i spared (inl gone) = rw (deleted_is_final (op ∷ []) chat gone) (inl gone)
step-SoleOwned op chat i spared (inr one) = go (run op chat) (run-Kept chat i op spared)
  where
    go : (r : Result Fault Chat) → Holds (Kept chat) r → SoleOwned (settle r chat)
    go (ok after) (inl gone) = inl gone
    go (ok after) (inr same) = inr (same ∙ one)
    go (err e) h = inr one

-- Whether no operation of a sequence is a `SetRole` on the owner at its time.
unfoldable pub all_spare_owner : List Op → Chat → Bool
unfolding run
all_spare_owner [] chat = true
all_spare_owner (op ∷ ops) chat =
    let rest = all_spare_owner ops (settle (run op chat) chat) in spares_owner op chat && rest

apply_all-SoleOwned :
    (ops : List Op) (chat : Chat)
    → Inv chat
    → all_spare_owner ops chat ≡ true
    → SoleOwned chat
    → SoleOwned (apply_all ops chat)
unfolding apply_all apply all_spare_owner
apply_all-SoleOwned [] chat i spared s = s
apply_all-SoleOwned (op ∷ ops) chat i spared s =
    apply_all-SoleOwned ops (settle (run op chat) chat)
      (settle-Inv (run op chat) chat (run-Inv op chat i) i) (ground (arith, spared))
      (step-SoleOwned op chat i (ground (arith, spared)) s)

seed_same :
    (owner_id : Uuid) (us : List Uuid) (chat : Chat) → owners (seed owner_id us chat) ≡ owners chat
unfolding seed
seed_same owner_id [] chat = refl
seed_same owner_id (u ∷ us) chat =
    seed_same owner_id us
      (if u == owner_id then chat else Members.after (Repo.add_member u member chat) chat)
    ∙ if_intro (λ c. owners c ≡ owners chat) (u == owner_id) chat
        (Members.after (Repo.add_member u member chat) chat) (λ _. refl) (λ _. after_same u chat)

create-SoleOwned :
    (id : Uuid) (limit : ℕ) (is_taken : Runes → Bool) (input : CreateInput)
    → Holds SoleOwned (create id limit is_taken input)
unfolding create create_chat total
create-SoleOwned id limit is_taken input =
    let title = trim_space input.title in
    let handle = trim_space input.username in
    if-Holds SoleOwned (is_unsupported input.type) _ _ (λ _. tt)
      λ _.
        if-Holds SoleOwned (is_empty title) _ _ (λ _. tt)
          λ _.
            if-Holds SoleOwned (ltb 128 (length title)) _ _ (λ _. tt)
              λ _.
                if-Holds SoleOwned (ltb 1024 (length input.description)) _ _ (λ _. tt)
                  λ _.
                    if-Holds SoleOwned (not (is_empty handle) && not (matches_username handle)) _ _
                      (λ _. tt)
                      λ _.
                        if-Holds SoleOwned (input.is_public && is_empty handle) _ _ (λ _. tt)
                          λ _.
                            if-Holds SoleOwned (not (is_empty handle) && is_taken handle) _ (ok _)
                              (λ _. tt)
                              λ _. inr (
                                seed_same input.owner_id input.member_ids
                                  (create_chat id input.type input.owner_id limit))

-- A chat that `Create` made has exactly one active owner, or is deleted, after every sequence of the
-- operations in `Op`, approvals of join requests included, in which no `SetRole` is aimed at the owner
-- of the moment.
pub one_owner :
    (id : Uuid) (limit : ℕ) (is_taken : Runes → Bool) (input : CreateInput) (chat : Chat)
    (ops : List Op)
    → create id limit is_taken input ≡ ok chat
    → all_spare_owner ops chat ≡ true
    → ((apply_all ops chat).deleted ≡ true) ⊎ (owners (apply_all ops chat) ≡ 1)
one_owner id limit is_taken input chat ops made spared =
    apply_all-SoleOwned ops chat (Holds-ok Inv _ chat (create-Inv id limit is_taken input) made)
      spared (Holds-ok SoleOwned _ chat (create-SoleOwned id limit is_taken input) made)
