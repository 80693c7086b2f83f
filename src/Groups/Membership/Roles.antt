-- ===== src/Groups/Membership/Roles.antt =====
-- The operations on named roles keep the invariant of the members.
use sobhemessenger.Common.{
  ℕ, ℤ, ◌≡◌, refl, Bool, none, Uuid, bit, if◌then◌else◌, arith, Option, leb, ◌==◌, [], ◌∷◌, ap,
}
use sobhemessenger.Common.Text.{Runes}
use sobhemessenger.Common.Assoc.{Assoc, lookup, insert, delete, total, IsDistinct}
use sobhemessenger.Httpx.{ok, err, Holds, if-Holds, on_row-Holds, bind-Holds, map_err-Holds}
use sobhemessenger.Messaging.Permissions.{Overrides, manage_admins}
use sobhemessenger.Groups.Chat.{Member, Chat, role_not_found, role_taken, too_many_roles}
use sobhemessenger.Groups.Repository as Repo
use sobhemessenger.Groups.Gate.{seen, authorize-Holds, target-Holds}
use sobhemessenger.Groups.Membership.{Inv, is_active, is_active_owner, is_past_owner, how_many}
use sobhemessenger.Groups.Membership.Statements.{rewrite-Inv, active-row}
use sobhemessenger.Groups.Membership.Requests.{roles-Inv}
use sobhemessenger.Groups.Service.{outranks, rank}
use sobhemessenger.Groups.Service.Roles.{
  create_role, update_role, delete_role, assign_role, validate_role, within_own_grant,
  when_role_error,
}

-- The members who lose a named role keep their place.
pub total-forget_role :
    (f : Member → ℕ) (id : Uuid) (m : Assoc Member)
    → ((n : Member) → f (record n { custom_role = none }) ≡ f n)
    → total f (Repo.forget_role id m) ≡ total f m
unfolding total Repo.forget_role
total-forget_role f id [] h = refl
total-forget_role f id ((u, n) ∷ m) h = ground (arith, total-forget_role f id m h, h n)

lookup-forget_role :
    (u id : Uuid) (m : Assoc Member) → lookup u m ≡ none → lookup u (Repo.forget_role id m) ≡ none
unfolding lookup Repo.forget_role
lookup-forget_role u id [] h = refl
lookup-forget_role u id ((v, n) ∷ m) h = ground (arith, lookup-forget_role u id m)

forget_role-IsDistinct :
    (id : Uuid) (m : Assoc Member) → IsDistinct m → IsDistinct (Repo.forget_role id m)
unfolding Repo.forget_role
forget_role-IsDistinct id [] d = tt
forget_role-IsDistinct id ((u, n) ∷ m) d =
    (lookup-forget_role u id m d.0, forget_role-IsDistinct id m d.1)

module _ (actor : Uuid) (chat : Chat) (i : Inv chat) where
  create_row-Inv :
      (id : Uuid) (name : Runes) (permissions : Overrides) (rank : ℤ)
      → Holds Inv (Repo.create_role id name permissions rank chat)
  unfolding Repo.create_role
  create_row-Inv id name permissions rank =
      if-Holds Inv (leb Repo.max_roles_per_chat (Repo.roles_of chat.id chat.roles))
        (err too_many_roles) _ (λ _. tt)
        λ _.
          if-Holds Inv (Repo.is_taken chat.id name chat.roles) (err role_taken) (ok _) (λ _. tt)
            λ _. roles-Inv actor chat i (
              insert id
                (record { chat = chat.id; name = name; permissions = permissions; rank = rank })
                chat.roles)

  update_row-Inv :
      (id : Uuid) (name : Runes) (permissions : Overrides) (rank : ℤ)
      → Holds Inv (Repo.update_role id name permissions rank chat)
  unfolding Repo.update_role
  update_row-Inv id name permissions rank =
      if-Holds Inv (Repo.is_of chat.id (lookup id chat.roles)) _ (err role_not_found)
        (λ _.
          if-Holds Inv (Repo.is_taken chat.id name (delete id chat.roles)) (err role_taken) (ok _)
            (λ _. tt)
            λ _. roles-Inv actor chat i (
              insert id
                (record { chat = chat.id; name = name; permissions = permissions; rank = rank })
                chat.roles))
        (λ _. tt)

  delete_row-Inv : (id : Uuid) → Holds Inv (Repo.delete_role id chat)
  unfolding Repo.delete_role
  delete_row-Inv id =
      if-Holds Inv (Repo.is_of chat.id (lookup id chat.roles)) (ok _) (err role_not_found)
        (λ _. record {
          distinct = forget_role-IsDistinct id chat.members i.distinct;
          counted = omega (arith, i.counted, same is_active (λ n. refl));
          mirrored = i.mirrored;
          single = omega (arith, i.single, same is_active_owner (λ n. refl));
          present = ground (arith, i.present, same is_past_owner (λ n. refl));
        })
        (λ _. tt)
    where
      same :
          (p : Member → Bool)
          → ((n : Member) → p (record n { custom_role = none }) ≡ p n)
          → total (λ m. bit (p m)) (Repo.forget_role id chat.members) ≡ how_many p chat
      same p h = total-forget_role (λ m. bit (p m)) id chat.members (λ n. ap bit (h n))

  pub create_role-Inv :
      (id : Uuid) (name : Runes) (permissions : Overrides) (rank : ℤ)
      → Holds Inv (create_role actor id name permissions rank chat)
  unfolding create_role
  create_role-Inv id name permissions rank = authorize-Holds Inv actor chat manage_admins _ λ _ _ _.
      bind-Holds Inv (validate_role name permissions rank (seen actor chat).chat_type) _ λ trimmed.
        bind-Holds Inv (within_own_grant permissions (seen actor chat).permissions) _ λ _.
          map_err-Holds Inv when_role_error (Repo.create_role id trimmed permissions rank chat)
            (create_row-Inv id trimmed permissions rank)

  pub update_role-Inv :
      (id : Uuid) (name : Runes) (permissions : Overrides) (rank : ℤ)
      → Holds Inv (update_role actor id name permissions rank chat)
  unfolding update_role
  update_role-Inv id name permissions rank = authorize-Holds Inv actor chat manage_admins _ λ _ _ _.
      bind-Holds Inv (validate_role name permissions rank (seen actor chat).chat_type) _ λ trimmed.
        bind-Holds Inv (within_own_grant permissions (seen actor chat).permissions) _ λ _.
          map_err-Holds Inv when_role_error (Repo.update_role id trimmed permissions rank chat)
            (update_row-Inv id trimmed permissions rank)

  pub delete_role-Inv : (id : Uuid) → Holds Inv (delete_role actor id chat)
  unfolding delete_role
  delete_role-Inv id =
      authorize-Holds Inv actor chat manage_admins _
        λ _ _ _. map_err-Holds Inv when_role_error (Repo.delete_role id chat) (delete_row-Inv id)

  assign_row-Inv :
      (target : Uuid) (role : Option Uuid) → Holds Inv (Repo.assign_role target role chat)
  unfolding Repo.assign_role
  assign_row-Inv target role = on_row-Holds Inv _ _ _ λ m found.
      if-Holds Inv (Repo.is_assignable role chat) (ok _) (err role_not_found)
        (λ _.
          rewrite-Inv target chat i m (record m { custom_role = role }) found
            (active-row target chat m found).1 (ground (arith, i.single)))
        (λ _. tt)

  pub assign_role-Inv :
      (target : Uuid) (role : Option Uuid) → Holds Inv (assign_role actor target role chat)
  unfolding assign_role
  assign_role-Inv target role = authorize-Holds Inv actor chat manage_admins _ λ _ _ _.
      target-Holds Inv target chat _ λ _.
        bind-Holds Inv
          (if target == actor then ok tt else outranks (seen actor chat) (seen target chat)) _
          λ _.
            map_err-Holds Inv when_role_error (Repo.assign_role target role chat)
              (assign_row-Inv target role)
