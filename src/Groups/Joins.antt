-- ===== src/Groups/Joins.antt =====
-- What the members and the count of a chat gain by invitations and by approvals.
use sobhemessenger.Common.{
  ℕ, ◌+◌, ◌≡◌, refl, ◌∙◌, Bool, true, false, none, some, Option, Uuid, bit, arith, is_some, ==-refl,
}
use sobhemessenger.Common.Assoc.{lookup}
use sobhemessenger.Httpx.{ok, err, Holds, Holds-ok, if-Holds, map_err-Holds}
use sobhemessenger.Messaging.Permissions.{member, add_members as may_add_members}
use sobhemessenger.Groups.Chat.{Member, Chat, no_chat, active, if_active}
use sobhemessenger.Groups.Repository as Repo
use sobhemessenger.Groups.Gate.{authorize-Holds}
use sobhemessenger.Groups.Authority.{active-set_member}
use sobhemessenger.Groups.Membership.{is_active, actives, passes, how_many-set_member}
use sobhemessenger.Groups.Service.{Outcome, added, after, add_members}
use sobhemessenger.Groups.Service.Joining.{resolve_join_request, when_missing}

record Joined (before later : Chat) (n : ℕ) : Type 0 where
  pub gained : actives later ≡ actives before + n
  pub counted : later.member_count ≡ before.member_count + n
  pub limit : later.max_members ≡ before.max_members

abbrev pub is_added : Uuid × Outcome → Bool
is_added (u, added) = true
is_added (u, _) = false

module _ (u : Uuid) (chat : Chat) where
  abbrev Approved : Chat → Type 0
  Approved c =
      (c.member_count ≡ chat.member_count + 1)
      × (actives c + bit (is_some (active u chat)) ≡ actives chat + 1)
      × (active u c ≡ some (Repo.reinstate (lookup u chat.members)))

  is_here : (o : Option Member) → bit (is_some (if_active o)) ≡ passes is_active o
  is_here none = refl
  is_here (some m) = ground arith

  is_back : (o : Option Member) → (Repo.reinstate o).left ≡ false
  is_back none = refl
  is_back (some m) = refl

  resolve_join_request-Approved : Holds Approved (Repo.resolve_join_request u true chat)
  unfolding Repo.resolve_join_request Repo.bump_up active
  resolve_join_request-Approved =
      if-Holds Approved (Repo.is_pending (lookup u chat.requests)) (ok _) (err no_chat)
        (λ _.
          let n : Member = Repo.reinstate (lookup u chat.members) in
          (
            refl,
            ground (
              arith,
              how_many-set_member is_active u n chat,
              is_here (lookup u chat.members),
              is_back (lookup u chat.members),
            ),
            active-set_member u u n chat ∙ rw (==-refl u, is_back (lookup u chat.members)) refl,
          ))
        (λ _. tt)

-- The row of an applicant who is let in: that of a member without overrides and named role, or the
-- applicant's old row, as someone who has not left.
abbrev pub let_in : Option Member → Member
let_in none = record { role = member; permissions = none; custom_role = none; left = false }
let_in (some old) = record {
  role = old.role;
  permissions = old.permissions;
  custom_role = old.custom_role;
  left = false;
}

let_in-row : (o : Option Member) → Repo.reinstate o ≡ let_in o
let_in-row none = refl
let_in-row (some old) = refl

-- An approved request counts the applicant once more, whether or not they were active, whatever the
-- limit of the chat is. An applicant without a row is a member without overrides and named role; one
-- with an old row is active with the role, the overrides and the named role of that row.
pub approve_exact :
    (actor target : Uuid) (chat after : Chat)
    → resolve_join_request actor target true chat ≡ ok after
    → (after.member_count ≡ chat.member_count + 1)
      × (actives after + bit (is_some (active target chat)) ≡ actives chat + 1)
      × (active target after ≡ some (let_in (lookup target chat.members)))
unfolding resolve_join_request
approve_exact actor target chat after done = rw (← (let_in-row (lookup target chat.members))) (
    Holds-ok (Approved target chat) _ after
      (authorize-Holds (Approved target chat) actor chat may_add_members _ λ _ _ _.
        map_err-Holds (Approved target chat) when_missing
          (Repo.resolve_join_request target true chat) (resolve_join_request-Approved target chat))
      done)
