-- ===== src/Groups/Membership/Requests.antt =====
-- Join requests, roles and links: the other statements of the repository beside the invariant.
use sobhemessenger.Common.{
  ◌≡◌, refl, Bool, false, none, some, Uuid, arith, Option, Bool-cases, inl, inr,
}
use sobhemessenger.Common.Assoc.{Assoc, lookup, insert, insert-IsDistinct}
use sobhemessenger.Httpx.{ok, err, Holds, if-Holds}
use sobhemessenger.Messaging.Permissions.{member}
use sobhemessenger.Groups.Chat.{
  NamedRole, Invite, Member, Chat, no_chat, Status, approved, rejected,
}
use sobhemessenger.Groups.Repository.{
  set_member, bump_up, new_member, reinstate, create_join_request, is_pending, resolve_join_request,
}
use sobhemessenger.Groups.Membership.{
  Inv, is_active, is_active_owner, is_past_owner, how_many-set_member,
}
use sobhemessenger.Groups.Membership.Statements.{seat-Inv, no_ghost}

module _ (u : Uuid) (chat : Chat) (i : Inv chat) where
  pub requests-Inv : (requests : Assoc Status) → Inv (record chat { requests = requests })
  requests-Inv requests = record {
    distinct = i.distinct;
    counted = i.counted;
    mirrored = i.mirrored;
    single = i.single;
    present = i.present;
  }

  pub roles-Inv : (roles : Assoc NamedRole) → Inv (record chat { roles = roles })
  roles-Inv roles = record {
    distinct = i.distinct;
    counted = i.counted;
    mirrored = i.mirrored;
    single = i.single;
    present = i.present;
  }

  pub invites-Inv : (invites : Assoc Invite) → Inv (record chat { invites = invites })
  invites-Inv invites = record {
    distinct = i.distinct;
    counted = i.counted;
    mirrored = i.mirrored;
    single = i.single;
    present = i.present;
  }

  pub create_join_request-Inv : Inv (create_join_request u chat)
  unfolding create_join_request
  create_join_request-Inv = elim (Bool-cases (is_pending (lookup u chat.requests))) [
    | inl waiting ↦ rw waiting i
    | inr new ↦ rw new (requests-Inv _)
  ]

  -- An approval counts the user in, who may be active already.
  reinstate-Inv :
      chat.deleted ≡ false
      → (o : Option Member) → lookup u chat.members ≡ o
      → Inv (bump_up (set_member u (reinstate o) chat))
  unfolding bump_up
  reinstate-Inv alive none e =
      seat-Inv u chat i (new_member member) refl refl (rw e refl) (no_ghost u chat i alive)
  reinstate-Inv alive (some m) e =
      let n : Member = record m { left = false } in
      record {
        distinct = insert-IsDistinct u n chat.members i.distinct;
        counted = ground (arith, how_many-set_member is_active u n chat, i.counted);
        mirrored = ground (arith, i.mirrored);
        single = ground (
          arith,
          how_many-set_member is_active_owner u n chat,
          i.single,
          e,
          no_ghost u chat i alive,
        );
        present = ground (arith, how_many-set_member is_past_owner u n chat, i.present, e);
      }

pub resolve_join_request-Inv :
    (u : Uuid) (chat : Chat)
    → Inv chat
    → (approve : Bool) → chat.deleted ≡ false
    → Holds Inv (resolve_join_request u approve chat)
unfolding resolve_join_request
resolve_join_request-Inv u chat i approve alive =
    if-Holds Inv (is_pending (lookup u chat.requests)) _ (err no_chat)
      (λ _.
        if-Holds Inv approve
          (ok (
            bump_up (
              set_member u (reinstate (lookup u chat.members))
                (record chat { requests = insert u approved chat.requests }))))
          (ok (record chat { requests = insert u rejected chat.requests }))
          (λ _.
            reinstate-Inv u (record chat { requests = insert u approved chat.requests })
              (requests-Inv u chat i _) alive (lookup u chat.members) refl)
          (λ _. requests-Inv u chat i _))
      (λ _. tt)
