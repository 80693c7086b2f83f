-- ===== src/Realtime/Hub/Invariant/Joining.antt =====
-- `register` keeps the invariant. A connection is registered once, before any of its frames is
-- handled: the client is new to the hub and has no chat open.
use sobhemessenger.Common.{
  ℕ, ◌+◌, ◌≡◌, refl, Bool, ◌||◌, ◌&&◌, ◌∷◌, true, false, List, [], arith, Uuid, bit, contains, add,
  remove, count, length, Bool-cases, inl, inr, if◌then◌else◌, ◌==◌, contains-add, ==-refl, ap,
  count-add, count_if,
}
use sobhemessenger.Common.Lists.Sets.{length-add, count_if-add}
use sobhemessenger.Common.Assoc.{
  lookup, insert, total, lookup-insert, insert-IsDistinct, total-insert, lookup-delete,
  delete-IsDistinct, total-delete, delete,
}
use sobhemessenger.Realtime.Hub.{Hub, or_empty, clients_of, set_clients, register, connection_count}
use sobhemessenger.Realtime.Hub.Invariant.{Inv, is_registered, occurrences, has_chat}

-- A client as `newClient` hands it over.
abbrev pub IsFresh : ℕ → Hub → Type 0
IsFresh k h = (is_registered k h ≡ false) × ((h.client k).chat_subscriptions ≡ [])

module _ (k : ℕ) (h : Hub) (i : Inv h) (fresh : IsFresh k h) where
  abbrev u : Uuid
  u = (h.client k).user_id

  abbrev joined : List ℕ
  joined = add k (clients_of u h)

  -- The user has a subscription, an old one or a new one.
  module _ (subs : List Uuid)
      (has : (v : Uuid) → contains v subs ≡ ((u == v) || contains v h.user_subs)) where
    abbrev after : Hub
    after = record h {
      connections = insert u joined h.connections;
      user_subs = subs;
      ws_connections = h.ws_connections + 1;
    }

    grown :
        (f : List ℕ → ℕ)
        → f [] ≡ 0
        → total f after.connections + f (clients_of u h) ≡ total f h.connections + f joined
    unfolding clients_of
    grown f z = ground (arith, total-insert f u joined h.connections, z)

    occurrences-after : (j : ℕ) → occurrences j after ≡ occurrences j h + bit (k == j)
    occurrences-after j =
        ground
          (arith, grown (count j) (unfold count in refl), count-add k j (clients_of u h), fresh)

    registered-after : (j : ℕ) → is_registered j after ≡ ((k == j) || is_registered j h)
    unfolding clients_of contains
    registered-after j = ground (
      arith,
      lookup-insert u (h.client j).user_id joined h.connections,
      contains-add k j (clients_of u h),
    )

    joined-Inv : Inv after
    unfolding connection_count
    joined-Inv = record {
      distinct = insert-IsDistinct u joined h.connections i.distinct;
      occupied = λ v.
          unfold add contains in
          ground (arith, lookup-insert u v joined h.connections, i.occupied v);
      owned = λ j. ground (arith, occurrences-after j, registered-after j, i.owned j, fresh);
      chats_once = i.chats_once;
      subscribed =
          λ v. ground (arith, has v, lookup-insert u v joined h.connections, i.subscribed v);
      gauge = ground (arith, grown length refl, length-add k (clients_of u h), fresh, i.gauge);
      counted = λ c.
          unfold contains in
          ground (
            arith,
            grown (count_if (has_chat c h.client)) refl,
            count_if-add (has_chat c h.client) k (clients_of u h),
            fresh,
            i.counted c,
          );
      positive = i.positive;
    }

    joined_outcome :
        (connection_count after ≡ connection_count h + 1)
        × (is_registered k after ≡ true)
        × ((v : Uuid)
            → clients_of v after ≡ (if u == v then add k (clients_of v h) else clients_of v h))
    unfolding connection_count
    joined_outcome = (
      ground (arith, grown length refl, length-add k (clients_of u h), fresh),
      ground (arith, registered-after k, ==-refl k),
      λ v.
          unfold clients_of in
          ground (arith, lookup-insert u v joined h.connections, λ (e : u ≡ v). same_set v e),
    )
      where
        same_set : (v : Uuid) → u ≡ v → joined ≡ add k (clients_of v h)
        same_set v e = rw e refl

  -- The bus refused the subscription of a user without one.
  module _ (alone : contains u h.user_subs ≡ false) where
    abbrev refused : Hub
    refused = record h {
      connections = set_clients u (remove k joined) (insert u joined h.connections);
    }

    refused-connections : refused.connections ≡ delete u (insert u (k ∷ []) h.connections)
    unfolding set_clients clients_of add remove contains
    refused-connections = ground (arith, i.subscribed u)

    same_lookup : (v : Uuid) → lookup v refused.connections ≡ lookup v h.connections
    same_lookup v = ground (
      arith,
      refused-connections,
      lookup-delete u v (insert u (k ∷ []) h.connections),
      lookup-insert u v (k ∷ []) h.connections,
      i.subscribed u,
      alone,
    )

    same_total : (f : List ℕ → ℕ) → total f refused.connections ≡ total f h.connections
    same_total f = ground (
      arith,
      refused-connections,
      total-delete f u (insert u (k ∷ []) h.connections)
          (insert-IsDistinct u (k ∷ []) h.connections i.distinct),
      lookup-insert u u (k ∷ []) h.connections,
      total-insert f u (k ∷ []) h.connections,
      i.subscribed u,
      alone,
    )

    refused-Inv : Inv refused
    unfolding connection_count clients_of
    refused-Inv = record {
      distinct = rw refused-connections (
          delete-IsDistinct u (insert u (k ∷ []) h.connections)
            (insert-IsDistinct u (k ∷ []) h.connections i.distinct));
      occupied = λ v. rw (same_lookup v) (i.occupied v);
      owned =
          λ j. ground (arith, same_total (count j), same_lookup (h.client j).user_id, i.owned j);
      chats_once = i.chats_once;
      subscribed = λ v. rw (same_lookup v) (i.subscribed v);
      gauge = ground (arith, same_total length, i.gauge);
      counted = λ c. ground (arith, same_total (count_if (has_chat c h.client)), i.counted c);
      positive = i.positive;
    }

    refused_outcome :
        (connection_count refused ≡ connection_count h + 0)
        × (is_registered k refused ≡ false)
        × ((v : Uuid) → clients_of v refused ≡ clients_of v h)
    unfolding connection_count clients_of
    refused_outcome = (
      ground (arith, same_total length),
      ground (arith, same_lookup u, fresh),
      λ v. ap or_empty (same_lookup v),
    )

pub register-Inv :
    (bus_ok : Bool) (k : ℕ) (h : Hub) → Inv h → IsFresh k h → Inv (register bus_ok k h).0
unfolding register
register-Inv bus_ok k h i fresh = elim (Bool-cases (contains (h.client k).user_id h.user_subs)) [
  | inl old ↦ rw old (joined-Inv k h i fresh h.user_subs (λ v. ground (arith, old)))
  | inr new ↦ elim bus_ok as (λ b. Inv (register b k h).0) [
    | true ↦ rw new (
        joined-Inv k h i fresh (add (h.client k).user_id h.user_subs)
          (λ v. contains-add (h.client k).user_id v h.user_subs))
    | false ↦ rw new (refused-Inv k h i fresh new)
  ]
]

abbrev pub Outcome : Bool → ℕ → Hub → Type 0
Outcome bus_ok k h =
    let h' = (register bus_ok k h).0 in
    let accepted = (register bus_ok k h).1 in
    (accepted ≡ (contains (h.client k).user_id h.user_subs || bus_ok))
    × (connection_count h' ≡ connection_count h + bit accepted)
    × (is_registered k h' ≡ accepted)
    × ((v : Uuid)
        → clients_of v h' ≡ (
            if accepted && ((h.client k).user_id == v)
            then add k (clients_of v h)
            else clients_of v h))

-- `register` adds one to the connections exactly if it succeeds, which it does where the user has a
-- subscription or the bus opens one. Then the client is registered and added to the set of its user; every
-- other user, and every user where the bus refuses, has the clients that it had before.
pub register-Outcome : (bus_ok : Bool) (k : ℕ) (h : Hub) → Inv h → IsFresh k h → Outcome bus_ok k h
unfolding register
register-Outcome bus_ok k h i fresh =
    elim (Bool-cases (contains (h.client k).user_id h.user_subs)) [
      | inl old ↦
          let (count, here, sets) =
            joined_outcome k h i fresh h.user_subs (λ v. ground (arith, old)) in
          rw old (refl, count, here, sets)
      | inr new ↦ elim bus_ok as (λ b. Outcome b k h) [
        | true ↦
            let (count, here, sets) =
              joined_outcome k h i fresh (add (h.client k).user_id h.user_subs)
                (λ v. contains-add (h.client k).user_id v h.user_subs) in
            rw (new, register) (refl, count, here, sets)
        | false ↦
            let (count, gone, same) = refused_outcome k h i fresh new in
            rw (new, register) (refl, count, gone, same)
      ]
    ]
