-- ===== src/Realtime/Hub/Invariant/Leaving.antt =====
-- `unregister` keeps the invariant.
use sobhemessenger.Common.{
  ℕ, ◌+◌, ◌-◌, ◌≡◌, refl, true, false, some, none, List, arith, Uuid, bit, contains, remove, count,
  length, is_some, Bool-cases, inl, inr, if◌then◌else◌, ◌==◌, contains-remove, count-remove,
  count_if,
}
use sobhemessenger.Common.Lists.Sets.{length-remove, contains-count, bit-contains, count_if-remove}
use sobhemessenger.Common.Assoc.{lookup}
use sobhemessenger.Common.Assoc.{value-le-total}
use sobhemessenger.Realtime.Hub.{
  Hub, is_empty, clients_of, set_clients, drop_client, unregister, connection_count,
}
use sobhemessenger.Realtime.Hub.Maps.{
  lookup-set_clients, set_clients-IsDistinct, total-set_clients, ref_count,
  release_chats-SameButChats, ref_count-release_chats, release_chats-IsPositive, IsPositive,
}
use sobhemessenger.Realtime.Hub.Invariant.{Inv, is_registered, occurrences, has_chat, listeners}

module _ (k : ℕ) (h : Hub) (i : Inv h) (here : is_registered k h ≡ true) where
  abbrev u : Uuid
  u = (h.client k).user_id

  abbrev left : List ℕ
  left = remove k (clients_of u h)

  abbrev after : Hub
  after = drop_client k (clients_of u h) h

  found : lookup u h.connections ≡ some (clients_of u h)
  unfolding clients_of contains
  found = ground arith

  once : count k (clients_of u h) ≡ 1
  once = ground (
    arith,
    value-le-total (count k) u h.connections,
    found,
    contains-count k (clients_of u h),
    i.owned k,
  )

  fields :
      (after.connections ≡ set_clients u left h.connections)
      × (after.user_subs ≡ (if is_empty left then remove u h.user_subs else h.user_subs))
      × (after.client ≡ h.client)
      × (after.ws_connections + 1 ≡ h.ws_connections)
  unfolding drop_client connection_count
  fields = ground (
    arith,
    release_chats-SameButChats (h.client k).chat_subscriptions (record h {
      connections = set_clients u left h.connections;
      user_subs = if is_empty left then remove u h.user_subs else h.user_subs;
      ws_connections = h.ws_connections - 1;
    }),
    i.gauge,
    value-le-total length u h.connections,
    found,
    length-remove k (clients_of u h),
    once,
  )

  occurrences-after : (j : ℕ) → occurrences j after ≡ (if k == j then 0 else occurrences j h)
  occurrences-after j = ground (
    arith,
    fields,
    total-set_clients u left h.connections (count j) (unfold count in refl) i.distinct,
    found,
    count-remove k j (clients_of u h),
    once,
    here,
    i.owned k,
    value-le-total (count j) u h.connections,
  )

  pub connection_count-drop_client : connection_count after + 1 ≡ connection_count h
  unfolding connection_count
  connection_count-drop_client = ground (
    arith,
    fields,
    total-set_clients u left h.connections length refl i.distinct,
    found,
    length-remove k (clients_of u h),
    once,
  )

  listeners-after : (c : Uuid) → listeners c after + bit (has_chat c h.client k) ≡ listeners c h
  listeners-after c = ground (
    arith,
    fields,
    total-set_clients u left h.connections (count_if (has_chat c h.client)) refl i.distinct,
    found,
    count_if-remove (has_chat c h.client) k (clients_of u h),
    once,
  )

  lookup-after :
      (v : Uuid)
      → lookup v after.connections
        ≡ (if u == v then (if is_empty left then none else some left) else lookup v h.connections)
  lookup-after v = cc (fields.0, lookup-set_clients u left h.connections v)

  pub registered-after :
      (j : ℕ) → is_registered j after ≡ (if k == j then false else is_registered j h)
  unfolding clients_of contains
  registered-after j = ground (
    arith,
    fields,
    lookup-after (h.client j).user_id,
    contains-remove k j (clients_of u h),
    found,
  )

  subscribed-after : (v : Uuid) → contains v after.user_subs ≡ is_some (lookup v after.connections)
  subscribed-after v =
      ground (arith, fields, lookup-after v, contains-remove u v h.user_subs, i.subscribed v, found)

  counted-after : (c : Uuid) → ref_count c after ≡ listeners c after
  unfolding drop_client
  counted-after c = ground (
    arith,
    listeners-after c,
    ref_count-release_chats (h.client k).chat_subscriptions c (record h {
      connections = set_clients u left h.connections;
      user_subs = if is_empty left then remove u h.user_subs else h.user_subs;
      ws_connections = h.ws_connections - 1;
    }),
    bit-contains c (h.client k).chat_subscriptions (i.chats_once k c),
    i.counted c,
  )

  IsPositive-after : IsPositive after
  unfolding drop_client
  IsPositive-after = release_chats-IsPositive (h.client k).chat_subscriptions _ i.positive

  drop_client-Inv : Inv after
  drop_client-Inv = record {
    distinct = rw fields.0 (set_clients-IsDistinct u left h.connections i.distinct);
    occupied = λ v. ground (arith, lookup-after v, i.occupied v);
    owned = λ j. ground (arith, occurrences-after j, registered-after j, i.owned j);
    chats_once = λ j c. rw fields.2 (i.chats_once j c);
    subscribed = subscribed-after;
    gauge = ground (arith, fields, connection_count-drop_client, i.gauge);
    counted = counted-after;
    positive = IsPositive-after;
  }

pub unregister-Inv : (k : ℕ) (h : Hub) → Inv h → Inv (unregister k h)
unfolding unregister
unregister-Inv k h i = elim (Bool-cases (is_registered k h)) [
  | inl here ↦ rw here (drop_client-Inv k h i here)
  | inr absent ↦ rw absent i
]
