-- ===== src/Realtime/Hub/Reach.antt =====
-- Every interleaving of the hub's methods. A connection is registered once, its read pump opens and
-- closes chats only while it is registered, and the bus delivers at any moment.
use sobhemessenger.Common.{
  ℕ, ◌+◌, ◌≤◌, ◌≡◌, Bool, true, false, none, List, [], ◌∷◌, arith, Uuid, Bytes, bit, contains,
  count, length, Bool-cases, inl, inr, count_if, ==-refl,
}
use sobhemessenger.Common.Assoc.{Assoc, lookup, total}
use sobhemessenger.Realtime.Client.{Client}
use sobhemessenger.Realtime.Hub.{
  Hub, new_hub, clients_of, register, unregister, drop_client, subscribe_chat, unsubscribe_chat,
  deliver_to_user, deliver_to_chat, shutdown, connection_count, is_online,
}
use sobhemessenger.Common.Assoc.{value-le-total}
use sobhemessenger.Realtime.Hub.Invariant.{Inv, is_registered, has_chat, new_hub-Inv}
use sobhemessenger.Realtime.Hub.Invariant.Leaving.{
  unregister-Inv, connection_count-drop_client, registered-after,
}
use sobhemessenger.Realtime.Hub.Invariant.Joining.{IsFresh, register-Inv}
use sobhemessenger.Realtime.Hub.Invariant.Chats.{subscribe_chat-Inv, unsubscribe_chat-Inv}
use sobhemessenger.Realtime.Hub.Delivery.{
  push-SameRegistry, close_all-SameRegistry, SameRegistry-Inv,
}

pub data Step (h : Hub) : Hub → Type 0 where
  registers : (bus_ok : Bool) (k : ℕ) → IsFresh k h → Step h (register bus_ok k h).0
  unregisters : (k : ℕ) → Step h (unregister k h)
  opens :
      (bus_ok : Bool) (k : ℕ) (c : Uuid)
      → is_registered k h ≡ true
      → Step h (subscribe_chat bus_ok k c h).0
  closes : (k : ℕ) (c : Uuid) → is_registered k h ≡ true → Step h (unsubscribe_chat k c h)
  tells_user :
      (chosen : ℕ → Bool) (u : Uuid) (frame : Bytes) → Step h (deliver_to_user chosen u frame h)
  tells_chat :
      (chosen : ℕ → Bool) (c : Uuid) (frame : Bytes) → Step h (deliver_to_chat chosen c frame h)
  shuts_down : Step h (shutdown h)

-- From a new hub, over clients that have no chat open.
pub data Reach (heap : ℕ → Client) : Hub → Type 0 where
  start : Reach heap (new_hub heap)
  next : {h h' : Hub} → Reach heap h → Step h h' → Reach heap h'

abbrev pub IsUnused : (ℕ → Client) → Type 0
IsUnused heap = (k : ℕ) → (heap k).chat_subscriptions ≡ []

pub Step-Inv : {h h' : Hub} → Step h h' → Inv h → Inv h'
unfolding deliver_to_user deliver_to_chat shutdown
Step-Inv {h} (registers bus_ok k fresh) i = register-Inv bus_ok k h i fresh
Step-Inv {h} (unregisters k) i = unregister-Inv k h i
Step-Inv {h} (opens bus_ok k c here) i = subscribe_chat-Inv bus_ok k c h i here
Step-Inv {h} (closes k c here) i = unsubscribe_chat-Inv k c h i here
Step-Inv {h} (tells_user chosen u frame) i = SameRegistry-Inv (push-SameRegistry chosen frame _ h) i
Step-Inv {h} (tells_chat chosen c frame) i = SameRegistry-Inv (push-SameRegistry chosen frame _ h) i
Step-Inv {h} shuts_down i = SameRegistry-Inv (close_all-SameRegistry _ h) i

-- Whatever methods run, in whatever order, the hub satisfies its invariant: one entry for a user
-- with at least one client, a client at most once and under its own user, a subscription for
-- exactly the users that are connected, a gauge that equals the connections, and for each chat as
-- many references as registered clients have it open, none kept at 0.
pub Reach-Inv : {heap : ℕ → Client} {h : Hub} → IsUnused heap → Reach heap h → Inv h
Reach-Inv {heap} unused start = new_hub-Inv heap (λ k c. unfold count in ground (arith, unused k))
Reach-Inv unused (next r s) = Step-Inv s (Reach-Inv unused r)

count_if-le-length : (p : ℕ → Bool) (ks : List ℕ) → count_if p ks ≤ length ks
count_if-le-length p [] = omega arith
count_if-le-length p (k ∷ ks) = ground (arith, count_if-le-length p ks)

listeners-le-count : (p : ℕ → Bool) (m : Assoc (List ℕ)) → total (count_if p) m ≤ total length m
unfolding total
listeners-le-count p [] = omega arith
listeners-le-count p ((u, ks) ∷ m) = omega (arith, count_if-le-length p ks, listeners-le-count p m)

-- In a reachable hub without connections nothing is left: no user and no chat is subscribed to, and
-- the gauge is 0.
pub Reach-no_leak :
    {heap : ℕ → Client} {h : Hub}
    → IsUnused heap
    → Reach heap h
    → connection_count h ≡ 0
    → ((u : Uuid) → contains u h.user_subs ≡ false)
      × ((c : Uuid) → lookup c h.chat_subs ≡ none)
      × (h.ws_connections ≡ 0)
unfolding connection_count
Reach-no_leak {heap} {h} unused r none_left =
    let i = Reach-Inv unused r in
    (
      λ u. ground (arith, i.subscribed u, i.occupied u, value-le-total length u h.connections),
      λ c. ground (
        arith,
        listeners-le-count (has_chat c h.client) h.connections,
        i.counted c,
        i.positive c,
      ),
      ground (arith, i.gauge),
    )

-- In a reachable hub a user is online exactly while its subject is subscribed to.
pub is_online-eq-contains :
    {heap : ℕ → Client} {h : Hub}
    → IsUnused heap
    → Reach heap h
    → (u : Uuid) → is_online u h ≡ contains u h.user_subs
unfolding is_online clients_of
is_online-eq-contains {h} unused r u =
    let i = Reach-Inv unused r in ground (arith, i.subscribed u, i.occupied u)

-- `unregister` of a hub that satisfies the invariant takes one from the connections if the client is
-- registered, and nothing otherwise; afterwards the client is not registered, so that a second call
-- changes nothing.
pub unregister_once :
    (k : ℕ) (h : Hub)
    → Inv h
    → (connection_count (unregister k h) + bit (is_registered k h) ≡ connection_count h)
      × (is_registered k (unregister k h) ≡ false)
      × (unregister k (unregister k h) ≡ unregister k h)
unfolding unregister
unregister_once k h i = elim (Bool-cases (is_registered k h)) [
  | inl here ↦ rw here (connection_count-drop_client k h i here, gone here, rw (gone here))
  | inr absent ↦ rw absent (omega arith, absent, rw absent)
]
  where
    gone :
        is_registered k h ≡ true
        → is_registered k (drop_client k (clients_of (h.client k).user_id h) h) ≡ false
    gone here = ground (arith, registered-after k h i here k, ==-refl k)
