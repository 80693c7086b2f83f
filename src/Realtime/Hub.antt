-- ===== src/Realtime/Hub.antt =====
-- backend/internal/realtime/hub.go: the sockets that one node holds.
-- Pointers to clients are numbers, and `client` is the heap that they point into, so that the hub
-- and the read pump see one object. A call of the message bus that may fail takes its outcome as an
-- argument. The locks make each method one step.
pub mod Maps
pub mod Invariant
pub mod Delivery
pub mod Reach
use sobhemessenger.Common.{
  ℕ, ◌+◌, ◌-◌, Bool, true, false, Option, none, some, List, [], ◌∷◌, ◌++◌, Uuid, Bytes, update, ltb,
  contains, add, remove, length, if◌then◌else◌,
}
use sobhemessenger.Common.Assoc.{Assoc, lookup, insert, delete, total}
use sobhemessenger.Realtime.Client.{Client, close, enqueue, close_server_shutdown}

pub record Hub : Type 0 where
  pub connections : Assoc (List ℕ)
  pub user_subs : List Uuid
  pub chat_subs : Assoc ℕ
  pub ws_connections : ℕ
  pub client : ℕ → Client

unfoldable pub new_hub : (ℕ → Client) → Hub
new_hub heap = record {
  connections = [];
  user_subs = [];
  chat_subs = [];
  ws_connections = 0;
  client = heap;
}

abbrev pub is_empty : List ℕ → Bool
is_empty [] = true
is_empty (_ ∷ _) = false

abbrev pub or_empty : Option (List ℕ) → List ℕ
or_empty none = []
or_empty (some clients) = clients

-- The clients of a user, the empty set where the map has none.
unfoldable pub clients_of : Uuid → Hub → List ℕ
clients_of u h = or_empty (lookup u h.connections)

-- `if len(clients) == 0 { delete(h.connections, userID) }`, after the set was written.
unfoldable pub set_clients : Uuid → List ℕ → Assoc (List ℕ) → Assoc (List ℕ)
set_clients u left m = if is_empty left then delete u m else insert u left m

-- `false` is an error of the bus.
unfoldable pub register : Bool → ℕ → Hub → Hub × Bool
unfolding clients_of set_clients
register bus_ok k h =
    let u = (h.client k).user_id in
    let clients = add k (clients_of u h) in
    let joined = insert u clients h.connections in
    if contains u h.user_subs
    then (record h { connections = joined; ws_connections = h.ws_connections + 1 }, true)
    else if bus_ok
    then (
      record h {
        connections = joined;
        user_subs = add u h.user_subs;
        ws_connections = h.ws_connections + 1;
      },
      true,
    )
    else (record h { connections = set_clients u (remove k clients) joined }, false)

-- `refCount--`; an entry that does not stay above 0 is deleted.
unfoldable pub release_chat : Uuid → Hub → Hub
release_chat c h = elim (lookup c h.chat_subs) [
  | none ↦ h
  | some refs ↦
      if ltb 0 (refs - 1)
      then record h { chat_subs = insert c (refs - 1) h.chat_subs }
      else record h { chat_subs = delete c h.chat_subs }
]

-- The last loop of `unregister`.
unfoldable pub release_chats : List Uuid → Hub → Hub
release_chats [] h = h
release_chats (c ∷ cs) h = release_chats cs (release_chat c h)

-- `unregister` behind its two guards.
unfoldable pub drop_client : ℕ → List ℕ → Hub → Hub
unfolding set_clients
drop_client k clients h =
    let u = (h.client k).user_id in
    let left = remove k clients in
    release_chats (h.client k).chat_subscriptions (record h {
      connections = set_clients u left h.connections;
      user_subs = if is_empty left then remove u h.user_subs else h.user_subs;
      ws_connections = h.ws_connections - 1;
    })

unfoldable pub unregister : ℕ → Hub → Hub
unfolding clients_of
unregister k h =
    let clients = clients_of (h.client k).user_id h in
    if contains k clients then drop_client k clients h else h

unfoldable pub set_chats : ℕ → List Uuid → Hub → ℕ → Client
set_chats k chats h = update h.client k (record (h.client k) { chat_subscriptions = chats })

unfoldable pub subscribe_chat : Bool → ℕ → Uuid → Hub → Hub × Bool
unfolding set_chats
subscribe_chat bus_ok k c h =
    let chats = (h.client k).chat_subscriptions in
    let opened = set_chats k (add c chats) h in
    if contains c chats then (h, true) else elim (lookup c h.chat_subs) [
      | some refs ↦
          (record h { chat_subs = insert c (refs + 1) h.chat_subs; client = opened }, true)
      | none ↦
          if bus_ok
          then (record h { chat_subs = insert c 1 h.chat_subs; client = opened }, true)
          else (h, false)
    ]

unfoldable pub unsubscribe_chat : ℕ → Uuid → Hub → Hub
unfolding set_chats
unsubscribe_chat k c h =
    let chats = (h.client k).chat_subscriptions in
    if contains c chats
    then release_chat c (record h { client = set_chats k (remove c chats) h })
    else h

-- One `client.enqueue(frame)` for each target. `chosen` settles the `select` of each client.
unfoldable pub push : (ℕ → Bool) → Bytes → List ℕ → Hub → Hub
push chosen frame [] h = h
push chosen frame (k ∷ ks) h =
    push chosen frame ks
      (record h { client = update h.client k (enqueue (chosen k) frame (h.client k)) })

unfoldable pub deliver_to_user : (ℕ → Bool) → Uuid → Bytes → Hub → Hub
unfolding clients_of
deliver_to_user chosen u frame h = push chosen frame (clients_of u h) h

unfoldable pub with_chat : Hub → Uuid → List ℕ → List ℕ
with_chat h c [] = []
with_chat h c (k ∷ ks) =
    let rest = with_chat h c ks in
    if contains c (h.client k).chat_subscriptions then k ∷ rest else rest

-- The two loops that collect the targets of `deliverToChat`.
unfoldable pub chat_targets : Hub → Uuid → Assoc (List ℕ) → List ℕ
unfolding with_chat
chat_targets h c [] = []
chat_targets h c ((u, ks) ∷ m) = with_chat h c ks ++ chat_targets h c m

unfoldable pub deliver_to_chat : (ℕ → Bool) → Uuid → Bytes → Hub → Hub
deliver_to_chat chosen c frame h = push chosen frame (chat_targets h c h.connections) h

unfoldable pub connection_count : Hub → ℕ
connection_count h = total length h.connections

unfoldable pub is_online : Uuid → Hub → Bool
unfolding clients_of
is_online u h = ltb 0 (length (clients_of u h))

unfoldable pub all_clients : Assoc (List ℕ) → List ℕ
all_clients [] = []
all_clients ((u, ks) ∷ m) = ks ++ all_clients m

unfoldable pub close_all : List ℕ → Hub → Hub
close_all [] h = h
close_all (k ∷ ks) h =
    close_all ks
      (record h { client = update h.client k (close close_server_shutdown (h.client k)) })

unfoldable pub shutdown : Hub → Hub
shutdown h = close_all (all_clients h.connections) h
