-- ===== src/Realtime/Hub/Delivery.antt =====
-- Who receives a frame that the bus hands to the hub.
use mathlib.Core.Path.{fun_ext}
use sobhemessenger.Common.{
  ℕ, ◌+◌, ◌≤◌, ◌≡◌, refl, Bool, ◌&&◌, false, List, [], ◌∷◌, ◌++◌, arith, Uuid, Bytes, contains,
  count, update, if◌then◌else◌, ◌==◌, ap, ◌∙◌, count_if,
}
use sobhemessenger.Common.Lists.Sets.{contains-count}
use sobhemessenger.Common.Assoc.{Assoc, lookup, value, total}
use sobhemessenger.Realtime.Client.{Client, enqueue, close, close_server_shutdown}
use sobhemessenger.Realtime.Hub.{
  Hub, clients_of, push, with_chat, chat_targets, deliver_to_user, deliver_to_chat,
  connection_count, close_all,
}
use sobhemessenger.Common.Assoc.{value-le-total}
use sobhemessenger.Realtime.Hub.Invariant.{Inv, is_registered, has_chat}

count-append : (k : ℕ) (xs ys : List ℕ) → count k (xs ++ ys) ≡ count k xs + count k ys
unfolding count
count-append k [] ys = omega arith
count-append k (x ∷ xs) ys = omega (arith, count-append k xs ys)

count-with_chat :
    (h : Hub) (c : Uuid) (k : ℕ) (ks : List ℕ)
    → count k (with_chat h c ks) ≡ (if has_chat c h.client k then count k ks else 0)
unfolding with_chat count
count-with_chat h c k [] = ground arith
count-with_chat h c k (j ∷ ks) = ground (arith, count-with_chat h c k ks, λ (e : j ≡ k). same e)
  where
    same : j ≡ k → has_chat c h.client j ≡ has_chat c h.client k
    same e = rw e refl

count-chat_targets :
    (h : Hub) (c : Uuid) (k : ℕ) (m : Assoc (List ℕ))
    → count k (chat_targets h c m) ≡ (if has_chat c h.client k then total (count k) m else 0)
unfolding chat_targets total count
count-chat_targets h c k [] = ground arith
count-chat_targets h c k ((u, ks) ∷ m) = ground (
  arith,
  count-append k (with_chat h c ks) (chat_targets h c m),
  count-with_chat h c k ks,
  count-chat_targets h c k m,
)

-- A client that stands once among the targets gets the frame once, all others get nothing.
client-push :
    (chosen : ℕ → Bool) (frame : Bytes) (j : ℕ) (ks : List ℕ) (h : Hub)
    → count j ks ≤ 1
    → (push chosen frame ks h).client j
      ≡ (if contains j ks then enqueue (chosen j) frame (h.client j) else h.client j)
unfolding push contains count update
client-push chosen frame j [] h once = refl
client-push chosen frame j (k ∷ ks) h once = ground (
  arith,
  client-push chosen frame j ks
      (record h { client = update h.client k (enqueue (chosen k) frame (h.client k)) }),
  contains-count j ks,
)

two_values :
    (f : List ℕ → ℕ) (u v : Uuid) (m : Assoc (List ℕ))
    → (u == v) ≡ false
    → value f (lookup u m) + value f (lookup v m) ≤ total f m
unfolding lookup total
two_values f u v [] e = omega arith
two_values f u v ((j, w) ∷ m) e =
    ground (arith, two_values f u v m e, value-le-total f u m, value-le-total f v m)

-- A set of the hub holds a client exactly if it is registered and the set is that of its user.
pub contains-clients_of :
    (j : ℕ) (u : Uuid) (h : Hub)
    → Inv h
    → contains j (clients_of u h) ≡ (is_registered j h && ((h.client j).user_id == u))
unfolding clients_of contains
contains-clients_of j u h i = ground (
  arith,
  two_values (count j) u (h.client j).user_id h.connections,
  i.owned j,
  contains-count j (clients_of u h),
  contains-count j (clients_of (h.client j).user_id h),
)

-- In a hub that satisfies the invariant, a frame on a user's subject is handed once to each
-- registered client of that user, and every other client is left as it was.
pub deliver_to_user_exact :
    (chosen : ℕ → Bool) (u : Uuid) (frame : Bytes) (h : Hub)
    → Inv h
    → (j : ℕ)
    → (deliver_to_user chosen u frame h).client j ≡ (
        if is_registered j h && ((h.client j).user_id == u)
        then enqueue (chosen j) frame (h.client j)
        else h.client j)
unfolding deliver_to_user
deliver_to_user_exact chosen u frame h i j = ground (
  arith,
  client-push chosen frame j (clients_of u h) h,
  contains-clients_of j u h i,
  contains-count j (clients_of u h),
  value-le-total (count j) u h.connections,
  i.owned j,
  count-clients_of,
)
  where
    count-clients_of : count j (clients_of u h) ≡ value (count j) (lookup u h.connections)
    count-clients_of = unfold clients_of count in ground arith

-- In a hub that satisfies the invariant, a frame on a chat's subject is handed once to each
-- registered client that has the chat open, whoever sent it, and every other client is left as it
-- was.
pub deliver_to_chat_exact :
    (chosen : ℕ → Bool) (c : Uuid) (frame : Bytes) (h : Hub)
    → Inv h
    → (j : ℕ)
    → (deliver_to_chat chosen c frame h).client j ≡ (
        if is_registered j h && has_chat c h.client j
        then enqueue (chosen j) frame (h.client j)
        else h.client j)
unfolding deliver_to_chat
deliver_to_chat_exact chosen c frame h i j = ground (
  arith,
  client-push chosen frame j (chat_targets h c h.connections) h,
  count-chat_targets h c j h.connections,
  contains-count j (chat_targets h c h.connections),
  i.owned j,
)

-- Only heaps differ after a delivery or a shutdown, and no client's user or chats.
pub record SameRegistry (h' h : Hub) : Type 0 where
  pub connections : h'.connections ≡ h.connections
  pub user_subs : h'.user_subs ≡ h.user_subs
  pub chat_subs : h'.chat_subs ≡ h.chat_subs
  pub ws_connections : h'.ws_connections ≡ h.ws_connections
  pub user_id : (j : ℕ) → (h'.client j).user_id ≡ (h.client j).user_id
  pub chats : (j : ℕ) → (h'.client j).chat_subscriptions ≡ (h.client j).chat_subscriptions

SameRegistry-write :
    (k : ℕ) (f : Client → Client) (h : Hub)
    → ((c : Client)
        → ((f c).user_id ≡ c.user_id) × ((f c).chat_subscriptions ≡ c.chat_subscriptions))
    → SameRegistry (record h { client = update h.client k (f (h.client k)) }) h
unfolding update
SameRegistry-write k f h same = record {
  connections = refl;
  user_subs = refl;
  chat_subs = refl;
  ws_connections = refl;
  user_id = λ j. ground (arith, same (h.client k));
  chats = λ j. ground (arith, same (h.client k));
}

SameRegistry-trans : {a b c : Hub} → SameRegistry a b → SameRegistry b c → SameRegistry a c
SameRegistry-trans p q = record {
  connections = p.connections ∙ q.connections;
  user_subs = p.user_subs ∙ q.user_subs;
  chat_subs = p.chat_subs ∙ q.chat_subs;
  ws_connections = p.ws_connections ∙ q.ws_connections;
  user_id = λ j. p.user_id j ∙ q.user_id j;
  chats = λ j. p.chats j ∙ q.chats j;
}

SameRegistry-refl : (h : Hub) → SameRegistry h h
SameRegistry-refl h = record {
  connections = refl;
  user_subs = refl;
  chat_subs = refl;
  ws_connections = refl;
  user_id = λ j. refl;
  chats = λ j. refl;
}

pub push-SameRegistry :
    (chosen : ℕ → Bool) (frame : Bytes) (ks : List ℕ) (h : Hub)
    → SameRegistry (push chosen frame ks h) h
unfolding push enqueue
push-SameRegistry chosen frame [] h = SameRegistry-refl h
push-SameRegistry chosen frame (k ∷ ks) h =
    SameRegistry-trans (push-SameRegistry chosen frame ks _)
      (SameRegistry-write k (enqueue (chosen k) frame) h (λ c. ground arith))

pub close_all-SameRegistry : (ks : List ℕ) (h : Hub) → SameRegistry (close_all ks h) h
unfolding close_all close
close_all-SameRegistry [] h = SameRegistry-refl h
close_all-SameRegistry (k ∷ ks) h =
    SameRegistry-trans (close_all-SameRegistry ks _)
      (SameRegistry-write k (close close_server_shutdown) h (λ c. ground arith))

total-same :
    (f g : ℕ → Bool) (m : Assoc (List ℕ))
    → ((j : ℕ) → f j ≡ g j)
    → total (count_if f) m ≡ total (count_if g) m
total-same f g m e = ap (λ p. total (count_if p) m) (fun_ext e)

-- A delivery or a shutdown keeps the invariant.
pub SameRegistry-Inv : {h' h : Hub} → SameRegistry h' h → Inv h → Inv h'
unfolding clients_of connection_count
SameRegistry-Inv {h'} {h} s i = record {
  distinct = rw s.connections i.distinct;
  occupied = λ u. rw s.connections (i.occupied u);
  owned = λ k. ground (arith, s.connections, s.user_id k, i.owned k);
  chats_once = λ k c. rw (s.chats k) (i.chats_once k c);
  subscribed = λ u. ground (arith, s.connections, s.user_subs, i.subscribed u);
  gauge = ground (arith, s.connections, s.ws_connections, i.gauge);
  counted = λ c. ground (
    arith,
    s.connections,
    s.chat_subs,
    i.counted c,
    total-same (has_chat c h'.client) (has_chat c h.client) h.connections
        (λ j. ap (contains c) (s.chats j)),
  );
  positive = λ c. rw s.chat_subs (i.positive c);
}
