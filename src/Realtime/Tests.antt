-- ===== src/Realtime/Tests.antt =====
-- Runs of the hub, and the theorems at them.
use sobhemessenger.Common.{
  ℕ, ◌≤◌, ◌≡◌, refl, ◌⊎◌, ◌&&◌, true, false, some, none, [], ◌∷◌, ◌++◌, arith, Uuid, contains, add,
  is_some, length, if◌then◌else◌, ◌==◌, count, remove, update,
}
use sobhemessenger.Common.Assoc.{lookup, insert, delete, total}
use sobhemessenger.Realtime.Client.{Client, new_client, close, enqueue, send_buffer_size}
use sobhemessenger.Realtime.Client.Buffer.{enqueue_never_loses}
use sobhemessenger.Realtime.Hub.{
  Hub, new_hub, clients_of, set_clients, register, unregister, drop_client, release_chats,
  release_chat, set_chats, subscribe_chat, unsubscribe_chat, push, deliver_to_user, deliver_to_chat,
  with_chat, chat_targets, connection_count, is_online, all_clients, close_all, shutdown,
}
use sobhemessenger.Realtime.Hub.Invariant.{Inv, is_registered, has_chat}
use sobhemessenger.Realtime.Hub.Invariant.Joining.{Outcome, register-Outcome}
use sobhemessenger.Realtime.Hub.Delivery.{deliver_to_chat_exact}
use sobhemessenger.Realtime.Hub.Reach.{
  Reach, registers, unregisters, opens, start, next, IsUnused, Reach-Inv, Reach-no_leak,
  is_online-eq-contains,
}

hub_code : Unit {0}
unfolding new_hub clients_of set_clients register unregister drop_client release_chats release_chat
    set_chats subscribe_chat unsubscribe_chat push deliver_to_user deliver_to_chat with_chat
    chat_targets connection_count is_online all_clients close_all shutdown new_client close enqueue
    lookup insert delete total contains add remove count update
hub_code = tt

-- Clients 1 and 2 are of user 7, client 3 is of user 8.
abbrev user_of : ℕ → Uuid
user_of k = if k == 3 then 8 else 7

heap : ℕ → Client
heap k = new_client (user_of k)

abbrev one : Hub
one = (register true 1 (new_hub heap)).0

abbrev two : Hub
two = (register true 3 one).0

-- Users 7 and 8 have a connection each, and 7 has chat 50 open.
abbrev busy : Hub
busy = (subscribe_chat true 1 50 two).0

abbrev gone : Hub
gone = unregister 3 (unregister 1 busy)

heap-IsUnused : IsUnused heap
unfolding heap hub_code
heap-IsUnused k = refl

busy-Reach : Reach heap busy
unfolding heap hub_code
busy-Reach =
    next (next (next start (registers true 1 (refl, refl))) (registers true 3 (refl, refl)))
      (opens true 1 50 refl)

gone-Reach : Reach heap gone
gone-Reach = next (next busy-Reach (unregisters 1)) (unregisters 3)

busy_tests :
    (connection_count busy ≡ 2)
    × (lookup 50 busy.chat_subs ≡ some 1)
    × (is_online 7 busy ≡ true)
    × (is_online 9 busy ≡ false)
    × (lookup 50 (unregister 1 busy).chat_subs ≡ none)
    × ((shutdown busy).client 3 ≡ record (heap 3) { close_code = some 4000 })
unfolding heap hub_code
busy_tests = (refl, refl, refl, refl, refl, refl)

Reach-Inv_example : Inv busy
Reach-Inv_example = Reach-Inv heap-IsUnused busy-Reach

Reach-no_leak_example :
    ((u : Uuid) → contains u gone.user_subs ≡ false)
    × ((c : Uuid) → lookup c gone.chat_subs ≡ none)
    × (gone.ws_connections ≡ 0)
unfolding heap hub_code
Reach-no_leak_example = Reach-no_leak heap-IsUnused gone-Reach refl

is_online-eq-contains_example : is_online 7 busy ≡ contains 7 busy.user_subs
is_online-eq-contains_example = is_online-eq-contains heap-IsUnused busy-Reach 7

-- The bus is down when the second device of user 7, which has a subscription, connects.
register-Outcome_example : Outcome false 2 busy
unfolding heap hub_code
register-Outcome_example = register-Outcome false 2 busy Reach-Inv_example (refl, refl)

deliver_to_chat_exact_example : (deliver_to_chat (λ _. true) 50 (1 ∷ []) busy).client 1 ≡ (
    if is_registered 1 busy && has_chat 50 busy.client 1
    then enqueue true (1 ∷ []) (busy.client 1)
    else busy.client 1)
deliver_to_chat_exact_example =
    deliver_to_chat_exact (λ _. true) 50 (1 ∷ []) busy Reach-Inv_example 1

enqueue_never_loses_example :
    let c = new_client 7 in
    let c' = enqueue true (1 ∷ []) c in
    (length c'.send ≤ send_buffer_size)
    × ((c'.close_code ≡ c.close_code) ⊎ (c.close_code ≡ none))
    × ((c'.send ≡ c.send ++ (1 ∷ []) ∷ []) ⊎ ((c'.send ≡ c.send) × (is_some c'.close_code ≡ true)))
enqueue_never_loses_example =
    enqueue_never_loses true (1 ∷ []) (new_client 7) (unfold new_client in omega arith)
