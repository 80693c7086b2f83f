-- ===== src/Realtime/Hub/Invariant.antt =====
-- What holds of a hub between two method calls, and that the methods keep it.
pub mod Leaving
pub mod Joining
pub mod Chats
use sobhemessenger.Common.{
  ℕ, ◌≤◌, ◌≡◌, ◌≢◌, Bool, some, List, [], Uuid, bit, contains, count, count_if, is_some, refl,
  arith,
}
use sobhemessenger.Common.Assoc.{lookup, total, IsDistinct}
use sobhemessenger.Realtime.Client.{Client}
use sobhemessenger.Realtime.Hub.{Hub, new_hub, clients_of, connection_count}
use sobhemessenger.Realtime.Hub.Maps.{ref_count, IsPositive}

abbrev pub is_registered : ℕ → Hub → Bool
is_registered k h = contains k (clients_of (h.client k).user_id h)

-- How often the connections hold the client.
abbrev pub occurrences : ℕ → Hub → ℕ
occurrences k h = total (count k) h.connections

abbrev pub has_chat : Uuid → (ℕ → Client) → ℕ → Bool
has_chat c heap k = contains c (heap k).chat_subscriptions

-- The registered clients that have the chat open.
abbrev pub listeners : Uuid → Hub → ℕ
listeners c h = total (count_if (has_chat c h.client)) h.connections

pub record Inv (h : Hub) : Type 0 where
  -- a Go map has one entry for a user, and no user is kept with an empty set
  pub distinct : IsDistinct h.connections
  pub occupied : (u : Uuid) → lookup u h.connections ≢ some []
  -- a client stands once, under its own user, or not at all
  pub owned : (k : ℕ) → occurrences k h ≡ bit (is_registered k h)
  pub chats_once : (k c : ℕ) → count c (h.client k).chat_subscriptions ≤ 1
  -- the subject of a user is subscribed to exactly while the user has a connection
  pub subscribed : (u : Uuid) → contains u h.user_subs ≡ is_some (lookup u h.connections)
  pub gauge : h.ws_connections ≡ connection_count h
  -- the references to a chat are its listeners, and a chat without one has no entry
  pub counted : (c : Uuid) → ref_count c h ≡ listeners c h
  pub positive : IsPositive h

-- A hub without connections, over any heap of clients that have no chat twice.
pub new_hub-Inv :
    (heap : ℕ → Client) → ((k c : ℕ) → count c (heap k).chat_subscriptions ≤ 1) → Inv (new_hub heap)
unfolding new_hub clients_of connection_count lookup total contains
new_hub-Inv heap h = record {
  distinct = tt;
  occupied = λ u. ground arith;
  owned = λ k. refl;
  chats_once = h;
  subscribed = λ u. refl;
  gauge = refl;
  counted = λ c. refl;
  positive = λ c. ground arith;
}
