-- ===== src/Realtime/Hub/Maps.antt =====
-- The map of connections under `set_clients`, and the map of chat subscriptions under
-- `release_chat`.
use sobhemessenger.Common.{
  ℕ, ◌+◌, ◌-◌, ◌≡◌, ◌≢◌, refl, none, some, List, [], ◌∷◌, arith, Uuid, ◌==◌, count, bit,
  if◌then◌else◌,
}
use sobhemessenger.Common.Assoc.{
  Assoc, lookup, insert, delete, total, value, IsDistinct, lookup-insert, lookup-delete,
  insert-IsDistinct, delete-IsDistinct, total-insert, total-delete,
}
use sobhemessenger.Realtime.Hub.{Hub, is_empty, set_clients, release_chat, release_chats}

module _ (u : Uuid) (left : List ℕ) (m : Assoc (List ℕ)) where
  pub lookup-set_clients :
      (j : Uuid)
      → lookup j (set_clients u left m)
        ≡ (if u == j then (if is_empty left then none else some left) else lookup j m)
  unfolding set_clients
  lookup-set_clients j = ground (arith, lookup-insert u j left m, lookup-delete u j m)

  pub set_clients-IsDistinct : IsDistinct m → IsDistinct (set_clients u left m)
  unfolding set_clients
  set_clients-IsDistinct d = ground (arith, insert-IsDistinct u left m d, delete-IsDistinct u m d)

  pub total-set_clients :
      (f : List ℕ → ℕ)
      → f [] ≡ 0
      → IsDistinct m
      → total f (set_clients u left m) + value f (lookup u m) ≡ total f m + f left
  unfolding set_clients
  total-set_clients f z d =
      elim left
        as (λ l.
          total f (if is_empty l then delete u m else insert u l m) + value f (lookup u m)
          ≡ total f m + f l) [
            | [] ↦ omega (arith, total-delete f u m d, z)
            | x ∷ xs ↦ total-insert f u (x ∷ xs) m
          ]

abbrev pub ref_count : Uuid → Hub → ℕ
ref_count c h = value (λ n. n) (lookup c h.chat_subs)

-- Releasing chats touches nothing but the chat subscriptions.
abbrev pub SameButChats : Hub → Hub → Type 0
SameButChats h' h =
    (h'.connections ≡ h.connections)
    × (h'.user_subs ≡ h.user_subs)
    × (h'.ws_connections ≡ h.ws_connections)
    × (h'.client ≡ h.client)

pub release_chat-SameButChats : (c : Uuid) (h : Hub) → SameButChats (release_chat c h) h
unfolding release_chat
release_chat-SameButChats c h = ground arith

pub release_chats-SameButChats : (cs : List Uuid) (h : Hub) → SameButChats (release_chats cs h) h
unfolding release_chats
release_chats-SameButChats [] h = (refl, refl, refl, refl)
release_chats-SameButChats (c ∷ cs) h =
    ground (arith, release_chats-SameButChats cs (release_chat c h), release_chat-SameButChats c h)

pub ref_count-release_chat :
    (c d : Uuid) (h : Hub) → ref_count d (release_chat c h) ≡ ref_count d h - bit (c == d)
unfolding release_chat
ref_count-release_chat c d h =
    ground (arith, lookup-insert c d (ref_count c h - 1) h.chat_subs, lookup-delete c d h.chat_subs)

pub ref_count-release_chats :
    (cs : List Uuid) (d : Uuid) (h : Hub)
    → ref_count d (release_chats cs h) ≡ ref_count d h - count d cs
unfolding release_chats count
ref_count-release_chats [] d h = omega arith
ref_count-release_chats (c ∷ cs) d h =
    omega (arith, ref_count-release_chats cs d (release_chat c h), ref_count-release_chat c d h)

-- No subscription without a reference.
abbrev pub IsPositive : Hub → Type 0
IsPositive h = (c : Uuid) → lookup c h.chat_subs ≢ some 0

pub release_chat-IsPositive : (c : Uuid) (h : Hub) → IsPositive h → IsPositive (release_chat c h)
unfolding release_chat
release_chat-IsPositive c h p d =
    ground
      (arith, lookup-insert c d (ref_count c h - 1) h.chat_subs, lookup-delete c d h.chat_subs, p d)

pub release_chats-IsPositive :
    (cs : List Uuid) (h : Hub) → IsPositive h → IsPositive (release_chats cs h)
unfolding release_chats
release_chats-IsPositive [] h p = p
release_chats-IsPositive (c ∷ cs) h p =
    release_chats-IsPositive cs (release_chat c h) (release_chat-IsPositive c h p)
