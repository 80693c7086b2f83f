-- ===== src/Realtime/Hub/Invariant/Chats.antt =====
-- `subscribeChat` and `unsubscribeChat` keep the invariant, for a client of the hub.
use sobhemessenger.Common.{
  ℕ, ◌+◌, ◌≤◌, ◌≡◌, Bool, true, false, List, [], ◌∷◌, arith, Uuid, bit, contains, add, remove,
  count, Bool-cases, inl, inr, Option-cases, if◌then◌else◌, ◌==◌, contains-add, count-add,
  contains-remove, count-remove, count_if, update,
}
use sobhemessenger.Common.Lists.Sets.{count_if-agree, contains-count}
use sobhemessenger.Common.Assoc.{Assoc, lookup, insert, total, lookup-insert}
use sobhemessenger.Realtime.Hub.{
  Hub, clients_of, release_chat, set_chats, subscribe_chat, unsubscribe_chat, connection_count,
}
use sobhemessenger.Realtime.Hub.Maps.{
  ref_count, IsPositive, release_chat-SameButChats, ref_count-release_chat, release_chat-IsPositive,
}
use sobhemessenger.Realtime.Hub.Invariant.{Inv, is_registered, has_chat, listeners}

total-agree :
    (p q : ℕ → Bool) (k : ℕ) (m : Assoc (List ℕ))
    → ((j : ℕ) → (k == j) ≡ false → q j ≡ p j)
    → total (count_if q) m + (if p k then total (count k) m else 0)
      ≡ total (count_if p) m + (if q k then total (count k) m else 0)
unfolding total
total-agree p q k [] h = ground arith
total-agree p q k ((u, ks) ∷ m) h = ground (arith, total-agree p q k m h, count_if-agree p q k ks h)

module _ (k : ℕ) (h : Hub) (i : Inv h) (here : is_registered k h ≡ true) (chats : List Uuid)
    (once : (c : ℕ) → count c chats ≤ 1) (subs : Assoc ℕ) where
  -- The hub in which client `k` has `chats` open.
  abbrev changed : Hub
  changed = record h { chat_subs = subs; client = set_chats k chats h }

  same_user : (j : ℕ) → (changed.client j).user_id ≡ (h.client j).user_id
  unfolding set_chats update
  same_user j = ground arith

  listeners-changed :
      (c : Uuid)
      → listeners c changed + bit (has_chat c h.client k) ≡ listeners c h + bit (contains c chats)
  unfolding set_chats update
  listeners-changed c = ground (
    arith,
    total-agree (has_chat c h.client) (has_chat c changed.client) k h.connections
        (λ j e. ground (arith, e)),
    i.owned k,
    here,
  )

  chats_once-changed : (j c : ℕ) → count c (changed.client j).chat_subscriptions ≤ 1
  unfolding set_chats update
  chats_once-changed j c = ground (arith, once c, i.chats_once j c)

  changed-Inv :
      ((c : Uuid)
        → ref_count c changed + bit (has_chat c h.client k)
          ≡ ref_count c h + bit (contains c chats))
      → IsPositive changed
      → Inv changed
  changed-Inv refs positive = record {
    distinct = i.distinct;
    occupied = i.occupied;
    owned = λ j. unfold clients_of in ground (arith, i.owned j, same_user j);
    chats_once = chats_once-changed;
    subscribed = i.subscribed;
    gauge = unfold connection_count in i.gauge;
    counted = λ c. ground (arith, refs c, listeners-changed c, i.counted c);
    positive = positive;
  }

pub subscribe_chat-Inv :
    (bus_ok : Bool) (k : ℕ) (c : Uuid) (h : Hub)
    → Inv h
    → is_registered k h ≡ true
    → Inv (subscribe_chat bus_ok k c h).0
unfolding subscribe_chat
subscribe_chat-Inv bus_ok k c h i here =
    elim (Bool-cases (contains c (h.client k).chat_subscriptions)) [
      | inl old ↦ rw old i
      | inr new ↦ elim (Option-cases (lookup c h.chat_subs)) [
        | inr (refs, e) ↦ rw (new, e, subscribe_chat) (opened (refs + 1) (ground (arith, e)) new)
        | inl e ↦ elim bus_ok as (λ b. Inv (subscribe_chat b k c h).0) [
          | true ↦ rw (new, e, subscribe_chat) (opened 1 (ground (arith, e)) new)
          | false ↦ rw (new, e, subscribe_chat) i
        ]
      ]
    ]
  where
    chats : List Uuid
    chats = add c (h.client k).chat_subscriptions

    once : contains c (h.client k).chat_subscriptions ≡ false → (d : ℕ) → count d chats ≤ 1
    once new d = ground (
      arith,
      count-add c d (h.client k).chat_subscriptions,
      contains-count d (h.client k).chat_subscriptions,
      i.chats_once k d,
      new,
    )

    opened :
        (n : ℕ)
        → ref_count c h + 1 ≡ n
        → contains c (h.client k).chat_subscriptions ≡ false
        → Inv (record h { chat_subs = insert c n h.chat_subs; client = set_chats k chats h })
    opened n e new =
        changed-Inv k h i here chats (once new) (insert c n h.chat_subs)
          (λ d. ground (
            arith,
            lookup-insert c d n h.chat_subs,
            contains-add c d (h.client k).chat_subscriptions,
            new,
            e,
          ))
          (λ d. ground (arith, lookup-insert c d n h.chat_subs, i.positive d, e))

release_chat-frame :
    (c : Uuid) (h : Hub) → release_chat c h ≡ record h { chat_subs = (release_chat c h).chat_subs }
release_chat-frame c h = ground (arith, release_chat-SameButChats c h)

pub unsubscribe_chat-Inv :
    (k : ℕ) (c : Uuid) (h : Hub) → Inv h → is_registered k h ≡ true → Inv (unsubscribe_chat k c h)
unfolding unsubscribe_chat
unsubscribe_chat-Inv k c h i here = elim (Bool-cases (contains c (h.client k).chat_subscriptions)) [
  | inl old ↦ rw old (rw (release_chat-frame c closed) (left old))
  | inr new ↦ rw new i
]
  where
    chats : List Uuid
    chats = remove c (h.client k).chat_subscriptions

    closed : Hub
    closed = record h { client = set_chats k chats h }

    once : (d : ℕ) → count d chats ≤ 1
    once d = ground (arith, count-remove c d (h.client k).chat_subscriptions, i.chats_once k d)

    left :
        contains c (h.client k).chat_subscriptions ≡ true
        → Inv (record closed { chat_subs = (release_chat c closed).chat_subs })
    left old =
        changed-Inv k h i here chats once (release_chat c closed).chat_subs
          (λ d. ground (
            arith,
            ref_count-release_chat c d closed,
            contains-remove c d (h.client k).chat_subscriptions,
            old,
            i.counted d,
            listeners-changed k h i here chats once h.chat_subs d,
          ))
          (release_chat-IsPositive c closed i.positive)
