-- ===== src/RateLimit/Decision.antt =====
-- The replies of the script against the history of the requests that it let through.
use sobhemessenger.Common.{
  ℕ, ◌+◌, ◌-◌, ◌*◌, ◌≤◌, ◌<◌, ◌≡◌, refl, Bool, ◌&&◌, true, false, not, List, [], ◌∷◌, arith, leb,
  ltb, count_if, length, if◌then◌else◌, Bool-cases, inl, inr, leb→le,
}
use sobhemessenger.Common.Lists.Counting.{count_if-le-length, count_if_mono}
use sobhemessenger.RateLimit.SortedSet.{Entry, SortedSet, first_score}
use sobhemessenger.RateLimit.Script.{Key, current, trim, retry_seconds, sliding_window}
use sobhemessenger.RateLimit.Window.{
  scores, is_within, Run, Inv, Run-Inv, held-trimmed, length-trimmed, past-now, denied-Inv,
}

count_if-split :
    (p q : ℕ → Bool) (xs : List ℕ)
    → count_if p xs ≡ count_if (λ a. q a && p a) xs + count_if (λ a. not (q a) && p a) xs
count_if-split p q [] = refl
count_if-split p q (x ∷ xs) = ground (arith, count_if-split p q xs)

count_if-zero :
    (p q : ℕ → Bool) (xs : List ℕ)
    → ((a : ℕ) → p a ≡ true → q a ≡ true)
    → count_if q xs ≡ 0
    → count_if p xs ≡ 0
count_if-zero p q [] h z = refl
count_if-zero p q (x ∷ xs) h z = ground (arith, count_if-zero p q xs h, h x)

module _ (redis : SortedSet) (window limit : ℕ) {key : Key redis} {allowed : List ℕ} {last : ℕ}
    (now : ℕ) (i : Inv redis window limit key allowed last) (later : last ≤ now) where
  abbrev set : redis.Z
  set = trim redis now window (current redis now key)

  -- The set that the script counts is the history of the last window.
  pub used-eq : redis.zcard set ≡ count_if (is_within redis window limit now) allowed
  used-eq = ground (
    arith,
    redis.zcard_lem set,
    length-trimmed redis window limit now i later,
    count_if-split (λ s. ltb now (s + window)) (λ s. leb s now) allowed,
    count_if-zero (λ s. not (leb s now) && ltb now (s + window)) (λ s. ltb now s) allowed
        (λ s h. ground arith),
    past-now redis window limit now i later,
  )

  decision :
      (member : ℕ)
      → let reply = (sliding_window redis now window limit member key).1 in
        let used = count_if (is_within redis window limit now) allowed in
        (reply.allowed ≡ (if ltb used limit then 1 else 0)) × (reply.remaining ≡ limit - used - 1)
  unfolding sliding_window
  decision member = ground (arith, used-eq)

  -- Once the oldest request has left the window there is room for one more.
  fewer :
      (now' : ℕ) (es : List Entry)
      → redis.entries set ≡ es
      → 0 < length es
      → now + retry_seconds now window (first_score es) * 1000000 ≤ now'
      → count_if (scores (λ s. ltb now' (s + window))) es + 1 ≤ length es
  unfolding retry_seconds
  fewer now' [] e some_left wait = absurd (omega arith)
  fewer now' (e ∷ es) same some_left wait =
      ground (arith, count_if-le-length (scores (λ s. ltb now' (s + window))) es)

  retry :
      (member now' member' : ℕ)
      → 0 < limit
      → leb limit (redis.zcard set) ≡ true
      → now + retry_seconds now window (redis.zrange_first set) * 1000000 ≤ now'
      → (sliding_window redis now' window limit member' (record key { set = set })).1.allowed ≡ 1
  unfolding sliding_window
  retry member now' member' positive full wait = ground (
    arith,
    fewer now' (redis.entries set) refl (omega (arith, redis.zcard_lem set, leb→le limit _ full))
        (rw (← redis.zrange_first_lem set) wait),
    redis.zcard_lem set,
    redis.zcard_lem (trim redis now' window (current redis now' (record key { set = set }))),
    length-trimmed redis window limit now' (denied-Inv redis window limit now i later)
        (omega (arith, wait)),
    held-trimmed redis window limit now i later (λ s. ltb now' (s + window)),
    count_if_mono (λ s. ltb now' (s + window)) (λ s. ltb now' (s + window) && ltb now (s + window))
        allowed (λ s h. ground (arith, wait)),
    used-eq,
    i.bounded now,
  )

-- The script lets a request through exactly if fewer than `limit` requests were let through in the
-- window that ends now, and says how many more would be: its sorted set implements the plain
-- count over the history.
pub window_decision :
    (redis : SortedSet) (window limit : ℕ) {key : Key redis} {allowed : List ℕ} {last : ℕ}
    (now member : ℕ)
    → 0 < window
    → Run redis window limit key allowed last
    → last ≤ now
    → let reply = (sliding_window redis now window limit member key).1 in
      let used = count_if (is_within redis window limit now) allowed in
      (reply.allowed ≡ (if ltb used limit then 1 else 0)) × (reply.remaining ≡ limit - used - 1)
window_decision redis window limit now member positive r later =
    decision redis window limit now (Run-Inv redis window limit positive r) later member

-- A request that is refused and comes again after the seconds that the reply names, with none in
-- between, is let through.
pub retry_after_suffices :
    (redis : SortedSet) (window limit : ℕ) {key : Key redis} {allowed : List ℕ} {last : ℕ}
    (now member now' member' : ℕ)
    → 0 < window
    → 0 < limit
    → Run redis window limit key allowed last
    → last ≤ now
    → (sliding_window redis now window limit member key).1.allowed ≡ 0
    → now + (sliding_window redis now window limit member key).1.retry_after * 1000000 ≤ now'
    → (sliding_window redis now' window limit member'
        (sliding_window redis now window limit member key).0).1.allowed
      ≡ 1
retry_after_suffices redis window limit {key} now member now' member' positive some_limit r later
      denied wait =
    elim (Bool-cases (leb limit (redis.zcard (trim redis now window (current redis now key))))) [
      | inl full ↦ rw (refusal full) (
          retry redis window limit now (Run-Inv redis window limit positive r) later member now'
            member' some_limit full (rw (refusal full) at wait))
      | inr room ↦ absurd (accepted room)
    ]
  where
    refusal :
        leb limit (redis.zcard (trim redis now window (current redis now key))) ≡ true
        → sliding_window redis now window limit member key ≡ (
          record key { set = trim redis now window (current redis now key) },
          record {
            allowed = 0;
            remaining = 0;
            retry_after =
                retry_seconds now window
                  (redis.zrange_first (trim redis now window (current redis now key)));
          },
        )
    refusal full = unfold sliding_window in rw full

    accepted : leb limit (redis.zcard (trim redis now window (current redis now key))) ≡ false → ⊥
    accepted room = unfold sliding_window in ground (arith, denied, room)
