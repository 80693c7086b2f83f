-- ===== src/RateLimit/Window.antt =====
-- What the sliding window bounds, over every sequence of requests for one key.
use sobhemessenger.Common.{
  ℕ, ◌+◌, ◌-◌, ◌≤◌, ◌<◌, ◌≡◌, refl, Bool, ◌&&◌, true, false, some, List, [], ◌∷◌, arith, leb, ltb,
  ◌==◌, bit, count_if, length, if◌then◌else◌, Bool-cases, inl, inr, Option-cases, ◌∙◌, sym, ap,
}
use sobhemessenger.Common.Lists.Counting.{count_if-ext, count_if_mono, count_if-true}
use sobhemessenger.RateLimit.SortedSet.{Entry, SortedSet, after, place, has_member}
use sobhemessenger.RateLimit.Script.{Key, no_key, current, trim, expiry, sliding_window}

abbrev pub scores : (ℕ → Bool) → Entry → Bool
scores p e = p e.score

count_if-after :
    (p : ℕ → Bool) (max : ℕ) (es : List Entry)
    → count_if (scores p) (after max es) ≡ count_if (scores (λ s. p s && ltb max s)) es
unfolding after
count_if-after p max [] = refl
count_if-after p max (e ∷ es) = ground (arith, count_if-after p max es)

count_if-place :
    (p : ℕ → Bool) (e : Entry) (es : List Entry)
    → count_if (scores p) (place e es) ≡ bit (p e.score) + count_if (scores p) es
unfolding place
count_if-place p e [] = refl
count_if-place p e (f ∷ fs) = ground (arith, count_if-place p e fs)

has_member-after :
    (m max : ℕ) (es : List Entry) → has_member m es ≡ false → has_member m (after max es) ≡ false
unfolding after has_member
has_member-after m max [] h = refl
has_member-after m max (e ∷ es) h = ground (arith, has_member-after m max es)

length-after : (max : ℕ) (es : List Entry) → length (after max es) ≤ length es
unfolding after
length-after max [] = omega arith
length-after max (e ∷ es) = ground (arith, length-after max es)

module _ (redis : SortedSet) (window limit : ℕ) where
  open redis use {Z, entries, empty, zadd, zcard, zrange_first}

  -- `s` lies less than a window before `t`, and not after it.
  abbrev pub is_within : ℕ → ℕ → Bool
  is_within t s = leb s t && ltb t (s + window)

  -- The times of the requests that were let through, after a request at `last`. The member that a
  -- node adds is new: a time in microseconds and the next value of a counter.
  pub data Run : Key redis → List ℕ → ℕ → Type 0 where
    start : (t : ℕ) → Run (no_key redis) [] t
    ask :
        {key : Key redis} {allowed : List ℕ} {last : ℕ} (now member : ℕ)
        → Run key allowed last
        → last ≤ now
        → has_member member (entries key.set) ≡ false
        → Run
            (sliding_window redis now window limit member key).0
            (if (sliding_window redis now window limit member key).1.allowed == 1
              then now ∷ allowed
              else allowed)
            now

  -- The set holds the requests of the last window; the key expires when none of them counts.
  pub record Inv (key : Key redis) (allowed : List ℕ) (last : ℕ) : Type 0 where
    pub held :
        (p : ℕ → Bool)
        → count_if (scores p) (entries key.set)
          ≡ count_if (λ s. p s && ltb last (s + window)) allowed
    pub spent :
        (t : ℕ)
        → key.expires_at ≡ some t
        → count_if (scores (λ s. ltb t (s + window))) (entries key.set) ≡ 0
    pub past : count_if (λ s. ltb last s) allowed ≡ 0
    pub bounded : (t : ℕ) → count_if (is_within t) allowed ≤ limit

  module _ {key : Key redis} {allowed : List ℕ} {last : ℕ} (now : ℕ) (i : Inv key allowed last)
      (later : last ≤ now) where
    abbrev pub trimmed : Z
    trimmed = trim redis now window (current redis now key)

    -- The expiry of the key loses no request that counts.
    held-current :
        (p : ℕ → Bool)
        → ((s : ℕ) → p s ≡ true → now < s + window)
        → count_if (scores p) (entries (current redis now key)) ≡ count_if p allowed
    unfolding current
    held-current p counts = elim (Option-cases key.expires_at) [
      | inl never ↦ rw (never, current) (i.held p ∙ in_window)
      | inr (t, set) ↦ elim (Bool-cases (leb t now)) [
        | inl expired ↦
            rw (set, expired, current, redis.entries-empty) (sym (nothing t set expired))
        | inr live ↦ rw (set, live, current) (i.held p ∙ in_window)
      ]
    ]
      where
        in_window : count_if (λ s. p s && ltb last (s + window)) allowed ≡ count_if p allowed
        in_window = count_if-ext _ p allowed (λ s. ground (arith, counts s))

        nothing : (t : ℕ) → key.expires_at ≡ some t → leb t now ≡ true → count_if p allowed ≡ 0
        nothing t set expired = omega (
          arith,
          count_if_mono p (λ s. ltb t (s + window) && ltb last (s + window)) allowed
              (λ s h. ground (arith, counts s)),
          i.held (λ s. ltb t (s + window)),
          i.spent t set,
        )

    -- Nor does the trim.
    pub held-trimmed :
        (p : ℕ → Bool)
        → count_if (scores p) (entries trimmed)
          ≡ count_if (λ s. p s && ltb now (s + window)) allowed
    unfolding trim
    held-trimmed p = elim (Bool-cases (ltb now window)) [
      | inl early ↦ rw early (
          count_if-ext (scores p) (scores q) (entries (current redis now key))
            (λ e. ground (arith, early))
          ∙ held-current q (λ s h. ground arith))
      | inr late ↦
          rw (late, redis.entries-zremrangebyscore)
            (count_if-after p (now - window) (entries (current redis now key))
              ∙ count_if-ext _ (scores q) (entries (current redis now key))
                  (λ e. ground (arith, late))
              ∙ held-current q (λ s h. ground arith))
    ]
      where
        q : ℕ → Bool
        q s = p s && ltb now (s + window)

    pub length-trimmed : length (entries trimmed) ≡ count_if (λ s. ltb now (s + window)) allowed
    length-trimmed = sym (count_if-true (entries trimmed)) ∙ held-trimmed (λ _. true)

    abbrev used : ℕ
    used = zcard trimmed

    pub past-now : count_if (λ s. ltb now s) allowed ≡ 0
    past-now = omega (
      arith,
      count_if_mono (λ s. ltb now s) (λ s. ltb last s) allowed (λ s h. ground arith),
      i.past,
    )

    -- The request is refused: the set is trimmed, nothing else changes.
    pub denied-Inv : Inv (record key { set = trimmed }) allowed now
    denied-Inv = record {
      held = held-trimmed;
      spent = λ t set. omega (
        arith,
        held-trimmed (λ s. ltb t (s + window)),
        count_if_mono (λ s. ltb t (s + window) && ltb now (s + window))
            (λ s. ltb t (s + window) && ltb last (s + window)) allowed (λ s h. ground arith),
        i.held (λ s. ltb t (s + window)),
        i.spent t set,
      );
      past = past-now;
      bounded = i.bounded;
    }

    has_member-trimmed :
        (m : ℕ) → has_member m (entries key.set) ≡ false → has_member m (entries trimmed) ≡ false
    unfolding trim current has_member
    has_member-trimmed m new = ground (
      arith,
      redis.entries-empty,
      redis.entries-zremrangebyscore (now - window) key.set,
      redis.entries-zremrangebyscore (now - window) empty,
      has_member-after m (now - window) (entries key.set),
      has_member-after m (now - window) (entries empty),
    )

    -- The request is let through and recorded.
    module _ (member : ℕ) (room : used < limit)
        (new : has_member member (entries trimmed) ≡ false) where
      abbrev grown : Key redis
      grown = record { set = zadd now member trimmed; expires_at = some (expiry now window) }

      held-grown :
          (p : ℕ → Bool)
          → count_if (scores p) (entries grown.set)
            ≡ bit (p now) + count_if (λ s. p s && ltb now (s + window)) allowed
      held-grown p = rw (redis.entries-zadd now member trimmed new) (
          count_if-place p (record { score = now; member = member }) (entries trimmed)
          ∙ ap (λ n. bit (p now) + n) (held-trimmed p))

      bounded-grown : (t : ℕ) → count_if (is_within t) (now ∷ allowed) ≤ limit
      bounded-grown t = elim (Bool-cases (leb now t)) [
        | inr before ↦ ground (arith, i.bounded t, before)
        | inl after_now ↦ ground (
          arith,
          count_if_mono (is_within t) (λ s. ltb now (s + window)) allowed
              (λ s h. ground (arith, after_now)),
          length-trimmed,
          redis.zcard_lem trimmed,
        )
      ]

      grown-Inv : 0 < window → Inv grown (now ∷ allowed) now
      unfolding expiry
      grown-Inv positive = record {
        held = λ p. ground (arith, held-grown p);
        spent = λ t set. ground (
          arith,
          held-grown (λ s. ltb t (s + window)),
          count_if_mono (λ s. ltb t (s + window) && ltb now (s + window)) (λ s. ltb now s) allowed
              (λ s h. ground (arith, set)),
          past-now,
        );
        past = ground (arith, past-now);
        bounded = bounded-grown;
      }

module _ (redis : SortedSet) (window limit : ℕ) where
  open redis use {Z, entries, empty, zadd, zcard, zrange_first}

  -- One request, on both branches.
  ask-Inv :
      {key : Key redis} {allowed : List ℕ} {last : ℕ} (now member : ℕ)
      → 0 < window
      → Inv redis window limit key allowed last
      → last ≤ now
      → has_member member (entries key.set) ≡ false
      → Inv redis window limit
          (sliding_window redis now window limit member key).0
          (if (sliding_window redis now window limit member key).1.allowed == 1
            then now ∷ allowed
            else allowed)
          now
  unfolding sliding_window
  ask-Inv {key} now member positive i later new =
      elim (Bool-cases (leb limit (zcard (trim redis now window (current redis now key))))) [
        | inl full ↦ rw full (denied-Inv redis window limit now i later)
        | inr room ↦ rw room (
            grown-Inv redis window limit now i later member (ground (arith, room))
              (has_member-trimmed redis window limit now i later member new) positive)
      ]

  start-Inv : (t : ℕ) → Inv redis window limit (no_key redis) [] t
  start-Inv t = record {
    held = λ p. rw redis.entries-empty;
    spent = λ t set. cc;
    past = refl;
    bounded = λ t. omega arith;
  }

  pub Run-Inv :
      {key : Key redis} {allowed : List ℕ} {last : ℕ}
      → 0 < window
      → Run redis window limit key allowed last
      → Inv redis window limit key allowed last
  Run-Inv positive (start t) = start-Inv t
  Run-Inv positive (ask now member r later new) =
      ask-Inv now member positive (Run-Inv positive r) later new

-- Over every sequence of requests at times that do not decrease, each with a member that the set
-- does not hold, at most `limit` are let through in any window, wherever it ends. The expiry of
-- the key does not change this.
pub window_bound :
    (redis : SortedSet) (window limit : ℕ) {key : Key redis} {allowed : List ℕ} {last : ℕ}
    → 0 < window
    → Run redis window limit key allowed last
    → (t : ℕ) → count_if (is_within redis window limit t) allowed ≤ limit
window_bound redis window limit positive r = (Run-Inv redis window limit positive r).bounded
