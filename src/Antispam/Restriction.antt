-- ===== src/Antispam/Restriction.antt =====
-- Restrictions and the score over time.
use Prim.Native.String.{String}
use sobhemessenger.Common.{
  ℕ, ◌+◌, ◌-◌, ◌≤◌, ◌<◌, ◌≡◌, refl, ◌∙◌, true, ◌&&◌, Option, none, some, leb, ltb, arith, if_intro,
  List, [], ◌∷◌,
}
use sobhemessenger.Antispam.{
  Score, restrict_threshold, restrict_for, is_after, is_restricted, extend, record_weight, shed,
  lower, decay,
}

-- A signal or a sweep, at its time.
pub data Event : Type 0 where
  signals : ℕ → ℕ → String → Event
  sweeps : ℕ → ℕ → Event

unfoldable pub step : Event → Option Score → Option Score
unfolding record_weight decay
step (signals now weight reason) o = some (record_weight now weight reason o)
step (sweeps now per_day) o = decay now per_day o

abbrev pub time_of : Event → ℕ
time_of (signals now weight reason) = now
time_of (sweeps now per_day) = now

unfoldable pub history : List Event → Option Score → Option Score
unfolding step
history [] o = o
history (e ∷ es) o = history es (step e o)

-- Every event of a list is before a time.
abbrev pub AllBefore : ℕ → List Event → Type 0
AllBefore t [] = Unit
AllBefore t (e ∷ es) = (time_of e ≤ t) × AllBefore t es

extend_later :
    (now t : ℕ) (r : Option ℕ) → is_after t r ≡ true → is_after t (some (extend now r)) ≡ true
extend_later now t none h = ground (arith, h)
extend_later now t (some u) h = ground (arith, h)

signal_holds :
    (now weight : ℕ) (reason : String) (t : ℕ) (o : Option Score)
    → is_restricted t o ≡ true
    → is_restricted t (some (record_weight now weight reason o)) ≡ true
unfolding is_restricted record_weight
signal_holds now weight reason t none h = ground (arith, h)
signal_holds now weight reason t (some s) h =
    if_intro (λ r. is_after t r ≡ true) (leb restrict_threshold (s.score + weight))
      (some (extend now s.restricted_until)) s.restricted_until
      (λ _. extend_later now t s.restricted_until h) (λ _. h)

lower_keeps :
    (now per_day : ℕ) (s : Score) → (lower now per_day s).restricted_until ≡ s.restricted_until
unfolding lower
lower_keeps now per_day s = ground arith

sweep_holds :
    (now per_day t : ℕ) (o : Option Score)
    → now ≤ t
    → is_restricted t o ≡ true
    → is_restricted t (decay now per_day o) ≡ true
unfolding is_restricted decay
sweep_holds now per_day t none before h = h
sweep_holds now per_day t (some s) before h = ground (arith, lower_keeps now per_day s, h, before)

step_holds :
    (e : Event) (t : ℕ) (o : Option Score)
    → time_of e ≤ t
    → is_restricted t o ≡ true
    → is_restricted t (step e o) ≡ true
unfolding step
step_holds (signals now weight reason) t o before h = signal_holds now weight reason t o h
step_holds (sweeps now per_day) t o before h = sweep_holds now per_day t o before h

history_holds :
    (es : List Event) (t : ℕ) (o : Option Score)
    → AllBefore t es
    → is_restricted t o ≡ true
    → is_restricted t (history es o) ≡ true
unfolding history
history_holds [] t o before h = h
history_holds (e ∷ es) t o (now, later) h =
    history_holds es t (step e o) later (step_holds e t o now h)

abbrev pub score_of : Option Score → ℕ
score_of none = 0
score_of (some s) = s.score

crossing_restricts :
    (now weight : ℕ) (reason : String) (t : ℕ) (o : Option Score)
    → restrict_threshold ≤ score_of o + weight
    → t < now + restrict_for
    → is_restricted t (some (record_weight now weight reason o)) ≡ true
unfolding is_restricted record_weight
crossing_restricts now weight reason t none crossed early = ground (arith, crossed, early)
crossing_restricts now weight reason t (some s) crossed early =
    if_intro (λ r. is_after t r ≡ true) (leb restrict_threshold (s.score + weight))
      (some (extend now s.restricted_until)) s.restricted_until
      (λ _. extend_early s.restricted_until) (λ under. ground (arith, under, crossed))
  where
    extend_early : (r : Option ℕ) → is_after t (some (extend now r)) ≡ true
    extend_early none = ground (arith, early)
    extend_early (some u) = ground (arith, early)

-- A signal that takes the score to the threshold restricts the subject for 24 hours whole: whatever
-- signals are recorded and whatever sweeps run until a time within them, the subject is restricted then.
pub restriction_lasts :
    (now weight : ℕ) (reason : String) (o : Option Score) (es : List Event) (t : ℕ)
    → restrict_threshold ≤ score_of o + weight
    → t < now + restrict_for
    → AllBefore t es
    → is_restricted t (history es (some (record_weight now weight reason o))) ≡ true
restriction_lasts now weight reason o es t crossed early before =
    history_holds es t (some (record_weight now weight reason o)) before
      (crossing_restricts now weight reason t o crossed early)

shed_split :
    (per_day a b : ℕ)
    → (shed per_day (a + b) ≤ shed per_day a + shed per_day b + 1)
      × (shed per_day a + shed per_day b ≤ shed per_day (a + b) + 1)
unfolding shed
shed_split per_day a b = (omega arith, omega arith)

lower_once :
    (now per_day : ℕ) (s : Score)
    → s.updated_at + 3600000000 < now
    → (lower now per_day s).score ≡ s.score - shed per_day (now - s.updated_at)
unfolding lower
lower_once now per_day s due =
    if_intro (λ r. r.score ≡ s.score - shed per_day (now - s.updated_at))
      (ltb 0 s.score && ltb (s.updated_at + 3600000000) now)
      (record s { score = s.score - shed per_day (now - s.updated_at); updated_at = now }) s
      (λ _. refl) (λ spent. ground (arith, spent, due))

lower_twice :
    (first second per_day : ℕ) (s : Score)
    → s.updated_at + 3600000000 < first
    → first + 3600000000 < second
    → (lower second per_day (lower first per_day s)).score
      ≡ s.score - shed per_day (first - s.updated_at) - shed per_day (second - first)
unfolding lower
lower_twice first second per_day s early late =
    if_intro
      (λ r.
        (lower second per_day r).score
        ≡ s.score - shed per_day (first - s.updated_at) - shed per_day (second - first))
      (ltb 0 s.score && ltb (s.updated_at + 3600000000) first)
      (record s { score = s.score - shed per_day (first - s.updated_at); updated_at = first }) s
      (λ _.
        lower_once second per_day
          (record s { score = s.score - shed per_day (first - s.updated_at); updated_at = first })
          late)
      (λ spent.
        lower_once second per_day s (omega (arith, early, late)) ∙ ground (arith, spent, early))

-- Where both count, two sweeps leave a score that is one from what the later one alone would leave, at
-- most.
pub decay_split_within_one :
    (first second per_day : ℕ) (s : Score)
    → s.updated_at + 3600000000 < first
    → first + 3600000000 < second
    → ((lower second per_day (lower first per_day s)).score ≤ (lower second per_day s).score + 1)
      × ((lower second per_day s).score ≤ (lower second per_day (lower first per_day s)).score + 1)
decay_split_within_one first second per_day s early late =
    let once : (lower second per_day s).score ≡ s.score - shed per_day (second - s.updated_at) =
      lower_once second per_day s (omega (arith, early, late)) in
    let twice : (lower second per_day (lower first per_day s)).score
        ≡ s.score - shed per_day (first - s.updated_at) - shed per_day (second - first) =
      lower_twice first second per_day s early late in
    let whole : (first - s.updated_at) + (second - first) ≡ second - s.updated_at =
      omega (arith, early, late) in
    let split : (shed per_day (second - s.updated_at)
          ≤ shed per_day (first - s.updated_at) + shed per_day (second - first) + 1)
        × (shed per_day (first - s.updated_at) + shed per_day (second - first)
            ≤ shed per_day (second - s.updated_at) + 1) =
      rw (← whole) (shed_split per_day (first - s.updated_at) (second - first)) in
    (omega (arith, once, twice, split), omega (arith, once, twice, split))
