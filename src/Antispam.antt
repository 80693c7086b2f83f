-- ===== src/Antispam.antt =====
-- backend/internal/antispam/antispam.go: the rolling score of one subject, the row of `spam_scores` if it
-- has one. Times are microseconds of the database's clock. The share of a day is a numeric in the
-- database, of 16 digits at least; here it is exact.
pub mod Restriction
mod Tests
use Prim.Native.String.{String}
use sobhemessenger.Common.{
  ℕ, ◌+◌, ◌-◌, ◌*◌, ◌/◌, Bool, true, false, ◌&&◌, Option, none, some, if◌then◌else◌, leb, ltb, ◌==◌,
}

-- Type, key and the time of creation identify the row.
pub record Score : Type 0 where
  pub score : ℕ
  pub reason : String
  pub restricted_until : Option ℕ
  pub updated_at : ℕ

abbrev pub weight_report : ℕ
weight_report = 30

abbrev pub weight_block : ℕ
weight_block = 10

abbrev pub weight_rate_limit : ℕ
weight_rate_limit = 2

abbrev pub restrict_threshold : ℕ
restrict_threshold = 100

-- 24 hours
abbrev pub restrict_for : ℕ
restrict_for = 86400000000

abbrev pub decay_per_day : ℕ
decay_per_day = 20

-- `s.RestrictedUntil.After(time.Now())`
abbrev pub is_after : ℕ → Option ℕ → Bool
is_after now none = false
is_after now (some t) = ltb now t

unfoldable pub is_restricted : ℕ → Option Score → Bool
is_restricted now none = false
is_restricted now (some s) = is_after now s.restricted_until

-- GREATEST(COALESCE(restricted_until, now()), now() + 24 h)
abbrev pub extend : ℕ → Option ℕ → ℕ
extend now none = now + restrict_for
extend now (some t) = if leb t (now + restrict_for) then now + restrict_for else t

unfoldable pub record_weight : ℕ → ℕ → String → Option Score → Score
record_weight now weight reason none = record {
  score = weight;
  reason = reason;
  restricted_until = if leb restrict_threshold weight then some (now + restrict_for) else none;
  updated_at = now;
}
record_weight now weight reason (some s) = record {
  score = s.score + weight;
  reason = reason;
  restricted_until =
      if leb restrict_threshold (s.score + weight)
      then some (extend now s.restricted_until)
      else s.restricted_until;
  updated_at = now;
}

abbrev pub reported : ℕ → String → Option Score → Score
reported now reason o = record_weight now weight_report reason o

abbrev pub blocked : ℕ → Option Score → Score
blocked now o = record_weight now weight_block "blocked by a user" o

abbrev pub rate_limited : ℕ → Option Score → Score
rate_limited now o = record_weight now weight_rate_limit "sending too fast" o

-- (elapsed / 1 day * per_day)::int, rounded to the nearest and a half up.
unfoldable pub shed : ℕ → ℕ → ℕ
shed per_day elapsed = (2 * (elapsed * per_day) + 86400000000) / 172800000000

-- The UPDATE of `Decay`, for rows that an hour has passed for.
unfoldable pub lower : ℕ → ℕ → Score → Score
unfolding shed
lower now per_day s =
    if ltb 0 s.score && ltb (s.updated_at + 3600000000) now
    then record s { score = s.score - shed per_day (now - s.updated_at); updated_at = now }
    else s

-- `restricted_until IS NULL OR restricted_until < now()`
abbrev pub has_lapsed : ℕ → Option ℕ → Bool
has_lapsed now none = true
has_lapsed now (some t) = ltb t now

unfoldable pub decay : ℕ → ℕ → Option Score → Option Score
unfolding lower
decay now per_day none = none
decay now per_day (some s) =
    let lowered = lower now per_day s in
    if lowered.score == 0 && has_lapsed now lowered.restricted_until then none else some lowered

-- `Clear` and `Lift`
abbrev pub clear : Option Score → Option Score
clear o = none
