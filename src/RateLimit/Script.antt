-- ===== src/RateLimit/Script.antt =====
-- backend/internal/ratelimit/limiter.go: `slidingWindowScript`, which Redis runs as one step.
-- Times are microseconds. A key that the script let expire reads as the empty set; Redis keeps
-- its own clock, which is taken to agree with the `now` of the node that asks.
use sobhemessenger.Common.{ℕ, ◌+◌, ◌-◌, ◌*◌, ◌/◌, Option, none, some, leb, ltb, if◌then◌else◌}
use sobhemessenger.RateLimit.SortedSet.{SortedSet}

-- {allowed, remaining, retry_after_seconds}
pub record Reply : Type 0 where
  pub allowed : ℕ
  pub remaining : ℕ
  pub retry_after : ℕ

-- `math.ceil((oldest + window - now) / 1000000)`, at least 1
unfoldable pub retry_seconds : ℕ → ℕ → Option ℕ → ℕ
retry_seconds now window none = 1
retry_seconds now window (some oldest) =
    let retry = (oldest + window - now + 999999) / 1000000 in if ltb retry 1 then 1 else retry

-- `PEXPIRE key math.ceil(window / 1000)`, in microseconds from `now`.
unfoldable pub expiry : ℕ → ℕ → ℕ
expiry now window = now + (window + 999) / 1000 * 1000

module _ (redis : SortedSet) where
  open redis use {Z, empty, zremrangebyscore, zcard, zrange_first, zadd}

  -- What Redis holds under the key.
  pub record Key : Type 0 where
    pub set : Z
    pub expires_at : Option ℕ

  abbrev pub no_key : Key
  no_key = record { set = empty; expires_at = none }

  unfoldable pub current : ℕ → Key → Z
  current now key = elim key.expires_at [
    | none ↦ key.set
    | some t ↦ if leb t now then empty else key.set
  ]

  -- `now - window` may lie before the epoch, where no score does.
  unfoldable pub trim : ℕ → ℕ → Z → Z
  trim now window z = if ltb now window then z else zremrangebyscore (now - window) z

  unfoldable pub sliding_window : ℕ → ℕ → ℕ → ℕ → Key → Key × Reply
  unfolding trim retry_seconds expiry
  sliding_window now window limit member key =
      let set = trim now window (current now key) in
      let used = zcard set in
      if leb limit used
      then (
        record key { set = set },
        record {
          allowed = 0;
          remaining = 0;
          retry_after = retry_seconds now window (zrange_first set);
        },
      )
      else (
        record { set = zadd now member set; expires_at = some (expiry now window) },
        record { allowed = 1; remaining = limit - used - 1; retry_after = 0 },
      )
