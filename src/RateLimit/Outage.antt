-- ===== src/RateLimit/Outage.antt =====
-- The limiter when Redis does not answer, and what `Peek` counts.
use Prim.Native.String.{String}
use sobhemessenger.Common.{
  ℕ, ◌≤◌, ◌<◌, ◌≡◌, Bool, true, false, List, [], ◌∷◌, arith, count_if, ◌==◌, ltb, All,
}
use sobhemessenger.RateLimit.SortedSet.{SortedSet}
use sobhemessenger.RateLimit.Script.{Key}
use sobhemessenger.RateLimit.Window.{Run, Run-Inv, is_within}
use sobhemessenger.RateLimit.Decision.{used-eq, window_decision}
use sobhemessenger.RateLimit.Limiter.{Rule, Rules, Config, new_rules, allow, peek}

-- The rules of the logins, and those of the rest.
abbrev pub auth_rules : Rules → List Rule
auth_rules r = r.otp_per_phone ∷ r.otp_per_ip ∷ r.login_per_ip ∷ []

abbrev pub other_rules : Rules → List Rule
other_rules r =
    r.api_per_user ∷ r.api_per_ip ∷ r.messages_per_user ∷ r.uploads_per_user ∷ r.search_per_user
    ∷ r.contact_sync ∷ []

module _ (redis : SortedSet) (sscanf : String → ℕ) where
  abbrev pub is_allowed : Bool → Rule → ℕ → ℕ → Key redis → Bool
  is_allowed reachable rule now member key =
      (allow redis sscanf reachable rule now member key).1.allowed

  -- Without Redis a login rule with a limit lets nothing through, and every other rule all.
  abbrev pub Outage : Rules → ℕ → ℕ → Key redis → Type 0
  Outage rules now member key =
      All (λ rule. is_allowed false rule now member key ≡ (rule.limit == 0)) (auth_rules rules)
      × All (λ rule. is_allowed false rule now member key ≡ true) (other_rules rules)

  outage : (cfg : Config) (now member : ℕ) (key : Key redis) → Outage (new_rules cfg) now member key
  unfolding allow new_rules
  outage cfg now member key = ground arith

-- While Redis is down, an attempt to log in or to get a code is let through only if the operator
-- set its limit to 0, and a request under any other rule always is.
pub outage_lem :
    (redis : SortedSet) (sscanf : String → ℕ) (cfg : Config) (now member : ℕ) (key : Key redis)
    → Outage redis sscanf (new_rules cfg) now member key
outage_lem redis sscanf cfg now member key = outage redis sscanf cfg now member key

-- Over the history of a rule's requests, `Allow` lets a request through exactly if fewer than
-- `limit` were let through in the window that ends now, and `Peek` reads that count.
pub allow_peek_exact :
    (redis : SortedSet) (sscanf : String → ℕ) (rule : Rule) {key : Key redis} {allowed : List ℕ}
    {last : ℕ} (now member : ℕ)
    → 0 < rule.window
    → 0 < rule.limit
    → Run redis rule.window rule.limit key allowed last
    → last ≤ now
    → let used = count_if (is_within redis rule.window rule.limit now) allowed in
      (is_allowed redis sscanf true rule now member key ≡ ltb used rule.limit)
      × ((peek redis sscanf rule now key).1 ≡ used)
unfolding allow peek
allow_peek_exact redis sscanf rule {key} now member positive some_limit r later = (
  ground
      (arith, window_decision redis rule.window rule.limit {key = key} now member positive r later),
  used-eq redis rule.window rule.limit now (Run-Inv redis rule.window rule.limit positive r) later,
)
