-- ===== src/RateLimit/Tests.antt =====
-- A window of 100 microseconds with room for two requests, over sets that are lists.
use Prim.Native.String.{String}
use sobhemessenger.Common.{
  ℕ, ◌-◌, ◌≤◌, ◌≡◌, refl, false, List, [], ◌∷◌, arith, count_if, ltb, if◌then◌else◌,
}
use sobhemessenger.RateLimit.SortedSet.{list_set, after, place, has_member}
use sobhemessenger.RateLimit.Script.{
  Key, no_key, current, trim, retry_seconds, expiry, sliding_window,
}
use sobhemessenger.RateLimit.Limiter.{Rule, Config, new_rules, to_int, decide, allow, peek}
use sobhemessenger.RateLimit.Window.{Run, start, ask, is_within, window_bound}
use sobhemessenger.RateLimit.Decision.{window_decision, retry_after_suffices}
use sobhemessenger.RateLimit.Outage.{Outage, outage_lem}

limiter_code : Unit {0}
unfolding list_set after place has_member current trim retry_seconds expiry sliding_window to_int
    decide allow peek new_rules
limiter_code = tt

abbrev small : Rule
small = record { name = "small"; limit = 2; window = 100; fail_closed = false }

abbrev first : Key list_set
first = (sliding_window list_set 1000 100 2 1 (no_key list_set)).0

abbrev second : Key list_set
second = (sliding_window list_set 1010 100 2 2 first).0

abbrev two : List ℕ
two = 1010 ∷ 1000 ∷ []

two-Run : Run list_set 100 2 second two 1010
unfolding limiter_code
two-Run = ask 1010 2 (ask 1000 1 (start 1000) (omega arith) refl) (omega arith) refl

script_tests :
    ((sliding_window list_set 1099 100 2 3 second).1
      ≡ record { allowed = 0; remaining = 0; retry_after = 1 })
    × ((sliding_window list_set 1100 100 2 3 second).1
        ≡ record { allowed = 1; remaining = 0; retry_after = 0 })
    × ((sliding_window list_set 1010 100 2 2 first).1.remaining ≡ 0)
unfolding limiter_code
script_tests = (refl, refl, refl)

window_bound_example : count_if (is_within list_set 100 2 1050) two ≤ 2
window_bound_example = window_bound list_set 100 2 (omega arith) two-Run 1050

window_decision_example :
    let reply = (sliding_window list_set 1100 100 2 3 second).1 in
    let used = count_if (is_within list_set 100 2 1100) two in
    (reply.allowed ≡ (if ltb used 2 then 1 else 0)) × (reply.remaining ≡ 2 - used - 1)
window_decision_example = window_decision list_set 100 2 1100 3 (omega arith) two-Run (omega arith)

retry_after_suffices_example :
    (sliding_window list_set 1001020 100 2 4
      (sliding_window list_set 1020 100 2 3 second).0).1.allowed
    ≡ 1
unfolding limiter_code
retry_after_suffices_example =
    retry_after_suffices list_set 100 2 1020 3 1001020 4 (omega arith) (omega arith) two-Run
      (omega arith) refl (omega arith)

abbrev no_scan : String → ℕ
no_scan s = 0

abbrev limits : Config
limits = record {
  otp_per_phone_per_hour = 5;
  otp_per_ip_per_hour = 20;
  login_per_ip_per_hour = 30;
  api_per_user_per_min = 300;
  api_per_ip_per_min = 600;
  messages_per_min = 60;
  uploads_per_hour = 100;
}

outage_lem_example : Outage list_set no_scan (new_rules limits) 1000 1 (no_key list_set)
outage_lem_example = outage_lem list_set no_scan limits 1000 1 (no_key list_set)
