-- ===== src/RateLimit/Limiter.antt =====
-- backend/internal/ratelimit/limiter.go and rules.go: the Go half of the limiter. Windows are
-- microseconds; a limit below 0 acts as 0, so limits are natural numbers.
use Prim.Native.String.{String}
use sobhemessenger.Common.{
  ℕ, Bool, true, false, not, ◌||◌, Option, none, some, List, [], ◌∷◌, ◌==◌, if◌then◌else◌,
}
use sobhemessenger.RateLimit.SortedSet.{SortedSet}
use sobhemessenger.RateLimit.Script.{Reply, Key, no_key, current, trim, sliding_window}

pub record Rule : Type 0 where
  pub name : String
  pub limit : ℕ
  pub window : ℕ
  pub fail_closed : Bool

-- `retry_after` in seconds.
pub record Result : Type 0 where
  pub allowed : Bool
  pub remaining : ℕ
  pub retry_after : ℕ

-- What Redis may answer with, an `any` in the source.
pub data Value : Type 0 where
  int64 int : ℕ → Value
  text : String → Value
  other : Value

-- `fmt.Sscanf(value, "%d", &n)` is the argument.
unfoldable pub to_int : (String → ℕ) → Value → ℕ
to_int sscanf (int64 n) = n
to_int sscanf (int n) = n
to_int sscanf (text s) = sscanf s
to_int sscanf other = 0

abbrev pub pass : Result
pass = record { allowed = true; remaining = 0; retry_after = 0 }

-- `Allow` from the answer of the script on, `none` where Redis gave an error. The second part is
-- the error that `Allow` returns.
unfoldable pub decide : (String → ℕ) → Bool → Rule → Option (List Value) → Result × Bool
unfolding to_int
decide sscanf fail_open rule none =
    if rule.fail_closed || not fail_open
    then (record { allowed = false; remaining = 0; retry_after = 1 }, true)
    else (pass, false)
decide sscanf fail_open rule (some (a ∷ r ∷ t ∷ _)) = (
  record {
    allowed = to_int sscanf a == 1;
    remaining = to_int sscanf r;
    retry_after = to_int sscanf t;
  },
  false,
)
decide sscanf fail_open rule (some _) = (pass, false)

abbrev pub raw : Reply → List Value
raw reply = int64 reply.allowed ∷ int64 reply.remaining ∷ int64 reply.retry_after ∷ []

module _ (redis : SortedSet) (sscanf : String → ℕ) where
  -- `New` sets `failOpen`.
  abbrev pub fail_open : Bool
  fail_open = true

  -- `reachable` is whether Redis answers; if not, the key stays as it was.
  unfoldable pub allow : Bool → Rule → ℕ → ℕ → Key redis → Key redis × Result × Bool
  unfolding decide
  allow reachable rule now member key =
      if rule.limit == 0
      then (key, pass, false)
      else if reachable
      then (let (key', reply) = sliding_window redis now rule.window rule.limit member key in
          let (result, failed) = decide sscanf fail_open rule (some (raw reply)) in
          (key', result, failed))
      else (let (result, failed) = decide sscanf fail_open rule none in (key, result, failed))

  -- `Reset`
  abbrev pub reset : Key redis → Key redis
  reset key = no_key redis

  -- `Peek`: the trim and the count, without a new member.
  unfoldable pub peek : Rule → ℕ → Key redis → Key redis × ℕ
  peek rule now key =
      let set = trim redis now rule.window (current redis now key) in
      (record key { set = set }, redis.zcard set)

-- config.RateLimits
pub record Config : Type 0 where
  pub otp_per_phone_per_hour : ℕ
  pub otp_per_ip_per_hour : ℕ
  pub login_per_ip_per_hour : ℕ
  pub api_per_user_per_min : ℕ
  pub api_per_ip_per_min : ℕ
  pub messages_per_min : ℕ
  pub uploads_per_hour : ℕ

pub record Rules : Type 0 where
  pub otp_per_phone : Rule
  pub otp_per_ip : Rule
  pub login_per_ip : Rule
  pub api_per_user : Rule
  pub api_per_ip : Rule
  pub messages_per_user : Rule
  pub uploads_per_user : Rule
  pub search_per_user : Rule
  pub contact_sync : Rule

abbrev pub minute : ℕ
minute = 60000000

abbrev pub hour : ℕ
hour = 3600000000

abbrev rule : String → ℕ → ℕ → Bool → Rule
rule name limit window fail_closed = record {
  name = name;
  limit = limit;
  window = window;
  fail_closed = fail_closed;
}

unfoldable pub new_rules : Config → Rules
new_rules cfg = record {
  otp_per_phone = rule "otp_phone" cfg.otp_per_phone_per_hour hour true;
  otp_per_ip = rule "otp_ip" cfg.otp_per_ip_per_hour hour true;
  login_per_ip = rule "login_ip" cfg.login_per_ip_per_hour hour true;
  api_per_user = rule "api_user" cfg.api_per_user_per_min minute false;
  api_per_ip = rule "api_ip" cfg.api_per_ip_per_min minute false;
  messages_per_user = rule "messages_user" cfg.messages_per_min minute false;
  uploads_per_user = rule "uploads_user" cfg.uploads_per_hour hour false;
  search_per_user = rule "search_user" 120 minute false;
  contact_sync = rule "contact_sync" 10 hour false;
}
