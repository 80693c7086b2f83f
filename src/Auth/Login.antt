-- ===== src/Auth/Login.antt =====
-- backend/internal/auth/service.go: `RequestOTP` and `VerifyOTP`. The outcomes of the rate limiter, of
-- Redis and of the gateway for messages are arguments; Argon2 is `verify_password`, which may fail.
mod Outcomes
mod Spent
mod Budget
mod Guesses
mod Tests
use sobhemessenger.Common.{
  ℕ, ◌+◌, Bool, true, false, not, ◌&&◌, Option, none, some, Uuid, List, [], ◌∷◌, ◌==◌,
  if◌then◌else◌, ltb, leb, any, on_option,
}
use sobhemessenger.Common.Lists.Rows.{find_if}
use sobhemessenger.Common.Text.{Runes, is_empty, is_equal, trim_space}
use sobhemessenger.Httpx.{
  Fault, Result, ok, err, ◌>>=◌, ◌>>◌, on_row, validation, rate_limited, unavailable, internal,
  unauthorized, forbidden, invalid_otp, otp_expired, otp_attempts_burned, two_step_required,
  invalid_password, account_banned, account_deleted,
}
use sobhemessenger.Auth.Phone.{normalize_phone}
use sobhemessenger.Auth.Accounts.{Hash, Status, active, User, Accounts, is_active}
use sobhemessenger.Auth.Challenges.{
  Challenge, create_otp_challenge, latest_otp_challenge, burn_otp_attempt, consume_otp_challenge,
}
use sobhemessenger.Auth.Tokens.{Config, TokenPair, issue_tokens}
use sobhemessenger.Auth.Middleware.{closed_error}

pub record State : Type 0 where
  pub accounts : Accounts
  pub challenges : List Challenge

pub record OtpConfig : Type 0 where
  pub otp_length : ℕ
  pub otp_ttl : ℕ
  pub otp_max_attempts : ℕ
  pub echo_codes : Bool

pub record RequestOtpResult : Type 0 where
  pub expires_in : ℕ
  pub resend_after : ℕ
  pub length : ℕ
  pub debug_code : Option Runes

abbrev pub resend_cooldown : ℕ
resend_cooldown = 60

-- What the request meets: whether the limits per phone and per address let it through, whether the key
-- of the cooldown is new (a failure of Redis counts as new), whether the message is sent.
pub record Outside : Type 0 where
  pub phone_allowed : Bool
  pub address_allowed : Bool
  pub is_fresh : Bool
  pub is_sent : Bool

abbrev pub sent : OtpConfig → Runes → Bool → Result Fault RequestOtpResult
sent c code false = err unavailable
sent c code true = ok (record {
  expires_in = c.otp_ttl;
  resend_after = resend_cooldown;
  length = c.otp_length;
  debug_code = if c.echo_codes then some code else none;
})

module _ (hash_token : Runes → Hash) where
  -- `id` is the id of the new row, `code` the random code. The row stays when the message is not sent.
  unfoldable pub request_otp :
      OtpConfig
      → ℕ
      → Uuid
      → Runes
      → Runes
      → Outside
      → List Challenge
      → Result Fault RequestOtpResult × List Challenge
  unfolding normalize_phone create_otp_challenge
  request_otp c now id code input_phone outside rows =
      on_option (normalize_phone input_phone) (err validation, rows)
        λ phone.
          if outside.phone_allowed && outside.address_allowed && outside.is_fresh
          then (
            sent c code outside.is_sent,
            create_otp_challenge id phone (hash_token code) c.otp_max_attempts (now + c.otp_ttl)
                rows,
          )
          else (err rate_limited, rows)

pub record VerifyOtpInput : Type 0 where
  pub phone : Runes
  pub code : Runes
  pub password : Runes

unfoldable pub user_by_phone : Runes → Accounts → Option User
unfolding find_if
user_by_phone phone a = find_if (λ (u : User). is_equal u.phone_number phone) a.users

abbrev pub new_user : Uuid → Runes → User
new_user id phone = record {
  id = id;
  phone_number = phone;
  status = active;
  two_step_enabled = false;
  password_hash = none;
  two_step_hint = none;
  token_version = 0;
  deleted_at = none;
}

-- The row of `users` that `CreateUser` inserts.
abbrev pub create_user : Uuid → Runes → Accounts → Accounts
create_user id phone a = record a { users = new_user id phone ∷ a.users }

abbrev pub burned_error : Fault
burned_error = unauthorized otp_attempts_burned

-- What `VerifyOTP` requires of the challenge before it looks at the code.
unfoldable pub check_challenge : ℕ → Challenge → Result Fault (Unit {0})
check_challenge now ch =
    if ltb ch.expires_at now
    then err (unauthorized otp_expired)
    else if leb ch.max_attempts ch.attempts
    then err burned_error
    else ok tt

abbrev pub Answer : Type 0
Answer = Result Fault TokenPair × State

abbrev pub wrong_code : Challenge → State → Answer
wrong_code ch s =
    let (attempts, rows) = burn_otp_attempt ch.id s.challenges in
    (
      err (if leb ch.max_attempts attempts then burned_error else unauthorized invalid_otp),
      record s { challenges = rows },
    )

-- The ids of the rows that a login makes, and the random text of its refresh token.
pub record Fresh : Type 0 where
  pub user : Uuid
  pub device : Uuid
  pub session : Uuid
  pub token : Runes

module _ (c : Config) (hash_token : Runes → Hash)
    (verify_password : Runes → Hash → Option Bool) where
  abbrev pub when_verified : Option Bool → Result Fault (Unit {0})
  when_verified none = err internal
  when_verified (some false) = err (unauthorized invalid_password)
  when_verified (some true) = ok tt

  abbrev pub check_hash : Runes → Option Hash → Result Fault (Unit {0})
  check_hash password none = ok tt
  check_hash password (some hash) =
      if is_empty password
      then err (unauthorized two_step_required)
      else when_verified (verify_password password hash)

  abbrev pub check_two_step : Runes → Option User → Result Fault (Unit {0})
  check_two_step password none = ok tt
  check_two_step password (some u) =
      if u.two_step_enabled then check_hash password u.password_hash else ok tt

  abbrev pub with_challenges : List Challenge → Result Fault TokenPair × Accounts → Answer
  with_challenges rows (r, a) = (r, record { accounts = a; challenges = rows })

  abbrev pub sign_in : ℕ → ℕ → Fresh → User → State → Answer
  sign_in now minted fresh u s =
      if is_active u
      then with_challenges s.challenges
          (issue_tokens c hash_token now minted u fresh.device fresh.session fresh.token s.accounts)
      else (err (closed_error u.status), s)

  -- Who signs in, once the code is consumed.
  abbrev pub admit : ℕ → ℕ → Fresh → Runes → Option User → State → Answer
  admit now minted fresh phone (some u) s = sign_in now minted fresh u s
  admit now minted fresh phone none s =
      sign_in now minted fresh (new_user fresh.user phone)
        (record s { accounts = create_user fresh.user phone s.accounts })

  abbrev pub right_code : ℕ → ℕ → Fresh → Runes → Challenge → Option User → State → Answer
  right_code now minted fresh phone ch user s =
      let (consumed, rows) = consume_otp_challenge now ch.id s.challenges in
      if consumed
      then admit now minted fresh phone user (record s { challenges = rows })
      else (err (unauthorized invalid_otp), record s { challenges = rows })

  abbrev pub when_two_step :
      ℕ → ℕ → Fresh → Runes → Challenge → Option User → State → Result Fault (Unit {0}) → Answer
  when_two_step now minted fresh phone ch user s (err e) = (err e, s)
  when_two_step now minted fresh phone ch user s (ok _) =
      right_code now minted fresh phone ch user s

  abbrev pub is_code : Runes → Challenge → Bool
  is_code code ch = hash_token (trim_space code) == ch.code_hash

  abbrev pub when_checked :
      ℕ → ℕ → Fresh → VerifyOtpInput → Runes → Challenge → State → Result Fault (Unit {0}) → Answer
  when_checked now minted fresh input phone ch s (err e) = (err e, s)
  when_checked now minted fresh input phone ch s (ok _) =
      if is_code input.code ch
      then when_two_step now minted fresh phone ch (user_by_phone phone s.accounts) s
          (check_two_step input.password (user_by_phone phone s.accounts))
      else wrong_code ch s

  -- `seen` is the table as the lookup of the challenge found it, `s` what the statements after it meet.
  unfoldable pub verify_otp :
      ℕ → ℕ → Fresh → Bool → VerifyOtpInput → List Challenge → State → Answer
  unfolding normalize_phone latest_otp_challenge check_challenge burn_otp_attempt
      consume_otp_challenge user_by_phone is_active issue_tokens trim_space
  verify_otp now minted fresh allowed input seen s =
      on_option (normalize_phone input.phone) (err validation, s)
        λ phone.
          if allowed
          then on_option (latest_otp_challenge phone seen) (err (unauthorized invalid_otp), s)
              (λ ch. when_checked now minted fresh input phone ch s (check_challenge now ch))
          else (err rate_limited, s)
