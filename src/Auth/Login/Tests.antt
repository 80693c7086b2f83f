-- ===== src/Auth/Login/Tests.antt =====
-- A phone that signs in with a code, and one that guesses, and the theorems at them.
use sobhemessenger.Common.{
  ◌≤◌, ◌≡◌, refl, Bool, true, false, Option, none, some, [], ◌∷◌, arith, length,
}
use sobhemessenger.Common.Lists.Rows.{find_if, filter_if}
use sobhemessenger.Common.Text.{Runes, trim_space}
use sobhemessenger.Httpx.{is_ok, err, unauthorized, otp_attempts_burned}
use sobhemessenger.Auth.Phone.{normalize_phone}
use sobhemessenger.Auth.Accounts.{Hash, is_active, user_by_id}
use sobhemessenger.Auth.Challenges.{
  Challenge, create_otp_challenge, latest_otp_challenge, burn_otp_attempt, consume_otp_challenge,
  delete_expired_otp_challenges,
}
use sobhemessenger.Auth.Sessions.{upsert_device, create_session}
use sobhemessenger.Auth.Tokens.{Config, issue_access_token, issue_tokens}
use sobhemessenger.Auth.Login.{
  State, VerifyOtpInput, Fresh, request_otp, verify_otp, check_challenge, user_by_phone,
}
use sobhemessenger.Auth.Login.Outcomes.{sweeping, run, run_all}
use sobhemessenger.Auth.Login.Spent.{code_once}
use sobhemessenger.Auth.Login.Guesses.{Attempt, wrong_guesses, wrong_guesses_bound, attempt}

login_code : Unit {0}
unfolding find_if filter_if trim_space normalize_phone is_active user_by_id create_otp_challenge
    latest_otp_challenge burn_otp_attempt consume_otp_challenge delete_expired_otp_challenges
    upsert_device create_session issue_access_token issue_tokens request_otp verify_otp
    check_challenge user_by_phone run run_all wrong_guesses
login_code = tt

abbrev config : Config
config = record { access_ttl = 900; refresh_ttl = 1000000; max_devices_per_user = 5 }

-- SHA-256, as far as texts of different lengths go; nobody has a password.
abbrev hash_token : Runes → Hash
hash_token = length

abbrev verify_password : Runes → Hash → Option Bool
verify_password password hash = some false

-- +12025550
abbrev phone : Runes
phone = 43 ∷ 49 ∷ 50 ∷ 48 ∷ 50 ∷ 53 ∷ 53 ∷ 53 ∷ 48 ∷ []

abbrev sent_code : Challenge
sent_code = record {
  id = 5;
  phone_number = phone;
  code_hash = 3;
  attempts = 0;
  max_attempts = 2;
  expires_at = 300;
  consumed_at = none;
}

abbrev start : State
start = record {
  accounts = record { users = []; devices = []; sessions = [] };
  challenges = sent_code ∷ [];
}

abbrev right : VerifyOtpInput
right = record { phone = phone; code = 49 ∷ 50 ∷ 51 ∷ []; password = [] }

abbrev wrong : VerifyOtpInput
wrong = record { phone = phone; code = 49 ∷ []; password = [] }

abbrev fresh : Fresh
fresh = record { user = 7; device = 8; session = 9; token = 97 ∷ [] }

-- A second call that read the table before the first one used the code.
code_once_example :
    is_ok
      (verify_otp config hash_token verify_password 20 20 fresh true right (sent_code ∷ []) (
        run_all config hash_token verify_password
          (sweeping 15 10 ∷ [])
          (verify_otp config hash_token verify_password 10 11 fresh true right
            (sent_code ∷ [])
            start).1)).0
    ≡ false
unfolding login_code
code_once_example =
    code_once config hash_token verify_password 10 11 fresh true right (sent_code ∷ []) phone
      sent_code start refl refl refl (sweeping 15 10 ∷ []) (tt, tt) 20 20 fresh true right
      (sent_code ∷ []) phone sent_code refl refl refl

abbrev guess : VerifyOtpInput → Attempt
guess input = record { now = 10; minted = 11; fresh = fresh; allowed = true; input = input }

wrong_guesses_bound_example :
    wrong_guesses config hash_token verify_password 5
      (guess wrong ∷ guess wrong ∷ guess wrong ∷ [])
      start
    ≤ 2
unfolding login_code
wrong_guesses_bound_example =
    wrong_guesses_bound config hash_token verify_password 5
      (guess wrong ∷ guess wrong ∷ guess wrong ∷ []) start (omega arith)

-- The right code comes too late.
burned_out :
    (verify_otp config hash_token verify_password 10 11 fresh true right
      (attempt config hash_token verify_password 5
        (guess wrong)
        (attempt config hash_token verify_password 5 (guess wrong) start)).challenges
      start).0
    ≡ err (unauthorized otp_attempts_burned)
unfolding login_code
burned_out = refl

-- Two wrong guesses use the code up, and a call that read the table before them still lets in.
overlapping :
    is_ok
      (verify_otp config hash_token verify_password 10 11 fresh true right (sent_code ∷ []) (
        attempt config hash_token verify_password 5
          (guess wrong)
          (attempt config hash_token verify_password 5 (guess wrong) start))).0
    ≡ true
unfolding login_code
overlapping = refl
