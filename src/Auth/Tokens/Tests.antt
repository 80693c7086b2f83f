-- ===== src/Auth/Tokens/Tests.antt =====
-- A device that signs in, refreshes its token and is signed out by another, and the theorems at it.
use mathlib.Core.List.Memᴰ
use sobhemessenger.Common.{
  ℕ, ◌<◌, ◌≡◌, refl, true, false, none, some, List, [], ◌∷◌, if◌then◌else◌, ltb, arith, length,
  contains,
}
use sobhemessenger.Common.Assoc.{lookup, insert}
use sobhemessenger.Common.Lists.Rows.{find_if, filter_if}
use sobhemessenger.Common.Text.{Runes, trim_space}
use sobhemessenger.Httpx.{Result, ok, err, unauthorized, session_revoked}
use sobhemessenger.Auth.Accounts.{
  Hash, User, Accounts, active, is_active, user_by_id, session_by_id,
}
use sobhemessenger.Auth.Sessions.{
  upsert_device, create_session, rotate_refresh_token, revoke_all_sessions,
}
use sobhemessenger.Auth.Sessions as Rows
use sobhemessenger.Auth.Tokens.{
  Config, Claims, World, issue_access_token, issue_tokens, refresh, logout, revoke_session,
  revoke_other_sessions,
}
use sobhemessenger.Auth.Middleware.{
  TokenError, expired, get_denied, check_session, authenticate_token, signed_out_error,
}
use sobhemessenger.Auth.Tokens.Histories.{
  Op, signing_in, refreshing, revoking, History, run, run_all,
}
use sobhemessenger.Auth.Tokens.SignedOut.{signed_out}
use sobhemessenger.Auth.Tokens.Single.{refresh_once}

token_code : Unit {0}
unfolding find_if filter_if contains lookup insert trim_space is_active user_by_id session_by_id
    upsert_device create_session rotate_refresh_token revoke_all_sessions Rows.revoke_session
    issue_access_token issue_tokens refresh logout revoke_session revoke_other_sessions get_denied
    check_session authenticate_token run run_all
token_code = tt

abbrev config : Config
config = record { access_ttl = 900; refresh_ttl = 1000000; max_devices_per_user = 5 }

-- SHA-256, as far as three tokens of different lengths go.
abbrev hash_token : Runes → Hash
hash_token = length

abbrev alice : User
alice = record {
  id = 7;
  phone_number = 43 ∷ 57 ∷ 56 ∷ [];
  status = active;
  two_step_enabled = false;
  password_hash = none;
  two_step_hint = none;
  token_version = 0;
  deleted_at = none;
}

abbrev first_token : Runes
first_token = 97 ∷ []

abbrev second_token : Runes
second_token = 97 ∷ 98 ∷ []

abbrev start : World
start = record {
  accounts = record { users = alice ∷ []; devices = []; sessions = [] };
  denied = [];
}

abbrev ops : List Op
ops =
    signing_in 10 11 alice 1 2 first_token
    ∷ refreshing 20 20 first_token second_token
    ∷ revoking 30 true 7 2
    ∷ []

abbrev access : Claims
access = record { subject = 7; device_id = 1; session_id = 2; token_version = 0; expires_at = 920 }

abbrev parse : ℕ → Runes → Result TokenError Claims
parse t raw = if ltb t 920 then ok access else err expired

unexpired :
    (t : ℕ) (raw : Runes) (claims : Claims) → parse t raw ≡ ok claims → t < claims.expires_at
unexpired t raw claims h = ground (arith, h)

abbrev ended : History
ended = run_all config hash_token ops (record { world = start; issued = [] })

refused_after_all :
    authenticate_token 31 true (parse 31 []) (λ _. ok alice) ended.world ≡ err signed_out_error
unfolding token_code
refused_after_all = refl

signed_out_example :
    authenticate_token 31 false (parse 31 []) (λ _. ok alice) ended.world ≡ err signed_out_error
unfolding token_code
signed_out_example =
    signed_out config hash_token parse unexpired ops start refl
      ((omega arith, omega arith, (omega arith, omega arith, (omega arith, refl, tt)))) access
      (record {
        id = 2;
        user_id = 7;
        device_id = 1;
        refresh_token_hash = 2;
        refresh_expires_at = 1000020;
        revoked_at = some 30;
        created_at = 10;
        last_used_at = 20;
      })
      (Memᴰ.head refl) refl refl 31 false [] (λ _. ok alice) refl

abbrev signed_in : History
signed_in =
    run_all config hash_token (signing_in 10 11 alice 1 2 first_token ∷ [])
      (record { world = start; issued = [] })

abbrev after_refresh : Accounts
after_refresh =
    (refresh config hash_token 20 20 first_token second_token signed_in.world.accounts).1

refresh_once_example :
    refresh config hash_token 40 40 first_token (97 ∷ 98 ∷ 99 ∷ []) after_refresh
    ≡ (err (unauthorized session_revoked), after_refresh)
unfolding token_code
refresh_once_example =
    refresh_once config hash_token 20 20 first_token second_token signed_in
      (record { access_token = access; refresh_token = second_token }) after_refresh
      (λ e. ground (arith, e)) refl [] 40 40 (97 ∷ 98 ∷ 99 ∷ []) tt (omega arith)
