-- ===== src/Auth/Tokens.antt =====
-- backend/internal/auth/service.go and token.go: tokens, the denylist and signing out. What is
-- signed into an access token is its claims; the signature is the JWT library's. SHA-256 is the
-- argument `hash_token`.
mod Histories
mod Denied
mod Covered
mod Kept
mod Used
mod SignedOut
mod Single
mod Tests
use sobhemessenger.Common.{
  ℕ, ◌+◌, Bool, true, false, not, Option, none, some, Uuid, List, [], ◌∷◌, ◌==◌, if◌then◌else◌,
  is_some, ltb, length,
}
use sobhemessenger.Common.Assoc.{Assoc, lookup, insert}
use sobhemessenger.Common.Text.{Runes, is_empty, trim_space}
use sobhemessenger.Httpx.{
  Fault, Result, ok, err, ◌>>=◌, ◌>>◌, on_row, map_err, unauthorized, forbidden, internal,
  not_found_code, token_invalid, token_expired, session_revoked, account_banned, account_deleted,
  too_many_devices,
}
use sobhemessenger.Httpx as Http
use sobhemessenger.Auth.Accounts.{
  Hash, Status, active, banned, User, Session, Accounts, RepoError, not_found, too_many, duplicate,
  is_active, user_by_id, session_by_id,
}
use sobhemessenger.Auth.Sessions.{
  upsert_device, create_session, rotate_refresh_token, revoke_all_sessions,
}
use sobhemessenger.Auth.Sessions as Rows

pub record Config : Type 0 where
  pub access_ttl : ℕ
  pub refresh_ttl : ℕ
  pub max_devices_per_user : ℕ

pub record Claims : Type 0 where
  pub subject : Uuid
  pub device_id : Uuid
  pub session_id : Uuid
  pub token_version : ℕ
  pub expires_at : ℕ

pub record TokenPair : Type 0 where
  pub access_token : Claims
  pub refresh_token : Runes

-- The tables, and the denylist in Redis: when the key of a session expires.
pub record World : Type 0 where
  pub accounts : Accounts
  pub denied : Assoc ℕ

abbrev pub minute : ℕ
minute = 60

abbrev pub when_device_error : RepoError → Fault
when_device_error too_many = forbidden too_many_devices
when_device_error not_found = internal
when_device_error duplicate = internal

abbrev pub when_rotate_error : RepoError → Fault
when_rotate_error not_found = unauthorized session_revoked
when_rotate_error too_many = internal
when_rotate_error duplicate = internal

-- What a method answers, and the tables that it leaves.
abbrev pub Answer : Type 0 → Type 0
Answer A = Result Fault A × Accounts

module _ (c : Config) where
  -- `IssueAccessToken` at a time of the clock.
  unfoldable pub issue_access_token : ℕ → Uuid → Uuid → Uuid → ℕ → Claims
  issue_access_token minted user device session token_version = record {
    subject = user;
    device_id = device;
    session_id = session;
    token_version = token_version;
    expires_at = minted + c.access_ttl;
  }

module _ (c : Config) where
  abbrev pub opened :
      ℕ → User → Uuid → Uuid → Runes → Accounts → Result RepoError Accounts → Answer TokenPair
  opened minted user device session token a (err e) = (err internal, a)
  opened minted user device session token a (ok after) = (
    ok (record {
      access_token = issue_access_token c minted user.id device session user.token_version;
      refresh_token = token;
    }),
    after,
  )

  abbrev pub refreshed : ℕ → Runes → Session → Accounts → Result Fault TokenPair
  refreshed minted token s a = on_row (user_by_id s.user_id a) internal λ u.
      if is_active u
      then ok (record {
        access_token = issue_access_token c minted u.id s.device_id s.id u.token_version;
        refresh_token = token;
      })
      else err (forbidden account_banned)

  -- The rotation stays when the account turns out to be closed.
  abbrev pub when_rotated :
      ℕ → Runes → Accounts → Result RepoError (Session × Accounts) → Answer TokenPair
  when_rotated minted token a (err e) = (err (when_rotate_error e), a)
  when_rotated minted token a (ok (s, after)) = (refreshed minted token s after, after)

module _ (c : Config) (hash_token : Runes → Hash) where
  -- The device stays when the session is refused.
  abbrev pub when_registered :
      ℕ → ℕ → User → Uuid → Uuid → Runes → Accounts → Result RepoError Accounts → Answer TokenPair
  when_registered now minted user device session token a (err e) = (err (when_device_error e), a)
  when_registered now minted user device session token a (ok registered) =
      opened c minted user device session token registered (
        create_session now session user.id device (hash_token token) (now + c.refresh_ttl)
          registered)

  -- `device` and `session` are the ids of the new rows, `token` the new random text.
  unfoldable pub issue_tokens : ℕ → ℕ → User → Uuid → Uuid → Runes → Accounts → Answer TokenPair
  unfolding upsert_device create_session issue_access_token
  issue_tokens now minted user device session token a =
      when_registered now minted user device session token a
        (upsert_device device user.id c.max_devices_per_user a)

  -- `token` is the new random text.
  unfoldable pub refresh : ℕ → ℕ → Runes → Runes → Accounts → Answer TokenPair
  unfolding rotate_refresh_token user_by_id is_active issue_access_token trim_space
  refresh now minted presented token a =
      if is_empty (trim_space presented)
      then (err (unauthorized token_invalid), a)
      else when_rotated c minted token a (
          rotate_refresh_token now (hash_token presented) (hash_token token) (now + c.refresh_ttl)
            a)

module _ (c : Config) where
  -- `denySession`. `answers` says that Redis took the write; a failure is only logged.
  abbrev pub deny_session : ℕ → Bool → Uuid → Assoc ℕ → Assoc ℕ
  deny_session now answers id denied =
      if answers then insert id (now + (c.access_ttl + minute)) denied else denied

  abbrev pub deny_sessions : ℕ → Bool → List Uuid → Assoc ℕ → Assoc ℕ
  deny_sessions now answers [] denied = denied
  deny_sessions now answers (id ∷ ids) denied =
      deny_sessions now answers ids (deny_session now answers id denied)

  abbrev pub ended : ℕ → Bool → Uuid → World → Accounts → World
  ended now answers id w after = record {
    accounts = after;
    denied = deny_session now answers id w.denied;
  }

  abbrev pub when_revoked : ℕ → Bool → Uuid → World → Result RepoError Accounts → Result Fault World
  when_revoked now answers id w (err e) = err (Http.not_found not_found_code)
  when_revoked now answers id w (ok after) = ok (ended now answers id w after)

  unfoldable pub revoke_session : ℕ → Bool → Uuid → Uuid → World → Result Fault World
  unfolding Rows.revoke_session insert
  revoke_session now answers user id w =
      when_revoked now answers id w (Rows.revoke_session now user id w.accounts)

  -- A session that is gone is no error.
  abbrev pub when_logged_out :
      ℕ → Bool → Uuid → World → Result RepoError Accounts → Result Fault World
  when_logged_out now answers id w (err e) = ok w
  when_logged_out now answers id w (ok after) = ok (ended now answers id w after)

  unfoldable pub logout : ℕ → Bool → Uuid → Uuid → World → Result Fault World
  unfolding Rows.revoke_session insert
  logout now answers user id w =
      when_logged_out now answers id w (Rows.revoke_session now user id w.accounts)

  -- With the number of sessions that it ended.
  unfoldable pub revoke_other_sessions : ℕ → Bool → Uuid → Uuid → World → ℕ × World
  unfolding revoke_all_sessions insert
  revoke_other_sessions now answers user keep w =
      let (ids, after) = revoke_all_sessions now user keep w.accounts in
      (length ids, record { accounts = after; denied = deny_sessions now answers ids w.denied })
