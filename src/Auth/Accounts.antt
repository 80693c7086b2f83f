-- ===== src/Auth/Accounts.antt =====
-- backend/internal/auth/repository.go: the rows of an account (users, devices, sessions). A hash is
-- compared and never computed with, so it is a number.
use sobhemessenger.Common.{ℕ, Bool, true, false, not, ◌&&◌, Option, Uuid, List, ◌==◌, is_some, ltb}
use sobhemessenger.Common.Lists.Rows.{find_if}
use sobhemessenger.Common.Text.{Runes}

abbrev pub Hash : Type 0
Hash = ℕ

pub data Status : Type 0 where
  active banned other_status : Status

pub record User : Type 0 where
  pub id : Uuid
  pub phone_number : Runes
  pub status : Status
  pub two_step_enabled : Bool
  pub password_hash : Option Hash
  pub two_step_hint : Option Runes
  pub token_version : ℕ
  pub deleted_at : Option ℕ

pub record Device : Type 0 where
  pub id : Uuid
  pub user_id : Uuid
  pub revoked_at : Option ℕ

pub record Session : Type 0 where
  pub id : Uuid
  pub user_id : Uuid
  pub device_id : Uuid
  pub refresh_token_hash : Hash
  pub refresh_expires_at : ℕ
  pub revoked_at : Option ℕ
  pub created_at : ℕ
  pub last_used_at : ℕ

-- The tables, newest row first.
pub record Accounts : Type 0 where
  pub users : List User
  pub devices : List Device
  pub sessions : List Session

-- `duplicate` is a violation of a unique index, which the code passes on like any database error.
pub data RepoError : Type 0 where
  not_found too_many duplicate : RepoError

abbrev pub is_active_status : Status → Bool
is_active_status active = true
is_active_status banned = false
is_active_status other_status = false

unfoldable pub is_active : User → Bool
is_active u = is_active_status u.status && not (is_some u.deleted_at)

unfoldable pub user_by_id : Uuid → Accounts → Option User
unfolding find_if
user_by_id id a = find_if (λ (u : User). u.id == id) a.users

abbrev pub is_session : Uuid → Session → Bool
is_session id s = s.id == id

unfoldable pub session_by_id : Uuid → Accounts → Option Session
unfolding find_if
session_by_id id a = find_if (is_session id) a.sessions

-- `revoked_at IS NULL AND refresh_expires_at > now()`
abbrev pub is_live : ℕ → Session → Bool
is_live now s = not (is_some s.revoked_at) && ltb now s.refresh_expires_at
