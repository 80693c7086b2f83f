-- ===== src/SecretChat/Store.antt =====
-- backend/internal/secretchat/secretchat.go: the rows of the key directory and of the sessions. Ids and
-- the time are arguments of the statements.
use sobhemessenger.Common.{
  ℕ, Bool, true, false, ◌&&◌, ◌||◌, Option, Uuid, Bytes, List, ◌==◌, is_some, not,
}
use sobhemessenger.Common.Assoc.{Assoc}
use sobhemessenger.Common.Text.{Runes}

-- A row of `devices`, which another part writes.
pub record Device : Type 0 where
  pub user_id : Uuid
  pub revoked : Bool

-- A row of `device_identity_keys`.
pub record Identity : Type 0 where
  pub user_id : Uuid
  pub identity_key : Bytes
  pub signed_prekey : Bytes
  pub prekey_signature : Bytes
  pub registration_id : ℕ
  pub signed_prekey_id : ℕ

-- A row of `device_one_time_prekeys`; `claimed_by` is set where `claimed_at` is.
pub record Prekey : Type 0 where
  pub device_id : Uuid
  pub key_id : ℕ
  pub public_key : Bytes
  pub claimed_by : Option Uuid

pub data SessionState : Type 0 where
  pending established terminated : SessionState

-- A row of `secret_chat_sessions`.
pub record Session : Type 0 where
  pub id : Uuid
  pub chat_id : Uuid
  pub initiator_device_id : Uuid
  pub responder_device_id : Uuid
  pub state : SessionState
  pub fingerprint : Bytes
  pub established_at : Option ℕ
  pub terminated_at : Option ℕ

pub record Directory : Type 0 where
  pub devices : Assoc Device
  pub identities : Assoc Identity
  pub prekeys : List Prekey
  pub sessions : List Session

pub data RepoError : Type 0 where
  not_found keys_missing invalid_key : RepoError

-- `OneTimePrekey`, as a client sends it and gets it.
pub record OneTimePrekey : Type 0 where
  pub key_id : ℕ
  pub public_key : Runes

pub record KeyBundle : Type 0 where
  pub device_id : Uuid
  pub user_id : Uuid
  pub registration_id : ℕ
  pub identity_key : Runes
  pub signed_prekey_id : ℕ
  pub signed_prekey : Runes
  pub prekey_signature : Runes
  pub one_time_prekey : Option OneTimePrekey

abbrev pub is_of : Uuid → Prekey → Bool
is_of device k = k.device_id == device

abbrev pub is_key : Uuid → ℕ → Prekey → Bool
is_key device id k = k.device_id == device && k.key_id == id

abbrev pub is_available : Prekey → Bool
is_available k = not (is_some k.claimed_by)

abbrev pub has_party : Uuid → Session → Bool
has_party device s = s.initiator_device_id == device || s.responder_device_id == device

abbrev pub is_terminated : SessionState → Bool
is_terminated terminated = true
is_terminated _ = false

abbrev pub is_pending : SessionState → Bool
is_pending pending = true
is_pending _ = false
