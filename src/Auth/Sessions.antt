-- ===== src/Auth/Sessions.antt =====
-- backend/internal/auth/repository.go: the statements on devices and sessions.
use sobhemessenger.Common.{
  ℕ, Bool, not, ◌&&◌, none, some, Uuid, List, [], ◌∷◌, ◌==◌, if◌then◌else◌, is_some, leb, map, any,
  count_if, contains,
}
use sobhemessenger.Common.Lists.Rows.{find_if, filter_if}
use sobhemessenger.Httpx.{Result, ok, err, on_row}
use sobhemessenger.Auth.Accounts.{
  Hash, Device, Session, Accounts, RepoError, not_found, too_many, duplicate, is_live, is_session,
}

abbrev pub is_active_device : Uuid → Device → Bool
is_active_device user d = d.user_id == user && not (is_some d.revoked_at)

-- `UpsertDevice`; `id` is the id of the row that it inserts.
unfoldable pub upsert_device : Uuid → Uuid → ℕ → Accounts → Result RepoError Accounts
upsert_device id user max_devices a =
    if leb max_devices (count_if (is_active_device user) a.devices)
    then err too_many
    else ok
        (record a { devices = record { id = id; user_id = user; revoked_at = none } ∷ a.devices })

abbrev pub has_hash : Hash → Session → Bool
has_hash hash s = s.refresh_token_hash == hash

-- The primary key and the unique index on the hash refuse a second row.
unfoldable pub create_session :
    ℕ → Uuid → Uuid → Uuid → Hash → ℕ → Accounts → Result RepoError Accounts
create_session now id user device hash expires a =
    if any (is_session id) a.sessions
    then err duplicate
    else if any (has_hash hash) a.sessions
    then err duplicate
    else ok (record a {
      sessions =
          record {
            id = id;
            user_id = user;
            device_id = device;
            refresh_token_hash = hash;
            refresh_expires_at = expires;
            revoked_at = none;
            created_at = now;
            last_used_at = now;
          }
          ∷ a.sessions;
    })

-- The WHERE clause of `RotateRefreshToken`.
abbrev pub may_rotate : ℕ → Hash → Session → Bool
may_rotate now old s = has_hash old s && is_live now s

abbrev pub rotated : ℕ → Hash → ℕ → Session → Session
rotated now new expires s = record s {
  refresh_token_hash = new;
  refresh_expires_at = expires;
  last_used_at = now;
}

abbrev pub rotate : ℕ → Hash → Hash → ℕ → Session → Session
rotate now old new expires s = if may_rotate now old s then rotated now new expires s else s

unfoldable pub rotate_refresh_token :
    ℕ → Hash → Hash → ℕ → Accounts → Result RepoError (Session × Accounts)
unfolding find_if
rotate_refresh_token now old new expires a =
    on_row (find_if (may_rotate now old) a.sessions) not_found λ s.
      if any (λ r. has_hash new r && not (may_rotate now old r)) a.sessions
      then err duplicate
      else ok (
        rotated now new expires s,
        record a { sessions = map (rotate now old new expires) a.sessions },
      )

-- The WHERE clauses of `RevokeSession` and of `RevokeAllSessions`.
abbrev pub may_revoke : Uuid → Uuid → Session → Bool
may_revoke user id s = s.id == id && s.user_id == user && not (is_some s.revoked_at)

abbrev pub may_revoke_other : Uuid → Uuid → Session → Bool
may_revoke_other user except s =
    s.user_id == user && not (is_some s.revoked_at) && not (s.id == except)

abbrev pub revoke : ℕ → (Session → Bool) → Session → Session
revoke now chosen s = if chosen s then record s { revoked_at = some now } else s

-- `revoked_at` is written again where it is set.
abbrev pub revoke_device : ℕ → List Uuid → Device → Device
revoke_device now ids d = if contains d.id ids then record d { revoked_at = some now } else d

abbrev pub revoke_rows : ℕ → (Session → Bool) → List Uuid → Accounts → Accounts
revoke_rows now chosen devices a = record a {
  sessions = map (revoke now chosen) a.sessions;
  devices = map (revoke_device now devices) a.devices;
}

unfoldable pub revoke_session : ℕ → Uuid → Uuid → Accounts → Result RepoError Accounts
unfolding find_if contains
revoke_session now user id a =
    on_row (find_if (may_revoke user id) a.sessions) not_found
      λ s. ok (revoke_rows now (may_revoke user id) (s.device_id ∷ []) a)

abbrev pub id_of : Session → Uuid
id_of s = s.id

abbrev pub device_of : Session → Uuid
device_of s = s.device_id

-- With the ids of the sessions that it revokes.
unfoldable pub revoke_all_sessions : ℕ → Uuid → Uuid → Accounts → List Uuid × Accounts
unfolding filter_if contains
revoke_all_sessions now user except a =
    let chosen = filter_if (may_revoke_other user except) a.sessions in
    (map id_of chosen, revoke_rows now (may_revoke_other user except) (map device_of chosen) a)
