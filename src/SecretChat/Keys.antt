-- ===== src/SecretChat/Keys.antt =====
-- backend/internal/secretchat/secretchat.go: publishing and claiming keys.
use sobhemessenger.Common.{
  ℕ, Bool, true, false, not, ◌&&◌, Option, none, some, Uuid, Bytes, List, [], ◌∷◌, ◌==◌,
  if◌then◌else◌, ltb, leb, length, map, any, count_if, on_option,
}
use sobhemessenger.Common.Assoc.{Assoc, lookup, insert}
use sobhemessenger.Common.Base64.{encode, decode}
use sobhemessenger.Common.Lists.Rows.{filter_if}
use sobhemessenger.Common.Text.{Runes, is_equal}
use sobhemessenger.Httpx.{
  Fault, Result, ok, err, ◌>>=◌, ◌>>◌, on_row, map_err, validation, internal, not_found_code,
}
use sobhemessenger.Httpx as Httpx
use sobhemessenger.SecretChat.Store.{
  Device, Identity, Prekey, Session, terminated, Directory, RepoError, keys_missing, invalid_key,
  OneTimePrekey, KeyBundle, is_of, is_key, is_available, has_party, is_terminated,
}

abbrev pub identity_key_length : ℕ
identity_key_length = 33

abbrev pub signed_prekey_length : ℕ
signed_prekey_length = 33

abbrev pub prekey_signature_length : ℕ
prekey_signature_length = 64

abbrev pub one_time_prekey_length : ℕ
one_time_prekey_length = 33

abbrev pub max_one_time_prekeys : ℕ
max_one_time_prekeys = 200

abbrev pub low_prekey_watermark : ℕ
low_prekey_watermark = 20

-- INSERT ... ON CONFLICT (device_id, key_id) DO NOTHING
abbrev pub add_prekey : Uuid → ℕ → Bytes → List Prekey → List Prekey
add_prekey device id raw rows =
    if any (is_key device id) rows
    then rows
    else record { device_id = device; key_id = id; public_key = raw; claimed_by = none } ∷ rows

unfoldable pub store_prekeys :
    Uuid → List OneTimePrekey → List Prekey → Result RepoError (List Prekey)
unfolding decode
store_prekeys device [] rows = ok rows
store_prekeys device (k ∷ ks) rows =
    on_row (decode k.public_key) invalid_key
      λ raw. store_prekeys device ks (add_prekey device k.key_id raw rows)

abbrev pub terminate : ℕ → Uuid → Session → Session
terminate now device s =
    if has_party device s && not (is_terminated s.state)
    then record s { state = terminated; terminated_at = some now }
    else s

-- `len(previousIdentity) > 0 && string(previousIdentity) != string(identityKey)`
abbrev pub is_rotation : Option Identity → Bytes → Bool
is_rotation none key = false
is_rotation (some old) key = ltb 0 (length old.identity_key) && not (is_equal old.identity_key key)

-- The two statements for a changed identity.
unfoldable pub reset_device : ℕ → Uuid → Directory → Directory
unfolding filter_if
reset_device now device dir = record dir {
  prekeys = filter_if (λ k. not (is_of device k)) dir.prekeys;
  sessions = map (terminate now device) dir.sessions;
}

-- INSERT ... ON CONFLICT (device_id) DO UPDATE, which leaves the user as it was.
abbrev pub replaced : Option Identity → Identity → Identity
replaced none new = new
replaced (some old) new = record new { user_id = old.user_id }

unfoldable pub publish_keys :
    ℕ → Uuid → Identity → List OneTimePrekey → Directory → Result RepoError Directory
unfolding store_prekeys reset_device
publish_keys now device identity one_time dir =
    let kept =
      if is_rotation (lookup device dir.identities) identity.identity_key
      then reset_device now device dir
      else dir in
    store_prekeys device one_time kept.prekeys >>= λ prekeys. ok (record kept {
      identities = insert device (replaced (lookup device dir.identities) identity) dir.identities;
      prekeys = prekeys;
    })

-- ORDER BY key_id LIMIT 1 over the unclaimed prekeys of the device.
unfoldable pub lowest : Uuid → List Prekey → Option Prekey
lowest device [] = none
lowest device (k ∷ ks) =
    let best = lowest device ks in
    if is_of device k && is_available k
    then on_option best (some k) (λ b. if leb k.key_id b.key_id then some k else some b)
    else best

abbrev pub claim_row : Uuid → ℕ → Uuid → Prekey → Prekey
claim_row device id by k = if is_key device id k then record k { claimed_by = some by } else k

abbrev pub live_identity : Uuid → Directory → Option Identity
live_identity device dir = elim (lookup device dir.devices) [
  | none ↦ none
  | some d ↦ if d.revoked then none else lookup device dir.identities
]

abbrev pub bundle_of : Uuid → Identity → Option Prekey → KeyBundle
bundle_of device identity claimed = record {
  device_id = device;
  user_id = identity.user_id;
  registration_id = identity.registration_id;
  identity_key = encode identity.identity_key;
  signed_prekey_id = identity.signed_prekey_id;
  signed_prekey = encode identity.signed_prekey;
  prekey_signature = encode identity.prekey_signature;
  one_time_prekey =
      on_option claimed none
        (λ k. some (record { key_id = k.key_id; public_key = encode k.public_key }));
}

unfoldable pub claim_bundle : Uuid → Uuid → Directory → Result RepoError (KeyBundle × Directory)
unfolding lowest encode
claim_bundle device by dir = on_row (live_identity device dir) keys_missing λ identity.
    on_option (lowest device dir.prekeys) (ok (bundle_of device identity none, dir)) λ k. ok (
      bundle_of device identity (some k),
      record dir { prekeys = map (claim_row device k.key_id by) dir.prekeys },
    )

unfoldable pub available_prekey_count : Uuid → Directory → ℕ
available_prekey_count device dir = count_if (λ k. is_of device k && is_available k) dir.prekeys

abbrev pub decoded_key : ℕ → Option Bytes → Result Fault Bytes
decoded_key expected none = err validation
decoded_key expected (some raw) = if length raw == expected then ok raw else err validation

unfoldable pub decode_key : Runes → ℕ → Result Fault Bytes
unfolding decode
decode_key value expected = decoded_key expected (decode value)

pub record PublishInput : Type 0 where
  pub device_id : Uuid
  pub user_id : Uuid
  pub registration_id : ℕ
  pub identity_key : Runes
  pub signed_prekey_id : ℕ
  pub signed_prekey : Runes
  pub prekey_signature : Runes
  pub one_time_prekeys : List OneTimePrekey

unfoldable pub check_prekeys : List OneTimePrekey → Result Fault (Unit {0})
unfolding decode_key
check_prekeys [] = ok tt
check_prekeys (k ∷ ks) = decode_key k.public_key one_time_prekey_length >>= λ _. check_prekeys ks

abbrev pub when_publish_error : RepoError → Fault
when_publish_error invalid_key = validation
when_publish_error _ = internal

-- `PublishKeys` of the service. An id that is not positive is 0 here.
unfoldable pub publish : ℕ → PublishInput → Directory → Result Fault Directory
unfolding decode_key check_prekeys publish_keys
publish now input dir = do
  identity_key ← decode_key input.identity_key identity_key_length
  signed_prekey ← decode_key input.signed_prekey signed_prekey_length
  signature ← decode_key input.prekey_signature prekey_signature_length
  if input.registration_id == 0 then err validation else ok tt
  if input.signed_prekey_id == 0 then err validation else ok tt
  if ltb max_one_time_prekeys (length input.one_time_prekeys) then err validation else ok tt
  check_prekeys input.one_time_prekeys
  map_err when_publish_error (
      publish_keys now input.device_id
        (record {
          user_id = input.user_id;
          identity_key = identity_key;
          signed_prekey = signed_prekey;
          prekey_signature = signature;
          registration_id = input.registration_id;
          signed_prekey_id = input.signed_prekey_id;
        })
        input.one_time_prekeys dir)

pub record PrekeyStatus : Type 0 where
  pub available : ℕ
  pub watermark : ℕ
  pub needs_upload : Bool

unfoldable pub prekey_status : Uuid → Directory → PrekeyStatus
unfolding available_prekey_count
prekey_status device dir = record {
  available = available_prekey_count device dir;
  watermark = low_prekey_watermark;
  needs_upload = ltb (available_prekey_count device dir) low_prekey_watermark;
}

-- `DevicesFor`, by the devices that have published.
abbrev pub is_device_of : Uuid → Assoc Device → Uuid × Identity → Bool
is_device_of user devices (id, identity) =
    identity.user_id == user && elim (lookup id devices) [ none ↦ false | some d ↦ not d.revoked ]

unfoldable pub devices_for : Uuid → Directory → List Uuid
unfolding filter_if
devices_for user dir =
    map (λ (r : Uuid × Identity). r.0) (filter_if (is_device_of user dir.devices) dir.identities)

-- A bundle from each device; one that has no keys any more is passed over.
unfoldable pub claim_all : List Uuid → Uuid → Directory → List KeyBundle × Directory
unfolding claim_bundle
claim_all [] by dir = ([], dir)
claim_all (device ∷ devices) by dir = elim (claim_bundle device by dir) [
  | err e ↦ claim_all devices by dir
  | ok (bundle, next) ↦ let (later, last) = claim_all devices by next in (bundle ∷ later, last)
]

abbrev pub is_none : List KeyBundle → Bool
is_none [] = true
is_none _ = false

unfoldable pub bundles : Uuid → Uuid → Directory → Result Fault (List KeyBundle × Directory)
unfolding devices_for claim_all
bundles user by dir =
    let (claimed, next) = claim_all (devices_for user dir) by dir in
    if is_none claimed then err (Httpx.not_found not_found_code) else ok (claimed, next)
