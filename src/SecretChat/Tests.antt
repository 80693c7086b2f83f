-- ===== src/SecretChat/Tests.antt =====
-- Two devices, and the theorems at them.
use sobhemessenger.Common.{
  ℕ, ◌≡◌, ◌≤◌, ◌&&◌, refl, true, false, none, some, Bytes, List, [], ◌∷◌, arith, count_if, All,
}
use sobhemessenger.Common.Assoc.{lookup, insert}
use sobhemessenger.Common.Base64.{encode, decode}
use sobhemessenger.Common.Text.{Runes, is_equal}
use sobhemessenger.Httpx.{ok, err}
use sobhemessenger.Messaging.Permissions.{secret, member}
use sobhemessenger.Messaging.Context.{ChatContext}
use sobhemessenger.SecretChat.Store.{
  Device, Identity, Directory, established, OneTimePrekey, KeyBundle,
}
use sobhemessenger.SecretChat.Keys.{PublishInput, publish, publish_keys, claim_bundle}
use sobhemessenger.SecretChat.Claims.{KeyOp, publishing, claiming, is_handed, run_keys}
use sobhemessenger.SecretChat.Handover.{publish_then_claim}
use sobhemessenger.SecretChat.Handed.{handed_once}
use sobhemessenger.SecretChat.Rotation.{rotation_resets, IsCut, IsFreshRow, key_ids}
use sobhemessenger.SecretChat.Mailbox.{Envelope, SendInput, matches, send, inbox}
use sobhemessenger.SecretChat.Delivery.{send_is_shown, elsewhere}

-- "Man", "Ma" and "M" of RFC 4648.
encode_man : encode (77 ∷ 97 ∷ 110 ∷ []) ≡ 84 ∷ 87 ∷ 70 ∷ 117 ∷ []
unfolding encode
encode_man = refl

decode_ma : decode (84 ∷ 87 ∷ 10 ∷ 69 ∷ 61 ∷ []) ≡ some (77 ∷ 97 ∷ [])
unfolding decode
decode_ma = refl

abbrev key : ℕ → Bytes
key b =
    b ∷ b ∷ b ∷ b ∷ b ∷ b ∷ b ∷ b ∷ b ∷ b ∷ b ∷ b ∷ b ∷ b ∷ b ∷ b ∷ b ∷ b ∷ b ∷ b ∷ b ∷ b ∷ b ∷ b
    ∷ b ∷ b ∷ b ∷ b ∷ b ∷ b ∷ b ∷ b ∷ b ∷ []

abbrev signature : Bytes
signature =
    7
    ∷ 7
    ∷ 7
    ∷ 7
    ∷ 7
    ∷ 7
    ∷ 7
    ∷ 7
    ∷ 7
    ∷ 7
    ∷ 7
    ∷ 7
    ∷ 7
    ∷ 7
    ∷ 7
    ∷ 7
    ∷ 7
    ∷ 7
    ∷ 7
    ∷ 7
    ∷ 7
    ∷ 7
    ∷ 7
    ∷ 7
    ∷ 7
    ∷ 7
    ∷ 7
    ∷ 7
    ∷ 7
    ∷ 7
    ∷ 7
    ∷ key 8

abbrev phone : PublishInput
phone = record {
  device_id = 1;
  user_id = 7;
  registration_id = 5;
  identity_key = encode (key 1);
  signed_prekey_id = 6;
  signed_prekey = encode (key 2);
  prekey_signature = encode signature;
  one_time_prekeys =
      record { key_id = 3; public_key = encode (key 3) }
      ∷ record { key_id = 4; public_key = encode (key 4) }
      ∷ [];
}

abbrev device : Device
device = record { user_id = 7; revoked = false }

abbrev empty_directory : Directory
empty_directory = record {
  devices = (1, device) ∷ (2, device) ∷ [];
  identities = [];
  prekeys = [];
  sessions = [];
}

abbrev published : Directory
published = elim (publish 10 phone empty_directory) [ ok t ↦ t | err e ↦ empty_directory ]

publish_then_claim_example :
    (r : KeyBundle × Directory) × (claim_bundle 1 2 published ≡ ok r)
    × (r.0.identity_key ≡ phone.identity_key)
    × (r.0.signed_prekey ≡ phone.signed_prekey)
    × (r.0.prekey_signature ≡ phone.prekey_signature)
    × (r.0.registration_id ≡ phone.registration_id)
    × (r.0.signed_prekey_id ≡ phone.signed_prekey_id)
unfolding publish encode lookup insert
publish_then_claim_example =
    publish_then_claim 10 phone (key 1) (key 2) signature device 2 empty_directory published refl
      (omega arith) refl (omega arith) refl (omega arith) refl refl refl

abbrev ops : List KeyOp
ops = publishing 10 phone ∷ claiming 1 2 ∷ publishing 20 phone ∷ claiming 1 2 ∷ claiming 1 2 ∷ []

-- Two prekeys for three claims.
handed_prekeys :
    (run_keys ops (record { directory = empty_directory; handed = [] })).handed
    ≡ (1, 4) ∷ (1, 3) ∷ []
unfolding run_keys encode lookup insert
handed_prekeys = refl

handed_once_example :
    count_if
      (is_handed 1 3)
      (run_keys ops (record { directory = empty_directory; handed = [] })).handed
    ≤ 1
unfolding encode decode lookup
handed_once_example =
    handed_once 1 3 (key 1) ops empty_directory ((λ _. refl), ((λ _. refl), tt)) tt (omega arith)

abbrev reinstalled : Identity
reinstalled = record {
  user_id = 7;
  identity_key = key 9;
  signed_prekey = key 2;
  prekey_signature = signature;
  registration_id = 5;
  signed_prekey_id = 6;
}

abbrev in_session : Directory
in_session = record published {
  sessions =
      record {
        id = 40;
        chat_id = 50;
        initiator_device_id = 2;
        responder_device_id = 1;
        state = established;
        fingerprint = [];
        established_at = some 12;
        terminated_at = none;
      }
      ∷ [];
}

abbrev uploads : List OneTimePrekey
uploads = record { key_id = 3; public_key = encode (key 5) } ∷ []

abbrev rotated : Directory
rotated = elim (publish_keys 30 1 reinstalled uploads in_session) [ ok t ↦ t | err e ↦ in_session ]

rotation_resets_example :
    All (IsCut 1) rotated.sessions × All (IsFreshRow 1 (key_ids uploads)) rotated.prekeys
unfolding publish publish_keys encode lookup insert
rotation_resets_example = rotation_resets 30 1 reinstalled uploads in_session rotated refl refl

abbrev letter : SendInput
letter = record {
  chat_id = 50;
  sender_device_id = 2;
  recipient_device_id = 1;
  ciphertext = encode (key 200);
  message_type = 1;
  encryption_version = 0;
  client_message_id = 60;
}

abbrev context : ChatContext
context = record {
  chat_type = secret;
  member_count = 2;
  role = member;
  permissions = λ _. true;
  is_member = true;
}

abbrev mailbox : List Envelope
mailbox = elim (send 40 70 letter (ok context) empty_directory.devices []) [ ok t ↦ t | err e ↦ [] ]

send_is_shown_example :
    (count_if (matches letter) mailbox ≡ 1)
    × All (λ e. matches letter e ≡ true → encode e.ciphertext ≡ letter.ciphertext) mailbox
    × (elsewhere letter mailbox ≡ elsewhere letter [])
    × (count_if (λ (shown : Envelope × Runes). matches letter shown.0) (inbox 1 20 mailbox) ≡ 1)
    × (count_if
          (λ (shown : Envelope × Runes).
            matches letter shown.0 && is_equal shown.1 letter.ciphertext)
          (inbox 1 20 mailbox)
        ≡ 1)
unfolding send encode lookup
send_is_shown_example =
    send_is_shown 40 70 letter (key 200) (ok context) empty_directory.devices [] mailbox 20 refl
      (omega arith) (omega arith) refl (omega arith)
