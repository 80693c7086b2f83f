-- ===== src/SecretChat/Mailbox.antt =====
-- backend/internal/secretchat/secretchat.go: the mailbox of ciphertexts.
use sobhemessenger.Common.{
  ℕ, Bool, true, false, not, ◌&&◌, ◌||◌, Option, none, some, Uuid, Bytes, List, [], ◌∷◌, ◌==◌,
  if◌then◌else◌, ltb, leb, length, map, any, contains, count_if, is_some,
}
use sobhemessenger.Common.Assoc.{Assoc, lookup}
use sobhemessenger.Common.Base64.{encode, decode}
use sobhemessenger.Common.Lists.Rows.{filter_if, take, order_by}
use sobhemessenger.Common.Text.{Runes}
use sobhemessenger.Httpx.{
  Fault, Result, ok, err, ◌>>=◌, ◌>>◌, validation, forbidden, not_found, too_large, not_found_code,
  not_chat_member,
}
use sobhemessenger.Messaging.Permissions.{is_secret}
use sobhemessenger.Messaging.Context.{ChatContext}
use sobhemessenger.SecretChat.Store.{Device}

-- A row of `secret_messages`. Nothing writes `delivered_at`, so each row is undelivered.
pub record Envelope : Type 0 where
  pub id : Uuid
  pub chat_id : Uuid
  pub sender_device_id : Uuid
  pub recipient_device_id : Uuid
  pub ciphertext : Bytes
  pub message_type : ℕ
  pub encryption_version : ℕ
  pub client_message_id : Uuid
  pub created_at : ℕ

pub record SendInput : Type 0 where
  pub chat_id : Uuid
  pub sender_device_id : Uuid
  pub recipient_device_id : Uuid
  pub ciphertext : Runes
  pub message_type : ℕ
  pub encryption_version : ℕ
  pub client_message_id : Uuid

abbrev pub current_encryption_version : ℕ
current_encryption_version = 1

-- A version below zero is 0 here.
abbrev pub encryption_version : ℕ → ℕ
encryption_version sent = if sent == 0 then current_encryption_version else sent

-- The key of the upsert.
abbrev pub is_sent : Uuid → Uuid → Uuid → Envelope → Bool
is_sent recipient sender client e =
    e.recipient_device_id == recipient
    && e.sender_device_id == sender
    && e.client_message_id == client

abbrev pub resent : Bytes → ℕ → Envelope → Envelope
resent ciphertext version e = record e { ciphertext = ciphertext; encryption_version = version }

abbrev pub new_envelope : ℕ → Uuid → SendInput → Bytes → Envelope
new_envelope now id in_ ciphertext = record {
  id = id;
  chat_id = in_.chat_id;
  sender_device_id = in_.sender_device_id;
  recipient_device_id = in_.recipient_device_id;
  ciphertext = ciphertext;
  message_type = in_.message_type;
  encryption_version = encryption_version in_.encryption_version;
  client_message_id = in_.client_message_id;
  created_at = now;
}

abbrev pub matches : SendInput → Envelope → Bool
matches input = is_sent input.recipient_device_id input.sender_device_id input.client_message_id

-- INSERT ... ON CONFLICT DO UPDATE
unfoldable pub store_envelope : ℕ → Uuid → SendInput → Bytes → List Envelope → List Envelope
store_envelope now id input ciphertext rows =
    if any (matches input) rows
    then map
        (λ (e : Envelope).
          if matches input e
          then resent ciphertext (encryption_version input.encryption_version) e
          else e)
        rows
    else new_envelope now id input ciphertext ∷ rows

abbrev pub is_earlier : Envelope → Envelope → Bool
is_earlier a b = leb a.created_at b.created_at

abbrev pub is_to : Uuid → Envelope → Bool
is_to device e = e.recipient_device_id == device

unfoldable pub pending_envelopes : Uuid → ℕ → List Envelope → List Envelope
unfolding filter_if take order_by
pending_envelopes device limit rows =
    take limit (order_by is_earlier (filter_if (is_to device) rows))

abbrev pub is_acknowledged : Uuid → List Uuid → Envelope → Bool
is_acknowledged device ids e = is_to device e && contains e.id ids

-- With how many were deleted.
unfoldable pub acknowledge_envelopes : Uuid → List Uuid → List Envelope → ℕ × List Envelope
unfolding filter_if
acknowledge_envelopes device ids rows = (
  count_if (is_acknowledged device ids) rows,
  filter_if (λ e. not (is_acknowledged device ids e)) rows,
)

-- 128 KiB
abbrev pub max_ciphertext : ℕ
max_ciphertext = 131072

abbrev pub has_device : Uuid → Assoc Device → Bool
has_device device devices = is_some (lookup device devices)

abbrev pub decoded_ciphertext : Option Bytes → Result Fault Bytes
decoded_ciphertext none = err validation
decoded_ciphertext (some raw) =
    if length raw == 0
    then err validation
    else if ltb max_ciphertext (length raw)
    then err too_large
    else ok raw

abbrev pub require_secret : ChatContext → Result Fault (Unit {0})
require_secret ctx =
    if not ctx.is_member
    then err (forbidden not_chat_member)
    else if not (is_secret ctx.chat_type)
    then err validation
    else ok tt

-- `Send`; `context` is the outcome of `ChatContextFor` for the sender. A foreign key that fails is the
-- recipient's.
unfoldable pub send :
    ℕ
    → Uuid
    → SendInput
    → Result Fault ChatContext
    → Assoc Device
    → List Envelope
    → Result Fault (List Envelope)
unfolding decode store_envelope
send now id input context devices rows = do
  if input.client_message_id == 0 then err validation else ok tt
  ciphertext ← decoded_ciphertext (decode input.ciphertext)
  ctx ← context
  require_secret ctx
  if has_device input.recipient_device_id devices then ok tt else err (not_found not_found_code)
  ok (store_envelope now id input ciphertext rows)

abbrev pub page_size : ℕ → ℕ
page_size limit = if limit == 0 || ltb 500 limit then 100 else limit

-- The page of `Inbox`, with what a client is shown of each envelope.
unfoldable pub inbox : Uuid → ℕ → List Envelope → List (Envelope × Runes)
unfolding pending_envelopes encode
inbox device limit rows =
    map (λ (e : Envelope). (e, encode e.ciphertext))
      (pending_envelopes device (page_size limit) rows)

abbrev pub is_nothing : List Uuid → Bool
is_nothing [] = true
is_nothing _ = false

unfoldable pub acknowledge : Uuid → List Uuid → List Envelope → Result Fault (ℕ × List Envelope)
unfolding acknowledge_envelopes
acknowledge device ids rows =
    if is_nothing ids
    then ok (0, rows)
    else if ltb 500 (length ids)
    then err validation
    else ok (acknowledge_envelopes device ids rows)
