-- ===== src/SecretChat/Sessions.antt =====
-- backend/internal/secretchat/secretchat.go: the chats of two and the sessions of their devices.
use sobhemessenger.Common.{
  ℕ, Bool, true, false, not, ◌&&◌, ◌||◌, Option, none, some, Uuid, Bytes, List, [], ◌∷◌, ◌==◌,
  if◌then◌else◌, ltb, map, any, on_option, is_some,
}
use sobhemessenger.Common.Assoc.{Assoc, lookup}
use sobhemessenger.Common.Base64.{decode}
use sobhemessenger.Common.Text.{Runes}
use sobhemessenger.Common.Text as Text
use sobhemessenger.Httpx.{
  Fault, Result, ok, err, ◌>>=◌, ◌>>◌, validation, forbidden, not_found, not_found_code,
  not_chat_member,
}
use sobhemessenger.Messaging.Context.{ChatContext}
use sobhemessenger.SecretChat.Store.{
  Device, Session, pending, established, Directory, RepoError, is_pending, is_terminated,
}
use sobhemessenger.SecretChat.Store as Rows
use sobhemessenger.SecretChat.Keys.{devices_for}

-- A row of `secret_chat_keys`.
pub record Pair : Type 0 where
  pub chat_id : Uuid
  pub user_a_id : Uuid
  pub user_b_id : Uuid

-- The order of two ids, which is that of their texts.
abbrev pub low : Uuid → Uuid → Uuid
low a b = if ltb b a then b else a

abbrev pub high : Uuid → Uuid → Uuid
high a b = if ltb b a then a else b

unfoldable pub chat_of : Uuid → Uuid → List Pair → Option Uuid
chat_of a b [] = none
chat_of a b (p ∷ ps) =
    let rest = chat_of a b ps in
    if p.user_a_id == a && p.user_b_id == b then some p.chat_id else rest

-- `EnsureSecretChat`, with whether the chat is new; `new_chat` is the id of the row of `chats`.
unfoldable pub ensure_secret_chat :
    Uuid → Uuid → Uuid → List Pair → Result Fault (Uuid × Bool × List Pair)
unfolding chat_of
ensure_secret_chat new_chat a b pairs =
    if a == b
    then err validation
    else on_option (chat_of (low a b) (high a b) pairs)
        (ok (
          new_chat,
          true,
          record { chat_id = new_chat; user_a_id = low a b; user_b_id = high a b } ∷ pairs,
        ))
        λ found. ok (found, false, pairs)

abbrev pub is_no_device : List Uuid → Bool
is_no_device [] = true
is_no_device _ = false

-- The peer 0 is uuid.Nil; `known` says that the peer has a row in `users`.
unfoldable pub open_chat :
    Uuid → Uuid → Uuid → Bool → Directory → List Pair → Result Fault (Uuid × Bool × List Pair)
unfolding devices_for ensure_secret_chat
open_chat new_chat user peer known dir pairs =
    if peer == 0
    then err validation
    else if is_no_device (devices_for peer dir)
    then err (not_found not_found_code)
    else (ensure_secret_chat new_chat user peer pairs >>= λ (opened : Uuid × Bool × List Pair).
        if known || not opened.1 then ok opened else err (not_found not_found_code))

abbrev pub is_between : Uuid → Uuid → Uuid → Session → Bool
is_between chat initiator responder s =
    s.chat_id == chat && s.initiator_device_id == initiator && s.responder_device_id == responder

-- The DO UPDATE of `CreateSession`, which leaves `established_at`.
abbrev pub reopened : Bytes → Session → Session
reopened fingerprint s = record s {
  state = pending;
  fingerprint = fingerprint;
  terminated_at = none;
}

unfoldable pub create_session : Uuid → Uuid → Uuid → Uuid → Bytes → List Session → List Session
create_session id chat initiator responder fingerprint rows =
    if any (is_between chat initiator responder) rows
    then map
        (λ (s : Session).
          if is_between chat initiator responder s then reopened fingerprint s else s)
        rows
    else record {
      id = id;
      chat_id = chat;
      initiator_device_id = initiator;
      responder_device_id = responder;
      state = pending;
      fingerprint = fingerprint;
      established_at = none;
      terminated_at = none;
    }
      ∷ rows

abbrev pub may_establish : Uuid → Session → Bool
may_establish id s = s.id == id && is_pending s.state

abbrev pub establish : ℕ → Uuid → Session → Session
establish now id s =
    if may_establish id s then record s { state = established; established_at = some now } else s

unfoldable pub establish_session : ℕ → Uuid → List Session → Result RepoError (List Session)
establish_session now id rows =
    if any (may_establish id) rows then ok (map (establish now id) rows) else err Rows.not_found

-- An empty text is no fingerprint.
abbrev pub decoded_fingerprint : Runes → Result Fault Bytes
decoded_fingerprint text =
    if Text.is_empty text then ok [] else on_option (decode text) (err validation) ok

-- `StartSession`; `context` is the outcome of `ChatContextFor`.
unfoldable pub start_session :
    Uuid
    → Uuid
    → Uuid
    → Uuid
    → Runes
    → Result Fault ChatContext
    → Assoc Device
    → List Session
    → Result Fault (List Session)
unfolding decode create_session
start_session id chat initiator responder fingerprint context devices rows = do
  ctx ← context
  if ctx.is_member then ok tt else err (forbidden not_chat_member)
  raw ← decoded_fingerprint fingerprint
  if is_some (lookup responder devices) then ok tt else err (not_found not_found_code)
  ok (create_session id chat initiator responder raw rows)
