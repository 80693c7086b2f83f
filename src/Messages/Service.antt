-- ===== src/Messages/Service.antt =====
-- backend/internal/messaging/service.go: what the service checks before it calls the repository. The
-- outcome of `ChatContextFor` is worked out from the rows that it joins; the answers of the rate
-- limiter, of the spam guard, of `resolveTopic` and of the check of the typed payload are arguments.
-- Times are seconds.
use sobhemessenger.Common.{
  ℕ, ◌-◌, Bool, true, false, not, ◌&&◌, ◌||◌, Option, none, some, Uuid, List, [], ◌∷◌, ◌==◌,
  if◌then◌else◌, ltb, length, any, on_option,
}
use sobhemessenger.Common.Text.{Runes, trim_space, is_empty}
use sobhemessenger.Httpx.{
  Fault, Result, ok, err, ◌>>=◌, ◌>>◌, map_err, on_row, validation, forbidden, not_found, internal,
  rate_limited, chat_not_found, not_chat_member, permission_denied, forbidden_code,
  message_not_found, message_too_old, slow_mode_active,
}
use sobhemessenger.Messaging.Permissions.{
  Role, member, Permission, send_messages, send_media, send_files, send_polls, send_stickers,
  delete_messages, is_secret, ChatType, private, secret,
}
use sobhemessenger.Messaging.Context.{Row, ChatContext, context_of}
use sobhemessenger.Messages.Message.{
  Json, MessageType, text, image, video, audio, voice, file, sticker, gif, poll, system, other_type,
  Message, SendParams, is_deleted, is_from,
}
use sobhemessenger.Messages.Store.{Store, RepoError, message_by_id}
use sobhemessenger.Messages.Store as Rows
use sobhemessenger.Messages.Statements.{SendResult}
use sobhemessenger.Messages.Statements as Repo

abbrev pub max_content_runes : ℕ
max_content_runes = 8000

abbrev pub max_caption_runes : ℕ
max_caption_runes = 2000

abbrev pub max_attachments : ℕ
max_attachments = 10

abbrev pub max_mentions : ℕ
max_mentions = 50

-- 48 hours
abbrev pub edit_window : ℕ
edit_window = 172800

-- The rows beside the store that `ChatContextFor` joins, and the slow mode of the chat.
abbrev pub context_for : Row → Store → Result RepoError ChatContext
context_for row store =
    if store.is_deleted
    then err Rows.not_found
    else ok
        (context_of (record row { chat_type = store.chat_type; member_count = store.member_count }))

abbrev pub when_chat_error : RepoError → Fault
when_chat_error Rows.not_found = not_found chat_not_found
when_chat_error Rows.not_member = internal

-- Where the caller makes no difference between the failures.
abbrev pub always_internal : RepoError → Fault
always_internal _ = internal

abbrev pub require_member : ChatContext → Result Fault (Unit {0})
require_member ctx = if ctx.is_member then ok tt else err (forbidden not_chat_member)

-- `ValidMessageTypes`
abbrev pub is_valid_type : MessageType → Bool
is_valid_type (other_type _) = false
is_valid_type _ = true

abbrev pub is_system : MessageType → Bool
is_system system = true
is_system _ = false

abbrev pub is_text : MessageType → Bool
is_text text = true
is_text _ = false

-- `payload` is what the check of the typed payload answers. The client message id 0 is uuid.Nil.
unfoldable pub validate_send : SendParams → Result Fault (Option Json) → Result Fault SendParams
unfolding trim_space
validate_send p payload =
    let content = trim_space p.content in
    if not (is_valid_type p.type)
    then err validation
    else if is_system p.type
    then err (forbidden forbidden_code)
    else if p.client_message_id == 0
    then err validation
    else if ltb max_content_runes (length content)
    then err validation
    else if ltb max_attachments (length p.attachments)
    then err validation
    else if ltb max_mentions (length p.mention_user_ids)
    then err validation
    else if any (λ a. ltb max_caption_runes (length a.caption)) p.attachments
    then err validation
    else if is_text p.type && is_empty content && length p.attachments == 0
    then err validation
    else (payload >>= λ checked. ok (record p { content = content; payload = checked }))

-- The permission that the type asks for beside `send_messages`.
abbrev pub type_permission : MessageType → Option Permission
type_permission image = some send_media
type_permission video = some send_media
type_permission audio = some send_media
type_permission voice = some send_media
type_permission file = some send_files
type_permission poll = some send_polls
type_permission sticker = some send_stickers
type_permission gif = some send_stickers
type_permission _ = none

unfoldable pub check_send_permission : ChatContext → MessageType → Result Fault (Unit {0})
check_send_permission ctx type =
    if is_secret ctx.chat_type
    then err validation
    else if not (ctx.permissions send_messages)
    then err (forbidden permission_denied)
    else on_option (type_permission type) (ok tt)
        λ needed. if ctx.permissions needed then ok tt else err (forbidden permission_denied)

abbrev pub is_personal : ChatType → Bool
is_personal private = true
is_personal secret = true
is_personal _ = false

-- Whether the guard holds the account back, and whether the peer has it among the contacts.
unfoldable pub check_not_restricted : ChatContext → Bool → Bool → Result Fault (Unit {0})
check_not_restricted ctx restricted known =
    if is_personal ctx.chat_type && restricted && not known
    then err (forbidden forbidden_code)
    else ok tt

-- `LastSendAt`
unfoldable pub last_send_at : Uuid → List Message → Option ℕ
last_send_at u [] = none
last_send_at u (m ∷ ms) =
    let rest = last_send_at u ms in if is_from u m.sender_id then some m.created_at else rest

abbrev pub is_plain_member : Role → Bool
is_plain_member member = true
is_plain_member _ = false

unfoldable pub check_slow_mode : ℕ → ℕ → ChatContext → Uuid → Store → Result Fault (Unit {0})
unfolding last_send_at
check_slow_mode now slow_mode ctx u store =
    if ltb 0 slow_mode && is_plain_member ctx.role
    then on_option (last_send_at u store.messages) (ok tt)
        (λ last. if ltb (now - last) slow_mode then err (forbidden slow_mode_active) else ok tt)
    else ok tt

-- What other services answer to one send.
pub record Answers : Type 0 where
  pub payload : Result Fault (Option Json)
  pub slow_mode : ℕ
  pub rate_allowed : Bool
  pub restricted : Bool
  pub peer_knows : Bool
  pub topic : Result Fault (Unit {0})

unfoldable pub send :
    ℕ → Uuid → SendParams → Bool → Row → Answers → Store → Result Fault (Message × Store)
unfolding validate_send check_send_permission check_not_restricted check_slow_mode Repo.send
send now id input early row answers store = do
  p ← validate_send (record input { as_chat = false }) answers.payload
  ctx ← map_err when_chat_error (context_for row store)
  require_member ctx
  check_send_permission ctx p.type
  if answers.rate_allowed then ok tt else err rate_limited
  check_not_restricted ctx answers.restricted answers.peer_knows
  check_slow_mode now answers.slow_mode ctx p.sender_id store
  answers.topic
  (result, after) ← map_err when_chat_error (Repo.send now id p early store)
  ok (result.message, after)

abbrev pub when_message_error : RepoError → Fault
when_message_error Rows.not_found = not_found message_not_found
when_message_error Rows.not_member = internal

-- `MessageByID`
abbrev pub find : Uuid → Store → Result Fault Message
find id store = on_row (message_by_id id store.messages) (not_found message_not_found) ok

unfoldable pub edit :
    ℕ → Uuid → Uuid → Runes → Option Json → Row → Store → Result Fault (Message × Store)
unfolding Repo.edit trim_space
edit now id editor input entities row store = do
  let content = trim_space input
  if is_empty content then err validation else ok tt
  if ltb max_content_runes (length content) then err validation else ok tt
  old ← find id store
  if is_deleted old then err (not_found message_not_found) else ok tt
  if is_from editor old.sender_id then ok tt else err (forbidden forbidden_code)
  if ltb edit_window (now - old.created_at) then err (forbidden message_too_old) else ok tt
  _ ← map_err always_internal (context_for row store)
  map_err when_message_error (Repo.edit now id editor content entities store)

abbrev pub may_delete : Uuid → Message → ChatContext → Result Fault (Unit {0})
may_delete actor old ctx =
    if is_from actor old.sender_id || ctx.permissions delete_messages
    then ok tt
    else err (forbidden forbidden_code)

-- A message that is deleted between the read and the statement is a success too.
abbrev pub deletion_of : Store → Result RepoError (ℕ × Store) → Result Fault Store
deletion_of store (ok (seq, after)) = ok after
deletion_of store (err Rows.not_found) = ok store
deletion_of store (err Rows.not_member) = err internal

-- The outcome is the rows; deleting twice changes none.
unfoldable pub delete : ℕ → Uuid → Uuid → Row → Store → Result Fault Store
unfolding Repo.delete
delete now id actor row store = find id store >>= λ old.
    if is_deleted old
    then ok store
    else (map_err always_internal (context_for row store) >>= λ ctx.
        require_member ctx
        >> (may_delete actor old ctx >> deletion_of store (Repo.delete now id actor store)))
