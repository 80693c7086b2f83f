-- ===== src/Messages/Tests.antt =====
-- A chat of two, and the theorems at it.
use sobhemessenger.Common.{◌-◌, ◌≡◌, refl, true, false, none, some, Uuid, List, [], ◌∷◌, map, arith}
use sobhemessenger.Common.Assoc.{lookup}
use sobhemessenger.Common.Lists.Rows.{numbers_after}
use sobhemessenger.Common.Text.{Runes}
use sobhemessenger.Httpx.{ok, err, Holds}
use sobhemessenger.Messaging.Permissions.{group, secret, member}
use sobhemessenger.Messaging.Context.{Row}
use sobhemessenger.Messages.Message.{text, SendParams, Message}
use sobhemessenger.Messages.Store.{Member, Store, not_member, message_by_id, row_by_client_id}
use sobhemessenger.Messages.Statements.{send, SendResult, post}
use sobhemessenger.Messages.Reading.{events_since, history, clear_history, set_draft, counter_of}
use sobhemessenger.Messages.Operations.{Op, sending, editing, deleting, clearing, marking, run_all}
use sobhemessenger.Messages.Numbered.{Inv}
use sobhemessenger.Messages.Histories.{run_all-Inv}
use sobhemessenger.Messages.Retry.{send_retried}
use sobhemessenger.Messages.Sync.{events_since_exact, event_seqs_of, smaller}
use sobhemessenger.Messages.Clearing.{clear_own_exact}
use sobhemessenger.Messages.Rights.{edit_within_rights, secret_refuses, Edited}
use sobhemessenger.Messages.Service as Service

abbrev new_member : Member
new_member = record {
  last_read_seq = 0;
  last_delivered_seq = 0;
  unread_count = 0;
  mention_count = 0;
  history_cleared_seq = 0;
  has_left = false;
  draft = [];
}

abbrev empty_chat : Store
empty_chat = record {
  chat_type = group;
  is_deleted = false;
  member_count = 2;
  last_seq = 0;
  last_message_id = none;
  last_message_at = none;
  messages = [];
  members = (7, new_member) ∷ (8, new_member) ∷ [];
  counters = (7, 0) ∷ (8, 0) ∷ [];
  events = [];
}

abbrev by : Uuid → Uuid → Runes → SendParams
by sender client content = record {
  sender_id = sender;
  client_message_id = client;
  type = text;
  content = content;
  entities = none;
  payload = none;
  reply_to_id = none;
  attachments = [];
  mention_user_ids = [];
  reply_markup = none;
  as_chat = false;
}

abbrev ops : List Op
ops =
    sending 10 100 (by 7 1 (65 ∷ [])) false
    ∷ sending 11 101 (by 8 1 (66 ∷ [])) false
    ∷ editing 12 100 7 (67 ∷ []) none
    ∷ marking 7 2
    ∷ deleting 13 101 8
    ∷ clearing 14 8 false
    ∷ []

empty-Inv : Inv empty_chat
unfolding lookup
empty-Inv = record {
  numbered = refl;
  keyed = tt;
  cleared = omega arith;
  logged = record { distinct = (refl, (refl, tt)); numbered = λ u. ground arith };
}

run_all-Inv_example : Inv (run_all ops empty_chat)
run_all-Inv_example = run_all-Inv ops empty_chat empty-Inv

run_all_numbers : (run_all ops empty_chat).last_seq ≡ 2
unfolding run_all message_by_id lookup row_by_client_id
run_all_numbers = refl

-- The chat after its first message.
abbrev first : SendParams
first = by 7 1 (65 ∷ [])

abbrev sent : SendResult × Store
sent = post 10 100 first empty_chat

send_retried_example :
    (m : Message) × (row_by_client_id 7 1 (run_all ops sent.1).messages ≡ some m)
    × (m.id ≡ sent.0.message.id)
    × (m.seq ≡ sent.0.message.seq)
    × (send 20 200 (by 7 1 []) true (run_all ops sent.1)
        ≡ ok (
          record {
            message = record m {
              reply_markup = none;
              deleted_by = none;
              attachments = [];
              mentions = [];
              reactions = [];
              edits = [];
              reads = [];
            };
            event_seqs = [];
            duplicate = true;
            fanned_out = false;
          },
          run_all ops sent.1,
        ))
unfolding run_all message_by_id lookup row_by_client_id
send_retried_example =
    send_retried 10 100 first false empty_chat sent.1 sent.0 refl refl ops 20 200 (by 7 1 []) true
      refl refl refl refl

events_since_exact_example :
    (event_seqs_of (events_since 7 1 2 (run_all ops empty_chat)).0
      ≡ numbers_after 1 (smaller 2 (counter_of (lookup 7 (run_all ops empty_chat).counters) - 1)))
    × ((events_since 7 1 2 (run_all ops empty_chat)).1
        ≡ counter_of (lookup 7 (run_all ops empty_chat).counters))
events_since_exact_example =
    events_since_exact 7 1 2 (run_all ops empty_chat) (run_all-Inv ops empty_chat empty-Inv).logged

-- The log of the first member: two messages, the edit and the deletion.
events_numbers : event_seqs_of (events_since 7 1 2 (run_all ops empty_chat)).0 ≡ 2 ∷ 3 ∷ []
unfolding run_all message_by_id lookup row_by_client_id events_since
events_numbers = refl

clear_own_exact_example :
    Holds
      (λ r.
        (history 8 none none 50 r.1 ≡ [])
        × (history 7 none none 50 r.1 ≡ history 7 none none 50 (run_all ops empty_chat))
        × (r.1.messages ≡ (run_all ops empty_chat).messages))
      (clear_history 30 8 false (run_all ops empty_chat))
clear_own_exact_example =
    clear_own_exact 8 (run_all ops empty_chat) (run_all-Inv ops empty_chat empty-Inv) 30 7 none none
      50 refl

abbrev row : Row
row = record {
  chat_type = group;
  member_count = 2;
  role = some member;
  permissions = none;
  default_permissions = none;
  is_broadcast = none;
  role_permissions = none;
}

edit_within_rights_example :
    Holds
      (λ r. Edited 40 100 7 (32 ∷ 66 ∷ []) sent.1 r.0 r.1)
      (Service.edit 40 100 7 (32 ∷ 66 ∷ []) none row sent.1)
edit_within_rights_example = edit_within_rights 40 100 7 (32 ∷ 66 ∷ []) none row sent.1

abbrev hidden_chat : Store
hidden_chat = record empty_chat { chat_type = secret }

abbrev answers : Service.Answers
answers = record {
  payload = ok none;
  slow_mode = 0;
  rate_allowed = true;
  restricted = false;
  peer_knows = true;
  topic = ok tt;
}

secret_refuses_example :
    Holds (λ _. ⊥) (Service.send 10 100 first false row answers hidden_chat)
    × (set_draft 7 (65 ∷ []) hidden_chat ≡ err not_member)
secret_refuses_example = secret_refuses 10 100 first false row answers 7 (65 ∷ []) hidden_chat refl

-- A deletion empties the text and leaves the payload and the earlier texts in the row.
abbrev deletion_leaves : Store
deletion_leaves =
    run_all
      (sending 10 100 (record (by 7 1 (65 ∷ [])) { payload = some "{position}" }) false
        ∷ deleting 13 100 7
        ∷ [])
      empty_chat

deleted_payload-is_shown :
    map (λ m. m.payload) (history 8 none none 50 deletion_leaves) ≡ "{position}" ∷ []
unfolding run_all message_by_id lookup row_by_client_id history
deleted_payload-is_shown = refl
