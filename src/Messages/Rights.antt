-- ===== src/Messages/Rights.antt =====
-- Who may change a message, and what an encrypted chat refuses.
use sobhemessenger.Common.{
  ℕ, ◌-◌, ◌≤◌, ◌≡◌, refl, Bool, true, false, Option, none, some, Uuid, ◌∷◌, arith, ltb, length,
  List, [], ◌==◌, Bool-cases, inl, inr, ap,
}
use sobhemessenger.Common.Text.{Runes, trim_space, is_empty}
use sobhemessenger.Httpx.{
  ok, err, map_err, Holds, if-Holds, bind-Holds, on_row-Holds, guard-Holds, require-Holds,
  found-Holds, after-Holds, map_err-Holds, forbidden, forbidden_code, not_found, message_not_found,
}
use sobhemessenger.Messaging.Permissions.{Role, is_secret}
use sobhemessenger.Messaging.Context.{Row, ChatContext, context_of}
use sobhemessenger.Messages.Message.{Json, Message, SendParams, is_deleted, is_from}
use sobhemessenger.Messages.Store.{
  Store, message_by_id, map_message, append_user_events, not_member,
}
use sobhemessenger.Messages.Statements.{live_message, edited}
use sobhemessenger.Messages.Statements as Repo
use sobhemessenger.Messages.Sequence.{changed}
use sobhemessenger.Messages.Reading.{set_draft}
use sobhemessenger.Messages.Service.{
  send, edit, Answers, context_for, validate_send, check_send_permission, edit_window,
  max_content_runes, always_internal, when_message_error, when_chat_error, require_member,
}

-- What an edit that succeeds found, answers and leaves in the table.
pub record Edited (now : ℕ) (id editor : Uuid) (input : Runes) (s : Store) (m : Message) (t : Store)
    : Type 0 where
  pub old : Message
  pub found : message_by_id id s.messages ≡ some old
  pub own : is_from editor old.sender_id ≡ true
  pub present : is_deleted old ≡ false
  pub in_window : now - old.created_at ≤ edit_window
  pub rewritten : m.content ≡ trim_space input
  pub not_empty : is_empty m.content ≡ false
  pub short : length m.content ≤ max_content_runes
  pub row : Message
  pub stored : message_by_id id t.messages ≡ some row
  pub row_content : row.content ≡ trim_space input
  pub row_edits :
      row.edits ≡ record { previous_content = old.content; edited_by = editor } ∷ old.edits

-- The row of an id after an UPDATE of it.
message_by_id-map :
    (id : Uuid) (f : Message → Message) (rows : List Message) (m : Message)
    → ((r : Message) → (f r).id ≡ r.id)
    → message_by_id id rows ≡ some m
    → message_by_id id (map_message id f rows) ≡ some (f m)
unfolding message_by_id
message_by_id-map id f [] m keeps found = ground (arith, found)
message_by_id-map id f (r ∷ rows) m keeps found = elim (Bool-cases (r.id == id)) [
  | inl here ↦ simp (here, keeps r) (ap (changed f) (rw here at found))
  | inr there ↦ rw (there, there) (message_by_id-map id f rows m keeps (rw there at found))
]

-- Whenever `Edit` succeeds, the message was sent by the editor, is not deleted and is not older than the
-- edit window; the answer holds the trimmed text, which is neither empty nor too long; and the row of
-- the message in the table afterwards holds that text, and as the newest of its earlier texts the one
-- that it had before, under the editor's name.
pub edit_within_rights :
    (now : ℕ) (id editor : Uuid) (input : Runes) (entities : Option Json) (row : Row) (s : Store)
    → Holds (λ r. Edited now id editor input s r.0 r.1) (edit now id editor input entities row s)
unfolding edit Repo.edit append_user_events
edit_within_rights now id editor input entities row s =
    let P : Message × Store → Type 0 = λ r. Edited now id editor input s r.0 r.1 in
    guard-Holds P (is_empty (trim_space input)) _ _ λ filled.
      guard-Holds P (ltb max_content_runes (length (trim_space input))) _ _ λ short.
        found-Holds P (message_by_id id s.messages) (not_found message_not_found) _ λ old found.
          guard-Holds P (is_deleted old) _ _ λ present.
            require-Holds P (is_from editor old.sender_id) (forbidden forbidden_code) _ λ own.
              guard-Holds P (ltb edit_window (now - old.created_at)) _ _ λ young.
                bind-Holds P (map_err always_internal (context_for row s)) _ λ _.
                  map_err-Holds P when_message_error
                    (Repo.edit now id editor (trim_space input) entities s)
                    (on_row-Holds P (live_message id s) _ _ λ m live. record {
                      old = old;
                      found = found;
                      own = own;
                      present = present;
                      in_window = ground (arith, young);
                      rewritten = refl;
                      not_empty = filled;
                      short = ground (arith, short);
                      row = edited now editor (trim_space input) entities old;
                      stored =
                          message_by_id-map id (edited now editor (trim_space input) entities)
                            s.messages old (λ _. refl) found;
                      row_content = refl;
                      row_edits = refl;
                    })

context_of-type : (row : Row) → (context_of row).chat_type ≡ row.chat_type
unfolding context_of
context_of-type row = by_role row.role
  where
    by_role : (r : Option Role) → (context_of (record row { role = r })).chat_type ≡ row.chat_type
    by_role none = refl
    by_role (some role) = refl

-- In an encrypted chat `Send` never succeeds, whoever sends what and whatever the row of the sender
-- grants, and no draft is stored: no text gets to the server in clear by either.
pub secret_refuses :
    (now : ℕ) (id : Uuid) (input : SendParams) (early : Bool) (row : Row) (answers : Answers)
    (u : Uuid) (draft : Runes) (s : Store)
    → is_secret s.chat_type ≡ true
    → Holds (λ _. ⊥) (send now id input early row answers s)
      × (set_draft u draft s ≡ err not_member)
unfolding send check_send_permission set_draft
secret_refuses now id input early row answers u draft s hidden = (
  bind-Holds (λ _. ⊥) (validate_send (record input { as_chat = false }) answers.payload) _
      λ p.
        after-Holds (λ _. ⊥) when_chat_error (context_for row s) _
          (if-Holds _ s.is_deleted (err _) (ok _) (λ _. tt)
            λ _.
              bind-Holds (λ _. ⊥) (require_member (ctx row)) _
                λ _. rw (context_of-type (row_in row), hidden) tt),
  ground (arith, hidden),
)
  where
    row_in : Row → Row
    row_in row = record row { chat_type = s.chat_type; member_count = s.member_count }

    ctx : Row → ChatContext
    ctx row = context_of (row_in row)
