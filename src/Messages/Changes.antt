-- ===== src/Messages/Changes.antt =====
-- How the methods change the rows of `messages`: a change of rows that keeps their keys, or one more row.
use sobhemessenger.Common.{
  ltb, ◌+◌, ℕ, ◌≡◌, refl, Bool, none, Uuid, List, ◌∷◌, map, ◌==◌, if◌then◌else◌, if_intro,
  option_intro, arith, leb, not, ◌&&◌,
}
use sobhemessenger.Common.Text.{Runes}
use sobhemessenger.Httpx.{Result, ok, err, on_row_intro}
use sobhemessenger.Messaging.Permissions.{is_secret}
use sobhemessenger.Messages.Message.{Message, SendParams}
use sobhemessenger.Messages.Store.{
  Store, RepoError, not_found, not_member, is_active, map_message, map_members, append_user_events,
}
use sobhemessenger.Messages.Statements.{
  send, commit, post, insert_message, fan_out, edit, delete, existing, live_message, edited,
  tombstone, fanout_threshold, new_message, SendResult,
}
use sobhemessenger.Messages.Reading.{
  clear_history, clear_for_everyone, clear_for_one, wiped, mark_read, record_reads, react, toggled,
  set_pinned, set_draft, drafted, publish_user_event, active_member,
}
use sobhemessenger.Messages.Operations.{
  Op, sending, editing, deleting, clearing, marking, recording, reacting, pinning, drafting,
  publishing, run, after, after_read, after_only,
}
use sobhemessenger.Messages.Sequence.{Keeps, if-Keeps, same-Keeps}

-- A property of the rows that a change of a message keeps and a new row keeps.
module _ (Q : List Message → Type 0)
    (change : (f : Message → Message) (ms : List Message) → Keeps f → Q ms → Q (map f ms))
    (s : Store)
    (grow : (now : ℕ) (id : Uuid) (p : SendParams)
      → existing p s ≡ none
      → Q s.messages
      → Q (new_message now id p (s.last_seq + 1) ∷ s.messages))
    (q : Q s.messages) where
  abbrev Left : {A : Type 0} → Result RepoError (A × Store) → Type 0
  Left r = Q (after r s).messages

  change_one : (id : Uuid) (f : Message → Message) → Keeps f → Q (map_message id f s.messages)
  change_one id f k =
      change (λ m. if m.id == id then f m else m) s.messages
        (if-Keeps (λ m. m.id == id) f (λ m. m) k same-Keeps) q

  send-Left : (now : ℕ) (id : Uuid) (p : SendParams) (early : Bool) → Left (send now id p early s)
  unfolding send commit post insert_message fan_out append_user_events
  send-Left now id p early =
      option_intro Left (if early then none else existing p s) _ _
        (λ _.
          if_intro Left s.is_deleted _ _ (λ _. q)
            λ _.
              option_intro Left (existing p s) _ _
                (λ new.
                  if_intro (λ (r : SendResult × Store). Q r.1.messages)
                    (ltb fanout_threshold s.member_count) _ _ (λ _. grow now id p new q)
                    (λ _. grow now id p new q))
                (λ _ _. q))
        (λ _ _. q)

  clear-Left :
      (now : ℕ) (actor : Uuid) (for_everyone : Bool) → Left (clear_history now actor for_everyone s)
  unfolding clear_history clear_for_everyone clear_for_one append_user_events publish_user_event
  clear-Left now actor for_everyone =
      if_intro Left s.is_deleted _ _ (λ _. q)
        λ _.
          if_intro Left (is_active s.members actor) _ _
            (λ _.
              if_intro (λ (t : Store). Q t.messages) for_everyone _ _
                (λ _. change (wiped now actor s.last_seq) s.messages (λ m. ground arith) q)
                (λ _. q))
            (λ _. q)

  draft-Left : (u : Uuid) (draft : Runes) → Q (after_only (set_draft u draft s) s).messages
  unfolding set_draft
  draft-Left u draft =
      if_intro (λ r. Q (after_only r s).messages)
        (is_active s.members u && not (is_secret s.chat_type))
        (ok (record s { members = map_members (drafted u draft) s.members })) (err not_member)
        (λ _. q) (λ _. q)

  pub run-rows : (op : Op) → Q (run op s).messages
  unfolding run edit delete mark_read record_reads react set_pinned append_user_events
      publish_user_event
  run-rows (sending now id p early) = send-Left now id p early
  run-rows (editing now id editor content entities) =
      on_row_intro Left (live_message id s) not_found _ q
        λ m _. change_one id (edited now editor content entities) (λ m. (refl, refl, refl, refl))
  run-rows (deleting now id actor) =
      on_row_intro Left (live_message id s) not_found _ q
        λ m _. change_one id (tombstone now actor) (λ m. (refl, refl, refl, refl))
  run-rows (clearing now actor for_everyone) = clear-Left now actor for_everyone
  run-rows (marking reader upto) =
      on_row_intro (λ r. Q (after_read r s).messages) (active_member reader s) not_member _ q
        (λ _ _. q)
  run-rows (recording reader from to limit) =
      if_intro (λ (t : Store). Q t.messages) (leb to from) _ _ (λ _. q)
        λ _.
          change _ s.messages (if-Keeps _ _ (λ m. m) (λ m. (refl, refl, refl, refl)) same-Keeps) q
  run-rows (reacting id u emoji) = on_row_intro Left (live_message id s) not_found _ q λ m _.
      change_one id (toggled u emoji)
        (if-Keeps _ _ _ (λ m. (refl, refl, refl, refl)) (λ m. (refl, refl, refl, refl)))
  run-rows (pinning id pinned) =
      on_row_intro (λ r. Q (after_only r s).messages) (live_message id s) not_found _ q
        λ _ _. change_one id (λ m. record m { is_pinned = pinned }) (λ m. (refl, refl, refl, refl))
  run-rows (drafting u draft) = draft-Left u draft
  run-rows (publishing u body) = q
