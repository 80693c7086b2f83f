-- ===== src/Messages/Histories.antt =====
-- The rows of a chat over histories of the methods.
use sobhemessenger.Common.{
  ltb, option_intro, ℕ, ◌+◌, ◌≤◌, ◌≡◌, refl, Bool, true, false, not, ◌&&◌, Option, none, Uuid, List,
  [], ◌∷◌, ◌==◌, if◌then◌else◌, arith, Bool-cases, inl, inr, if_intro, leb,
}
use sobhemessenger.Common.Text.{Runes}
use sobhemessenger.Httpx.{Result, ok, err, on_row_intro}
use sobhemessenger.Messaging.Permissions.{is_secret}
use sobhemessenger.Messages.Message.{Json, Message, SendParams, returned}
use sobhemessenger.Messages.Store.{
  Member, message_new, message_edited, message_deleted, history_cleared, Store, RepoError,
  map_members, map_message, not_found, not_member, is_active,
}
use sobhemessenger.Messages.Statements.{
  send, commit, post, insert_message, fan_out, edit, delete, existing, bump_unread, live_message,
  edited, tombstone, fanout_threshold, new_message,
}
use sobhemessenger.Messages.Reading.{
  clear_history, clear_for_everyone, clear_for_one, clear_all, clear_own, wiped, mark_read,
  read_own, record_reads, react, toggled, set_pinned, set_draft, drafted, active_member,
}
use sobhemessenger.Messages.Operations.{
  Op, sending, editing, deleting, clearing, marking, recording, reacting, pinning, drafting,
  publishing, run, run_all, after, after_read, after_only,
}
use sobhemessenger.Messages.Sequence.{Keeps, if-Keeps, same-Keeps}
use sobhemessenger.Messages.Numbered.{
  Inv, IsCleared-map, quiet-Inv, members-Inv, append-Inv, publish-Inv, insert-Inv,
}

post-Inv :
    (now : ℕ) (id : Uuid) (p : SendParams) (s : Store)
    → Inv s
    → existing p s ≡ none
    → Inv (post now id p s).1
unfolding post fan_out
post-Inv now id p s i new =
    let stored : Inv (insert_message now id p s) = insert-Inv s i now id p new in
    elim (Bool-cases (ltb fanout_threshold s.member_count)) [
      | inl large ↦ rw large stored
      | inr small ↦ rw small (
          append-Inv _
            (members-Inv _ stored (bump_unread p) (λ u m h.
              if_intro (λ (a : Member). a.history_cleared_seq ≤ s.last_seq + 1) _ _ _ (λ _. h)
                (λ _. h)))
            (message_new (new_message now id p (s.last_seq + 1))))
    ]

module _ (s : Store) (i : Inv s) where
  abbrev Keeping : {A : Type 0} → Result RepoError (A × Store) → Type 0
  Keeping r = Inv (after r s)

  commit-Inv : (now : ℕ) (id : Uuid) (p : SendParams) → Keeping (commit now id p s)
  unfolding commit
  commit-Inv now id p =
      if_intro Keeping s.is_deleted _ _ (λ _. i)
        λ _. option_intro Keeping (existing p s) _ _ (post-Inv now id p s i) (λ _ _. i)

  send-Inv : (now : ℕ) (id : Uuid) (p : SendParams) (early : Bool) → Keeping (send now id p early s)
  unfolding send
  send-Inv now id p early =
      option_intro Keeping (if early then none else existing p s) _ _ (λ _. commit-Inv now id p)
        (λ _ _. i)

  -- A change of one message.
  message-Inv :
      (id : Uuid) (f : Message → Message)
      → Keeps f
      → Inv (record s { messages = map_message id f s.messages })
  message-Inv id f k =
      quiet-Inv s i (λ m. if m.id == id then f m else m) s.members
        (if-Keeps (λ m. m.id == id) f (λ m. m) k same-Keeps) i.cleared

  edit-Inv :
      (now : ℕ) (id editor : Uuid) (content : Runes) (entities : Option Json)
      → Keeping (edit now id editor content entities s)
  unfolding edit
  edit-Inv now id editor content entities =
      on_row_intro Keeping (live_message id s) not_found _ i λ m _.
        append-Inv _
          (message-Inv id (edited now editor content entities) (λ m. (refl, refl, refl, refl)))
          (message_edited (returned (edited now editor content entities m)))

  delete-Inv : (now : ℕ) (id actor : Uuid) → Keeping (delete now id actor s)
  unfolding delete
  delete-Inv now id actor = on_row_intro Keeping (live_message id s) not_found _ i λ m _.
      append-Inv _ (message-Inv id (tombstone now actor) (λ m. (refl, refl, refl, refl)))
        (message_deleted id m.seq)

  clear_own_bound :
      (actor u : Uuid) (m : Member)
      → m.history_cleared_seq ≤ s.last_seq
      → (clear_own actor s.last_seq u m).history_cleared_seq ≤ s.last_seq
  clear_own_bound actor u m h = ground arith

  clear_all_bound :
      (u : Uuid) (m : Member)
      → m.history_cleared_seq ≤ s.last_seq
      → (clear_all s.last_seq u m).history_cleared_seq ≤ s.last_seq
  clear_all_bound u m h = ground arith

  wiped-Keeps : (now : ℕ) (actor : Uuid) → Keeps (wiped now actor s.last_seq)
  wiped-Keeps now actor m = ground arith

  clear_history-Inv :
      (now : ℕ) (actor : Uuid) (for_everyone : Bool)
      → Keeping (clear_history now actor for_everyone s)
  unfolding clear_history clear_for_everyone clear_for_one
  clear_history-Inv now actor for_everyone =
      if_intro Keeping s.is_deleted _ _ (λ _. i)
        λ _.
          if_intro Keeping (is_active s.members actor) _ _
            (λ _.
              if_intro Inv for_everyone _ _
                (λ _.
                  append-Inv _
                    (quiet-Inv s i (wiped now actor s.last_seq) _ (wiped-Keeps now actor) (
                      IsCleared-map s.last_seq s.last_seq (clear_own actor s.last_seq) _
                        (clear_own_bound actor)
                        (IsCleared-map s.last_seq s.last_seq (clear_all s.last_seq) s.members
                          clear_all_bound i.cleared)))
                    (history_cleared s.last_seq true))
                (λ _.
                  publish-Inv _
                    (members-Inv s i (clear_own actor s.last_seq) (clear_own_bound actor)) actor
                    (history_cleared s.last_seq false)))
            (λ _. i)

  set_draft-Inv : (u : Uuid) (draft : Runes) → Inv (after_only (set_draft u draft s) s)
  unfolding set_draft
  set_draft-Inv u draft =
      if_intro (λ r. Inv (after_only r s)) (is_active s.members u && not (is_secret s.chat_type))
        (ok (record s { members = map_members (drafted u draft) s.members })) (err not_member)
        (λ _. members-Inv s i (drafted u draft) λ v m h. ground arith) (λ _. i)

  pub run-Inv : (op : Op) → Inv (run op s)
  unfolding run mark_read record_reads react set_pinned
  run-Inv (sending now id p early) = send-Inv now id p early
  run-Inv (editing now id editor content entities) = edit-Inv now id editor content entities
  run-Inv (deleting now id actor) = delete-Inv now id actor
  run-Inv (clearing now actor for_everyone) = clear_history-Inv now actor for_everyone
  run-Inv (marking reader upto) =
      on_row_intro (λ r. Inv (after_read r s)) (active_member reader s) not_member _ i
        λ _ _. members-Inv s i (read_own s.messages reader upto) λ u m h.
          if_intro (λ (a : Member). a.history_cleared_seq ≤ s.last_seq) _ _ _ (λ _. h) (λ _. h)
  run-Inv (recording reader from to limit) =
      if_intro Inv (leb to from) _ _ (λ _. i)
        λ _.
          quiet-Inv s i _ s.members
            (if-Keeps _ _ (λ m. m) (λ m. (refl, refl, refl, refl)) same-Keeps) i.cleared
  run-Inv (reacting id u emoji) = on_row_intro Keeping (live_message id s) not_found _ i λ m _.
      message-Inv id (toggled u emoji)
        (if-Keeps _ _ _ (λ m. (refl, refl, refl, refl)) (λ m. (refl, refl, refl, refl)))
  run-Inv (pinning id pinned) =
      on_row_intro (λ r. Inv (after_only r s)) (live_message id s) not_found _ i
        λ _ _. message-Inv id (λ m. record m { is_pinned = pinned }) (λ m. (refl, refl, refl, refl))
  run-Inv (drafting u draft) = set_draft-Inv u draft
  run-Inv (publishing u body) = publish-Inv s i u body

-- A chat whose messages are numbered 1, 2, ... without a gap, where no sender has one client message id
-- twice, where no member has cleared beyond the last message and where the log of each user is
-- numbered 1, 2, ... up to the user's counter, still is such a chat after every sequence of the
-- repository's methods: sends, retried or raced ones too, edits, deletions, clears, reads, reactions,
-- pins, drafts and events of other parts.
pub run_all-Inv : (ops : List Op) (s : Store) → Inv s → Inv (run_all ops s)
unfolding run_all
run_all-Inv [] s i = i
run_all-Inv (op ∷ ops) s i = run_all-Inv ops (run op s) (run-Inv s i op)
