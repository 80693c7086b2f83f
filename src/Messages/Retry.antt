-- ===== src/Messages/Retry.antt =====
-- A send that a client repeats.
use sobhemessenger.Common.{
  ℕ, ◌+◌, ◌≡◌, refl, ap, ◌∙◌, Bool, true, false, none, some, Uuid, List, [], ◌∷◌, map,
  if◌then◌else◌, if_intro, option_intro, arith, ltb, eq_of_beq,
}
use sobhemessenger.Httpx.{ok, err, Holds, if-Holds, Holds-ok}
use sobhemessenger.Messages.Message.{Message, SendParams, returned}
use sobhemessenger.Messages.Store.{Store, row_by_client_id, not_found, append_user_events}
use sobhemessenger.Messages.Statements.{
  send, commit, post, insert_message, fan_out, existing, fanout_threshold, new_message, SendResult,
  duplicate_of,
}
use sobhemessenger.Messages.Operations.{Op, run, run_all}
use sobhemessenger.Messages.Sequence.{Keeps, row_by_client_id-map, changed, found_row}
use sobhemessenger.Messages.Changes.{run-rows}

-- The row under a sender's client message id.
abbrev pub IsStored : Uuid → Uuid → Uuid → ℕ → List Message → Type 0
IsStored sender client id seq ms =
    (m : Message) × (row_by_client_id sender client ms ≡ some m) × (m.id ≡ id) × (m.seq ≡ seq)

module _ (sender client id : Uuid) (seq : ℕ) where
  IsStored-change :
      (f : Message → Message) (ms : List Message)
      → Keeps f
      → IsStored sender client id seq ms
      → IsStored sender client id seq (map f ms)
  IsStored-change f ms k (m, found, same_id, same_seq) = (
    f m,
    row_by_client_id-map f k sender client ms ∙ ap (changed f) found,
    (k m).0 ∙ same_id,
    (k m).1 ∙ same_seq,
  )

  IsStored-grow :
      (s : Store) (now : ℕ) (new : Uuid) (p : SendParams) (at : ℕ)
      → existing p s ≡ none
      → IsStored sender client id seq s.messages
      → IsStored sender client id seq (new_message now new p at ∷ s.messages)
  unfolding new_message row_by_client_id
  IsStored-grow s now new p at fresh (m, found, same_id, same_seq) = (
    m,
    ground
        (arith, fresh, found, eq_of_beq p.sender_id sender, eq_of_beq p.client_message_id client),
    same_id,
    same_seq,
  )

  pub IsStored-run :
      (ops : List Op) (s : Store)
      → IsStored sender client id seq s.messages
      → IsStored sender client id seq (run_all ops s).messages
  unfolding run_all
  IsStored-run [] s h = h
  IsStored-run (op ∷ ops) s h = IsStored-run ops (run op s) (
      run-rows (IsStored sender client id seq) IsStored-change s
        (λ now new p. IsStored-grow s now new p (s.last_seq + 1)) h op)

-- What a send that succeeds leaves.
abbrev Leaves : SendParams → SendResult × Store → Type 0
Leaves p r = IsStored p.sender_id p.client_message_id r.0.message.id r.0.message.seq r.1.messages

module _ (now : ℕ) (id : Uuid) (p : SendParams) (person : p.as_chat ≡ false) (s : Store) where
  old-Leaves : (m : Message) → existing p s ≡ some m → Leaves p (duplicate_of m, s)
  old-Leaves m found =
      let (row, at, same) =
        found_row p.sender_id p.client_message_id s.messages m (rw person at found) in
      (row, at, ap (λ r. r.id) same, ap (λ r. r.seq) same)

  post-Leaves : Leaves p (post now id p s)
  unfolding post insert_message fan_out append_user_events new_message row_by_client_id
  post-Leaves =
      if_intro (Leaves p) (ltb fanout_threshold s.member_count) _ _ (λ _. here) (λ _. here)
    where
      here :
          IsStored p.sender_id p.client_message_id id
            (s.last_seq + 1)
            (new_message now id p (s.last_seq + 1) ∷ s.messages)
      here = (new_message now id p (s.last_seq + 1), ground (arith, person), refl, refl)

  send-Leaves : (early : Bool) → Holds (Leaves p) (send now id p early s)
  unfolding send commit
  send-Leaves early =
      option_intro (Holds (Leaves p)) (if early then none else existing p s) _ _
        (λ _.
          if-Holds (Leaves p) s.is_deleted (err not_found) _ (λ _. tt)
            λ _. option_intro (Holds (Leaves p)) (existing p s) _ _ (λ _. post-Leaves) old-Leaves)
        (λ m found. old-Leaves m (ground (arith, found)))

-- With the row there, a send of its key writes nothing.
send-again :
    (now : ℕ) (id : Uuid) (p : SendParams) (early : Bool) (s : Store) (m : Message)
    → p.as_chat ≡ false
    → row_by_client_id p.sender_id p.client_message_id s.messages ≡ some m
    → s.is_deleted ≡ false
    → send now id p early s ≡ ok (duplicate_of (returned m), s)
unfolding send commit
send-again now id p true s m person found there = simp (person, found, there)
send-again now id p false s m person found there = simp (person, found, there)

-- After a send by a person succeeded, and whatever methods ran since, a send of the same sender with the
-- same client message id, its content changed or not, its fast path early or not, writes nothing, if
-- the chat is not deleted: there is a row under that key, with the id and the sequence number of the
-- first answer, and the new answer is marked as a duplicate, has no events and holds that row as it
-- stands now, without its keyboard, attachments, mentions and reactions.
pub send_retried :
    (now : ℕ) (id : Uuid) (p : SendParams) (early : Bool) (s t : Store) (r : SendResult)
    → p.as_chat ≡ false
    → send now id p early s ≡ ok (r, t)
    → (ops : List Op) (now' : ℕ) (id' : Uuid) (again : SendParams) (early' : Bool)
    → again.as_chat ≡ false
    → again.sender_id ≡ p.sender_id
    → again.client_message_id ≡ p.client_message_id
    → (run_all ops t).is_deleted ≡ false
    → (m : Message) × (row_by_client_id p.sender_id p.client_message_id (run_all ops t).messages
        ≡ some m)
      × (m.id ≡ r.message.id)
      × (m.seq ≡ r.message.seq)
      × (send now' id' again early' (run_all ops t)
          ≡ ok (
            record {
              message = record m {
                reply_markup = none;
                deleted_by = none;
                attachments = [];
                mentions = [];
                reactions = [];
                edits = [];
                reads = [];
              };
              event_seqs = [];
              duplicate = true;
              fanned_out = false;
            },
            run_all ops t,
          ))
send_retried now id p early s t r person sent ops now' id' again early' person' sender client
      there =
    let (m, found, same_id, same_seq) =
      IsStored-run p.sender_id p.client_message_id r.message.id r.message.seq ops t (
        Holds-ok (Leaves p) (send now id p early s) (r, t) (send-Leaves now id p person s early)
          sent) in
    (
      m,
      found,
      same_id,
      same_seq,
      send-again now' id' again early' (run_all ops t) m person' (rw (sender, client) found) there,
    )
