-- ===== src/Messages/Operations.antt =====
-- The methods of the repository on a chat's messages as one type, with its interpreter.
use sobhemessenger.Common.{ℕ, Bool, Option, Uuid, List, [], ◌∷◌}
use sobhemessenger.Common.Text.{Runes}
use sobhemessenger.Httpx.{Result, ok, err}
use sobhemessenger.Messages.Message.{Json, SendParams}
use sobhemessenger.Messages.Store.{Store, Body, RepoError}
use sobhemessenger.Messages.Statements.{send, edit, delete}
use sobhemessenger.Messages.Reading.{
  clear_history, mark_read, record_reads, react, set_pinned, set_draft, publish_user_event,
}

pub data Op : Type 0 where
  sending : ℕ → Uuid → SendParams → Bool → Op
  editing : ℕ → Uuid → Uuid → Runes → Option Json → Op
  deleting : ℕ → Uuid → Uuid → Op
  clearing : ℕ → Uuid → Bool → Op
  marking : Uuid → ℕ → Op
  recording : Uuid → ℕ → ℕ → ℕ → Op
  reacting : Uuid → Uuid → Runes → Op
  pinning : Uuid → Bool → Op
  drafting : Uuid → Runes → Op
  publishing : Uuid → Body → Op

-- The rows that a statement leaves; a refused one changes none.
abbrev pub after {ℓ} : {A : Type ℓ} → Result RepoError (A × Store) → Store → Store
after (ok (_, store)) before = store
after (err e) before = before

abbrev pub after_read : Result RepoError (ℕ × ℕ × Store) → Store → Store
after_read (ok r) before = r.2
after_read (err e) before = before

abbrev pub after_only : Result RepoError Store → Store → Store
after_only (ok store) before = store
after_only (err e) before = before

unfoldable pub run : Op → Store → Store
unfolding send edit delete clear_history mark_read record_reads react set_pinned set_draft
    publish_user_event
run (sending now id p early) store = after (send now id p early store) store
run (editing now id editor content entities) store =
    after (edit now id editor content entities store) store
run (deleting now id actor) store = after (delete now id actor store) store
run (clearing now actor for_everyone) store =
    after (clear_history now actor for_everyone store) store
run (marking reader upto) store = after_read (mark_read reader upto store) store
run (recording reader from to limit) store = record_reads reader from to limit store
run (reacting id u emoji) store = after (react id u emoji store) store
run (pinning id pinned) store = after_only (set_pinned id pinned store) store
run (drafting u draft) store = after_only (set_draft u draft store) store
run (publishing u body) store = publish_user_event u body store

unfoldable pub run_all : List Op → Store → Store
unfolding run
run_all [] store = store
run_all (op ∷ ops) store = run_all ops (run op store)
