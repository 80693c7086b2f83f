-- ===== src/Messages/Numbered.antt =====
-- What holds of the rows of a chat between two methods.
use sobhemessenger.Common.{ℕ, suc, ◌+◌, ◌≤◌, ◌≡◌, ap, ◌∙◌, none, Uuid, [], ◌∷◌, map, arith}
use native.Mathlib.Numerals.{add-one}
use sobhemessenger.Common.Assoc.{Assoc}
use sobhemessenger.Common.Lists.Rows.{countdown}
use sobhemessenger.Messages.Message.{Message, SendParams}
use sobhemessenger.Messages.Store.{Member, Body, Store, map_members, append_user_events}
use sobhemessenger.Messages.Statements.{insert_message, existing, sender_cursor}
use sobhemessenger.Messages.Reading.{publish_user_event}
use sobhemessenger.Messages.Log.{IsLogged, append-IsLogged, publish-IsLogged}
use sobhemessenger.Messages.Sequence.{Keeps, seqs, IsKeyed, seqs-map, IsKeyed-map, IsKeyed-new}

-- Nothing beyond the last message is cleared.
abbrev pub IsCleared : ℕ → Assoc Member → Type 0
IsCleared n [] = Unit
IsCleared n ((u, m) ∷ rest) = (m.history_cleared_seq ≤ n) × IsCleared n rest

pub record Inv (s : Store) : Type 0 where
  pub numbered : seqs s.messages ≡ countdown s.last_seq
  pub keyed : IsKeyed s.messages
  pub cleared : IsCleared s.last_seq s.members
  pub logged : IsLogged s.counters s.events

pub IsCleared-map :
    (n k : ℕ) (f : Uuid → Member → Member) (members : Assoc Member)
    → ((u : Uuid) (m : Member) → m.history_cleared_seq ≤ n → (f u m).history_cleared_seq ≤ k)
    → IsCleared n members
    → IsCleared k (map_members f members)
unfolding map_members
IsCleared-map n k f [] h c = tt
IsCleared-map n k f ((u, m) ∷ rest) h c = (h u m c.0, IsCleared-map n k f rest h c.1)

module _ (s : Store) (i : Inv s) where
  pub quiet-Inv :
      (f : Message → Message) (members : Assoc Member)
      → Keeps f
      → IsCleared s.last_seq members
      → Inv (record s { messages = map f s.messages; members = members })
  quiet-Inv f members k c = record {
    numbered = seqs-map f k s.messages ∙ i.numbered;
    keyed = IsKeyed-map f k s.messages i.keyed;
    cleared = c;
    logged = i.logged;
  }

  -- Only the members change.
  pub members-Inv :
      (f : Uuid → Member → Member)
      → ((u : Uuid) (m : Member)
          → m.history_cleared_seq ≤ s.last_seq
          → (f u m).history_cleared_seq ≤ s.last_seq)
      → Inv (record s { members = map_members f s.members })
  members-Inv f h = record {
    numbered = i.numbered;
    keyed = i.keyed;
    cleared = IsCleared-map s.last_seq s.last_seq f s.members h i.cleared;
    logged = i.logged;
  }

  pub append-Inv : (body : Body) → Inv (append_user_events body s)
  unfolding append_user_events
  append-Inv body = record {
    numbered = i.numbered;
    keyed = i.keyed;
    cleared = i.cleared;
    logged = append-IsLogged body s i.logged;
  }

  pub publish-Inv : (u : Uuid) (body : Body) → Inv (publish_user_event u body s)
  unfolding publish_user_event
  publish-Inv u body = record {
    numbered = i.numbered;
    keyed = i.keyed;
    cleared = i.cleared;
    logged = publish-IsLogged u body s i.logged;
  }

  pub insert-Inv :
      (now : ℕ) (id : Uuid) (p : SendParams) → existing p s ≡ none → Inv (insert_message now id p s)
  unfolding insert_message
  insert-Inv now id p new = record {
    numbered = rw add-one (ap (λ r. suc s.last_seq ∷ r) i.numbered);
    keyed = IsKeyed-new now id p (s.last_seq + 1) s new i.keyed;
    cleared =
        IsCleared-map s.last_seq (s.last_seq + 1) (sender_cursor p (s.last_seq + 1)) s.members
          (λ u m h. ground arith) i.cleared;
    logged = i.logged;
  }
