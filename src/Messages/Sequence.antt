-- ===== src/Messages/Sequence.antt =====
-- The rows of `messages`: their numbers, and the key that makes a send idempotent.
use sobhemessenger.Common.{
  ℕ, ◌≡◌, refl, ap, ◌∙◌, Bool, ◌&&◌, Option, none, some, Uuid, List, [], ◌∷◌, map, ◌==◌,
  if◌then◌else◌, Bool-cases, inl, inr, on_option, arith,
}
use sobhemessenger.Messages.Message.{Message, SendParams, is_from, returned}
use sobhemessenger.Messages.Store.{Store, row_by_client_id, message_by_client_id}
use sobhemessenger.Messages.Statements.{existing, new_message}

-- A change to a message that keeps what it is found by.
abbrev pub Keeps : (Message → Message) → Type 0
Keeps f =
    (m : Message)
    → ((f m).id ≡ m.id)
      × ((f m).seq ≡ m.seq)
      × ((f m).sender_id ≡ m.sender_id)
      × ((f m).client_message_id ≡ m.client_message_id)

pub if-Keeps :
    (p : Message → Bool) (f g : Message → Message)
    → Keeps f
    → Keeps g
    → Keeps (λ m. if p m then f m else g m)
if-Keeps p f g k j m = elim (Bool-cases (p m)) [
  | inl yes_f ↦ rw yes_f (k m)
  | inr no_f ↦ rw no_f (j m)
]

pub same-Keeps : Keeps (λ m. m)
same-Keeps m = (refl, refl, refl, refl)

abbrev pub seqs : List Message → List ℕ
seqs = map (λ m. m.seq)

-- No row of the list has the key.
abbrev pub IsFresh : Option Uuid → Uuid → List Message → Type 0
IsFresh none client ms = Unit
IsFresh (some sender) client ms = row_by_client_id sender client ms ≡ none

abbrev pub IsKeyed : List Message → Type 0
IsKeyed [] = Unit
IsKeyed (m ∷ ms) = IsFresh m.sender_id m.client_message_id ms × IsKeyed ms

abbrev pub changed : (Message → Message) → Option Message → Option Message
changed f none = none
changed f (some m) = some (f m)

module _ (f : Message → Message) (k : Keeps f) where
  pub seqs-map : (ms : List Message) → seqs (map f ms) ≡ seqs ms
  seqs-map [] = refl
  seqs-map (m ∷ ms) = rw ((k m).1, seqs-map ms)

  pub row_by_client_id-map :
      (sender client : Uuid) (ms : List Message)
      → row_by_client_id sender client (map f ms) ≡ changed f (row_by_client_id sender client ms)
  unfolding row_by_client_id
  row_by_client_id-map sender client [] = refl
  row_by_client_id-map sender client (m ∷ ms) =
      elim (Bool-cases (is_from sender m.sender_id && m.client_message_id == client)) [
        | inl found ↦ simp ((k m).2, (k m).3, found)
        | inr other ↦ rw ((k m).2, (k m).3, other) (row_by_client_id-map sender client ms)
      ]

  IsFresh-map :
      (sender : Option Uuid) (client : Uuid) (ms : List Message)
      → IsFresh sender client ms
      → IsFresh sender client (map f ms)
  IsFresh-map none client ms h = tt
  IsFresh-map (some sender) client ms h = row_by_client_id-map sender client ms ∙ ap (changed f) h

  pub IsKeyed-map : (ms : List Message) → IsKeyed ms → IsKeyed (map f ms)
  IsKeyed-map [] h = tt
  IsKeyed-map (m ∷ ms) h = (
    rw ((k m).2, (k m).3) (IsFresh-map m.sender_id m.client_message_id ms h.0),
    IsKeyed-map ms h.1,
  )

-- The row behind what the lookup of a send answers.
pub found_row :
    (sender client : Uuid) (rows : List Message) (m : Message)
    → message_by_client_id sender client rows ≡ some m
    → (row : Message) × (row_by_client_id sender client rows ≡ some row) × (returned row ≡ m)
found_row sender client rows m h = behind (row_by_client_id sender client rows) h
  where
    behind :
        (o : Option Message)
        → on_option o none (λ r. some (returned r)) ≡ some m
        → (row : Message) × (o ≡ some row) × (returned row ≡ m)
    behind none h = ground (arith, h)
    behind (some row) h = (row, refl, ground (arith, h))

pub no_row :
    (sender client : Uuid) (rows : List Message)
    → message_by_client_id sender client rows ≡ none
    → row_by_client_id sender client rows ≡ none
no_row sender client rows h = behind (row_by_client_id sender client rows) h
  where
    behind : (o : Option Message) → on_option o none (λ r. some (returned r)) ≡ none → o ≡ none
    behind none h = refl
    behind (some row) h = ground (arith, h)

-- The row that a send adds.
pub IsKeyed-new :
    (now : ℕ) (id : Uuid) (p : SendParams) (seq : ℕ) (store : Store)
    → existing p store ≡ none
    → IsKeyed store.messages
    → IsKeyed (new_message now id p seq ∷ store.messages)
unfolding new_message
IsKeyed-new now id p seq store h keyed = elim (Bool-cases p.as_chat) [
  | inl chat ↦ (rw chat tt, keyed)
  | inr person ↦
      (rw person (no_row p.sender_id p.client_message_id store.messages (rw person at h)), keyed)
]
