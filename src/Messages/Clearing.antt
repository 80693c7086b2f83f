-- ===== src/Messages/Clearing.antt =====
-- A history that its reader cleared.
use sobhemessenger.Common.{
  ℕ, zero, suc, ◌≤◌, ◌≡◌, refl, true, false, Option, none, some, Uuid, List, [], ◌∷◌, ◌==◌,
  on_option, arith, Bool-cases, inl, inr,
}
use sobhemessenger.Common.Assoc.{Assoc, lookup}
use sobhemessenger.Common.Lists.Rows.{filter_if, take, order_by, countdown}
use sobhemessenger.Httpx.{ok, err, Holds, if-Holds}
use sobhemessenger.Messages.Message.{Message}
use sobhemessenger.Messages.Store.{
  Member, Store, map_members, is_active, is_active_row, not_found, not_member,
}
use sobhemessenger.Messages.Reading.{
  clear_history, clear_for_one, clear_own, publish_user_event, history, is_visible, cleared_of,
}
use sobhemessenger.Messages.Sequence.{seqs}
use sobhemessenger.Messages.Numbered.{Inv}

lookup-map_members :
    (f : Uuid → Member → Member) (u : Uuid) (members : Assoc Member)
    → lookup u (map_members f members) ≡ on_option (lookup u members) none (λ m. some (f u m))
unfolding lookup map_members
lookup-map_members f u [] = refl
lookup-map_members f u ((v, m) ∷ rest) = elim (Bool-cases (v == u)) [
  | inl same ↦ ground (arith, same)
  | inr other ↦ rw other (lookup-map_members f u rest)
]

take-nil {ℓ} : {A : Type ℓ} (n : ℕ) → take {A = A} n [] ≡ []
unfolding take
take-nil zero = refl
take-nil (suc n) = refl

-- No row up to the watermark passes.
nothing_visible :
    (before after : Option ℕ) (watermark n : ℕ) (ms : List Message)
    → seqs ms ≡ countdown n
    → n ≤ watermark
    → filter_if (is_visible before after watermark) ms ≡ []
unfolding filter_if
nothing_visible before after watermark n [] h bound = refl
nothing_visible before after watermark zero (m ∷ ms) h bound = cc
nothing_visible before after watermark (suc n) (m ∷ ms) h bound =
    let head : m.seq ≡ suc n = cc in
    let tail : seqs ms ≡ countdown n = cc in
    ground (arith, head, bound, nothing_visible before after watermark n ms tail (omega arith))

-- A watermark of the reader decides the page.
page-empty :
    (viewer : Uuid) (before after : Option ℕ) (limit : ℕ) (s : Store)
    → seqs s.messages ≡ countdown s.last_seq
    → s.last_seq ≤ cleared_of (lookup viewer s.members)
    → history viewer before after limit s ≡ []
unfolding history order_by
page-empty viewer before after limit s numbered bound = rw (
  nothing_visible before after (cleared_of (lookup viewer s.members)) s.last_seq s.messages numbered
      bound,
  take-nil {A = Message} limit,
)

-- A page of `v` for which the watermark is the same is the same.
page-same :
    (v : Uuid) (before after : Option ℕ) (limit : ℕ) (s t : Store)
    → t.messages ≡ s.messages
    → cleared_of (lookup v t.members) ≡ cleared_of (lookup v s.members)
    → history v before after limit t ≡ history v before after limit s
unfolding history
page-same v before after limit s t rows mark = simp (rows, mark)

module _ (actor : Uuid) (s : Store) (i : Inv s) where
  own_mark :
      (o : Option Member)
      → is_active_row o ≡ true
      → s.last_seq ≤ cleared_of (on_option o none (λ m. some (clear_own actor s.last_seq actor m)))
  own_mark none active = cc
  own_mark (some m) active = ground (arith, active)

  other_mark :
      (v : Uuid) (o : Option Member)
      → (v == actor) ≡ false
      → cleared_of (on_option o none (λ m. some (clear_own actor s.last_seq v m))) ≡ cleared_of o
  other_mark v none other = refl
  other_mark v (some m) other = ground (arith, other)

  -- In a chat that satisfies the invariant, a one-sided clear that succeeds leaves its caller with an
  -- empty history, whatever page is asked for, and every page of any other user as it was; the rows
  -- themselves are untouched.
  pub clear_own_exact :
      (now : ℕ) (v : Uuid) (before after : Option ℕ) (limit : ℕ)
      → (v == actor) ≡ false
      → Holds
          (λ r.
            (history actor before after limit r.1 ≡ [])
            × (history v before after limit r.1 ≡ history v before after limit s)
            × (r.1.messages ≡ s.messages))
          (clear_history now actor false s)
  unfolding clear_history clear_for_one publish_user_event
  clear_own_exact now v before after limit other =
      let P : ℕ × Store → Type 0 = λ r.
        (history actor before after limit r.1 ≡ [])
        × (history v before after limit r.1 ≡ history v before after limit s)
        × (r.1.messages ≡ s.messages) in
      if-Holds P s.is_deleted (err not_found) _ (λ _. tt)
        λ _.
          if-Holds P (is_active s.members actor) (ok _) (err not_member)
            (λ active. (
              page-empty actor before after limit _ i.numbered (
                  rw (lookup-map_members (clear_own actor s.last_seq) actor s.members)
                    (own_mark (lookup actor s.members) active)),
              page-same v before after limit s _ refl (
                  rw (lookup-map_members (clear_own actor s.last_seq) v s.members)
                    (other_mark v (lookup v s.members) other)),
              refl,
            ))
            (λ _. tt)
