-- ===== src/Messages/Log.antt =====
-- The sync log of the users: the rows of one user are numbered without a gap.
use sobhemessenger.Common.{
  ℕ, suc, ◌+◌, ◌≡◌, refl, ap, ◌∙◌, Bool, Option, none, some, Uuid, List, [], ◌∷◌, ◌==◌,
  if◌then◌else◌, Bool-cases, inl, inr, eq_of_beq,
}
use native.Mathlib.Numerals.{add-one}
use sobhemessenger.Common.Assoc.{Assoc, lookup, IsDistinct, insert-IsDistinct, lookup-insert}
use sobhemessenger.Common.Lists.Rows.{countdown}
use sobhemessenger.Messages.Store.{
  Body, Event, Store, is_active, bump_counters, add_events, append_user_events, next_count,
}
use sobhemessenger.Messages.Reading.{publish_user_event, counter_of}

-- The sequence numbers of one user's rows, the latest first.
abbrev pub seqs_of : Uuid → List Event → List ℕ
seqs_of u [] = []
seqs_of u (e ∷ rest) = if e.user_id == u then e.seq ∷ seqs_of u rest else seqs_of u rest

pub record IsLogged (counters : Assoc ℕ) (events : List Event) : Type 0 where
  pub distinct : IsDistinct counters
  pub numbered : (u : Uuid) → seqs_of u events ≡ countdown (counter_of (lookup u counters))

module _ (chosen : Uuid → Bool) where
  lookup-bump :
      (u : Uuid) (counters : Assoc ℕ)
      → lookup u (bump_counters chosen counters)
        ≡ elim (lookup u counters) [ none ↦ none | some n ↦ some (if chosen u then n + 1 else n) ]
  unfolding lookup bump_counters
  lookup-bump u [] = refl
  lookup-bump u ((v, n) ∷ rest) = elim (Bool-cases (v == u)) [
    | inl same ↦ rw (same, eq_of_beq v u same)
    | inr other ↦ rw other (lookup-bump u rest)
  ]

  bump-IsDistinct :
      (counters : Assoc ℕ) → IsDistinct counters → IsDistinct (bump_counters chosen counters)
  unfolding bump_counters
  bump-IsDistinct [] d = tt
  bump-IsDistinct ((v, n) ∷ rest) d = (rw (lookup-bump v rest, d.0), bump-IsDistinct rest d.1)

  -- A user with no counter gets no row.
  seqs-add_absent :
      (u : Uuid) (body : Body) (counters : Assoc ℕ) (log : List Event)
      → lookup u counters ≡ none
      → seqs_of u (add_events chosen body counters log) ≡ seqs_of u log
  unfolding lookup add_events
  seqs-add_absent u body [] log h = refl
  seqs-add_absent u body ((v, n) ∷ rest) log h = elim (Bool-cases (v == u)) [
    | inl same ↦ cc (rw same at h)
    | inr other ↦ elim (Bool-cases (chosen v)) [
      | inl taken ↦ rw (taken, other) (seqs-add_absent u body rest log (rw other at h))
      | inr left ↦ rw left (seqs-add_absent u body rest log (rw other at h))
    ]
  ]

  seqs-add :
      (u : Uuid) (body : Body) (counters : Assoc ℕ) (log : List Event)
      → IsDistinct counters
      → seqs_of u log ≡ countdown (counter_of (lookup u counters))
      → seqs_of u (add_events chosen body counters log)
        ≡ countdown (counter_of (lookup u (bump_counters chosen counters)))
  unfolding lookup add_events bump_counters
  seqs-add u body [] log d h = h
  seqs-add u body ((v, n) ∷ rest) log d h = elim (Bool-cases (v == u)) [
    | inl same ↦
        let absent : lookup u rest ≡ none = rw (← eq_of_beq v u same) d.0 in
        let before : seqs_of u log ≡ countdown n = rw same at h in
        elim (Bool-cases (chosen v)) [
          | inl taken ↦
              rw (taken, same, add-one)
                (ap (λ r. suc n ∷ r) (seqs-add_absent u body rest log absent ∙ before))
          | inr left ↦ rw (left, same) (seqs-add_absent u body rest log absent ∙ before)
        ]
    | inr other ↦
        let before : seqs_of u log ≡ countdown (counter_of (lookup u rest)) = rw other at h in
        elim (Bool-cases (chosen v)) [
          | inl taken ↦ rw (taken, other) (seqs-add u body rest log d.1 before)
          | inr left ↦ rw (left, other) (seqs-add u body rest log d.1 before)
        ]
  ]

pub append-IsLogged :
    (body : Body) (store : Store)
    → IsLogged store.counters store.events
    → IsLogged (append_user_events body store).counters (append_user_events body store).events
unfolding append_user_events
append-IsLogged body store l = record {
  distinct = bump-IsDistinct (is_active store.members) store.counters l.distinct;
  numbered = λ u.
      seqs-add (is_active store.members) u body store.counters store.events l.distinct
        (l.numbered u);
}

pub publish-IsLogged :
    (u : Uuid) (body : Body) (store : Store)
    → IsLogged store.counters store.events
    → IsLogged (publish_user_event u body store).counters (publish_user_event u body store).events
unfolding publish_user_event
publish-IsLogged u body store l = record {
  distinct = insert-IsDistinct u (next_count (lookup u store.counters)) store.counters l.distinct;
  numbered = λ v. elim (Bool-cases (u == v)) [
    | inl same ↦
        rw
          (
            same,
            lookup-insert u v (next_count (lookup u store.counters)) store.counters,
            same,
            eq_of_beq u v same,
          )
          (next v (lookup v store.counters) (l.numbered v))
    | inr other ↦
        rw (other, lookup-insert u v (next_count (lookup u store.counters)) store.counters, other)
          (l.numbered v)
  ];
}
  where
    next :
        (w : Uuid) (o : Option ℕ)
        → seqs_of w store.events ≡ countdown (counter_of o)
        → next_count o ∷ seqs_of w store.events ≡ countdown (counter_of (some (next_count o)))
    next w none h = ap (λ r. 1 ∷ r) h
    next w (some n) h = rw add-one (ap (λ r. suc n ∷ r) h)
