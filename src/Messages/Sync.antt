-- ===== src/Messages/Sync.antt =====
-- What a device gets of the sync log from its cursor on.
use sobhemessenger.Common.{
  ℕ, zero, suc, ◌+◌, ◌-◌, ◌≡◌, refl, ap, ◌∙◌, Uuid, List, [], ◌∷◌, map, ◌==◌, if◌then◌else◌, arith,
  leb, ltb, Bool-cases, inl, inr,
}
use sobhemessenger.Common.Assoc.{lookup}
use sobhemessenger.Common.Lists.Rows.{
  filter_if, take, insert_by, order_by, countdown, numbers_after,
}
use sobhemessenger.Messages.Store.{Event, Store}
use sobhemessenger.Messages.Reading.{events_since, is_earlier, is_later_event, counter_of}
use sobhemessenger.Messages.Log.{seqs_of, IsLogged}

abbrev pub event_seqs_of : List Event → List ℕ
event_seqs_of = map (λ e. e.seq)

abbrev pub smaller : ℕ → ℕ → ℕ
smaller a b = if leb a b then a else b

seqs-insert :
    (e : Event) (es : List Event)
    → event_seqs_of (insert_by is_earlier e es) ≡ insert_by leb e.seq (event_seqs_of es)
unfolding insert_by
seqs-insert e [] = refl
seqs-insert e (d ∷ es) = elim (Bool-cases (leb e.seq d.seq)) [
  | inl first ↦ rw first
  | inr later ↦ rw later (ap (λ r. d.seq ∷ r) (seqs-insert e es))
]

seqs-order :
    (es : List Event) → event_seqs_of (order_by is_earlier es) ≡ order_by leb (event_seqs_of es)
unfolding order_by
seqs-order [] = refl
seqs-order (e ∷ es) =
    seqs-insert e (order_by is_earlier es) ∙ ap (insert_by leb e.seq) (seqs-order es)

seqs-filter :
    (u : Uuid) (cursor : ℕ) (es : List Event)
    → event_seqs_of (filter_if (is_later_event u cursor) es) ≡ filter_if (ltb cursor) (seqs_of u es)
unfolding filter_if
seqs-filter u cursor [] = refl
seqs-filter u cursor (e ∷ es) = elim (Bool-cases (e.user_id == u)) [
  | inl own ↦ elim (Bool-cases (ltb cursor e.seq)) [
    | inl later ↦ rw (own, later, seqs-filter u cursor es)
    | inr seen ↦ rw (own, seen, seqs-filter u cursor es)
  ]
  | inr other ↦ rw (other, seqs-filter u cursor es)
]

seqs-take : (n : ℕ) (es : List Event) → event_seqs_of (take n es) ≡ take n (event_seqs_of es)
unfolding take
seqs-take zero es = refl
seqs-take (suc n) [] = refl
seqs-take (suc n) (e ∷ es) = ap (λ r. e.seq ∷ r) (seqs-take n es)

-- The largest number goes to the end.
insert-numbers :
    (a n x : ℕ) → x ≡ suc (a + n) → insert_by leb x (numbers_after a n) ≡ numbers_after a (suc n)
unfolding insert_by
insert-numbers a zero x h = ground arith
insert-numbers a (suc n) x h = ground (arith, insert-numbers (suc a) n x (omega arith))

order-countdown :
    (cursor n : ℕ)
    → order_by leb (filter_if (ltb cursor) (countdown n)) ≡ numbers_after cursor (n - cursor)
unfolding order_by filter_if
order-countdown cursor zero = let none_left : 0 - cursor ≡ 0 = omega arith in rw none_left refl
order-countdown cursor (suc n) = elim (Bool-cases (ltb cursor (suc n))) [
  | inl later ↦
      rw (later, order-countdown cursor n)
        (insert-numbers cursor (n - cursor) (suc n) (ground (arith, later))
          ∙ ap (numbers_after cursor) {x = suc (n - cursor)} (ground (arith, later)))
  | inr seen ↦
      rw (seen, order-countdown cursor n)
        (ap (numbers_after cursor) {x = n - cursor} (ground (arith, seen)))
]

take-numbers : (limit a n : ℕ) → take limit (numbers_after a n) ≡ numbers_after a (smaller limit n)
unfolding take
take-numbers zero a n = ground arith
take-numbers (suc limit) a zero = ground arith
take-numbers (suc limit) a (suc n) = ground (arith, take-numbers limit (suc a) n)

-- In a log that is numbered as the repository numbers it, a device that asks from its cursor gets the
-- events of its user with the numbers cursor + 1, cursor + 2, ... in order and without a gap, as many
-- as the limit allows or as there are up to the user's counter, and the counter.
pub events_since_exact :
    (u : Uuid) (cursor limit : ℕ) (s : Store)
    → IsLogged s.counters s.events
    → (event_seqs_of (events_since u cursor limit s).0
        ≡ numbers_after cursor (smaller limit (counter_of (lookup u s.counters) - cursor)))
      × ((events_since u cursor limit s).1 ≡ counter_of (lookup u s.counters))
unfolding events_since
events_since_exact u cursor limit s l = (
  seqs-take limit (order_by is_earlier (filter_if (is_later_event u cursor) s.events))
      ∙ ap (take limit) (
          seqs-order (filter_if (is_later_event u cursor) s.events)
          ∙ ap (order_by leb)
              (seqs-filter u cursor s.events ∙ ap (filter_if (ltb cursor)) (l.numbered u))
          ∙ order-countdown cursor (counter_of (lookup u s.counters)))
      ∙ take-numbers limit cursor (counter_of (lookup u s.counters) - cursor),
  refl,
)
