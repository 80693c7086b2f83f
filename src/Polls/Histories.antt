-- ===== src/Polls/Histories.antt =====
-- A poll from its creation on.
use sobhemessenger.Common.{
  ℕ, ◌≤◌, ◌≡◌, refl, true, not, ◌&&◌, Uuid, List, [], ◌∷◌, ◌==◌, if◌then◌else◌, arith, bit,
  contains, count, length, ltb, eq_of_beq, is_some,
}
use sobhemessenger.Common.Lists.Sets.{contains-count}
use sobhemessenger.Common.Text.{Runes}
use sobhemessenger.Httpx.{
  Fault, Result, ok, err, Holds, if-Holds, map_err-Holds, Holds-ok, validation,
}
use sobhemessenger.Polls.Poll.{
  Choice, Poll, CreateInput, choices_of, create, closed, single_choice, invalid_option, not_creator,
  is_closed, ballot, withdraw, record_ballot, is_empty, replace_ballot, valid_options,
}
use sobhemessenger.Polls.Poll as Repo
use sobhemessenger.Polls.Tally.{
  votes_by_for, votes_by_for-others, votes_by_for-ballot, named-exact, others, voters_of,
}
use sobhemessenger.Polls.Service.{
  Op, voting, closing, run, run_all, settle, vote, close, when_vote_error, when_close_error,
  max_options,
}
use sobhemessenger.Polls.Counted.{Inv, IsCounted, ids, vote-Inv}

choices_of-IsCounted : (rows : List (Uuid × Runes)) → IsCounted [] (choices_of rows)
unfolding choices_of
choices_of-IsCounted [] = tt
choices_of-IsCounted ((id, text) ∷ rest) = (refl, choices_of-IsCounted rest)

create-Inv :
    (input : CreateInput) (rows : List (Uuid × Runes))
    → ((k : Uuid) → count k (ids (choices_of rows)) ≤ 1)
    → Inv (create input rows)
unfolding create voters_of
create-Inv input rows distinct = record {
  counted = choices_of-IsCounted rows;
  once = λ u o. omega arith;
  single = λ one u. omega arith;
  total = refl;
  distinct = distinct;
}

run-Inv : (op : Op) (p : Poll) → Inv p → Holds Inv (run op p)
unfolding run vote close Repo.close
run-Inv (voting now u os) p i =
    if-Holds Inv (ltb max_options (length os)) (err validation) _ (λ _. tt)
      λ _. map_err-Holds Inv when_vote_error (Repo.vote now u os p) (vote-Inv u p i now os)
run-Inv (closing now actor) p i = map_err-Holds Inv when_close_error (Repo.close now actor p) (
    if-Holds Inv (p.created_by == actor && not (is_some p.closed_at)) _ (err not_creator)
      (λ _. record {
        counted = i.counted;
        once = i.once;
        single = i.single;
        total = i.total;
        distinct = i.distinct;
      })
      (λ _. tt))

settle-Inv : (r : Result Fault Poll) (p : Poll) → Holds Inv r → Inv p → Inv (settle r p)
settle-Inv (ok after) p h i = h
settle-Inv (err e) p h i = i

run_all-Inv : (ops : List Op) (p : Poll) → Inv p → Inv (run_all ops p)
unfolding run_all
run_all-Inv [] p i = i
run_all-Inv (op ∷ ops) p i =
    run_all-Inv ops (settle (run op p) p) (settle-Inv (run op p) p (run-Inv op p i) i)

-- From its creation with options of different ids, and whatever votes, changes of mind, retractions and
-- closings follow: the count of each option is the number of ballots for it, nobody has two for one
-- option, nobody has two at all if the poll takes a single answer, and the number of voters is the
-- number of different people with a ballot.
pub create_then_run_all-Inv :
    (input : CreateInput) (rows : List (Uuid × Runes)) (ops : List Op)
    → ((k : Uuid) → count k (ids (choices_of rows)) ≤ 1)
    → Inv (run_all ops (create input rows))
create_then_run_all-Inv input rows ops distinct =
    run_all-Inv ops (create input rows) (create-Inv input rows distinct)

module _ (u : Uuid) (p : Poll) (i : Inv p) (w o : Uuid) where
  abbrev Replaced : List Uuid → Poll → Type 0
  Replaced os t =
      votes_by_for w o t.votes ≡ (if u == w then bit (contains o os) else votes_by_for w o p.votes)

  replace-exact :
      (os : List Uuid) → ((k : Uuid) → count k os ≤ 1) → Replaced os (replace_ballot u os p)
  unfolding replace_ballot withdraw record_ballot contains
  replace-exact [] each = ground (arith, votes_by_for-others u w o p.votes)
  replace-exact (x ∷ xs) each = ground (
    arith,
    votes_by_for-ballot u w o (x ∷ xs) (others u p.votes),
    votes_by_for-others u w o p.votes,
    contains-count o (x ∷ xs),
    each o,
  )

  -- A vote that succeeds on a poll whose counters are right replaces the ballot of its user: afterwards
  -- the user has one vote for each option that is named and none for another, and everybody else
  -- has what they had.
  pub vote_exact :
      (now : ℕ) (os : List Uuid) (t : Poll)
      → vote now u os p ≡ ok t
      → votes_by_for w o t.votes
        ≡ (if u == w then bit (contains o os) else votes_by_for w o p.votes)
  unfolding vote Repo.vote
  vote_exact now os t voted =
      Holds-ok (Replaced os) (vote now u os p) t
        (if-Holds (Replaced os) (ltb max_options (length os)) (err validation) _ (λ _. tt)
          λ _. map_err-Holds (Replaced os) when_vote_error (Repo.vote now u os p) (
            if-Holds (Replaced os) (is_closed now p) (err closed) _ (λ _. tt)
              λ _.
                if-Holds (Replaced os) (not p.allows_multiple && ltb 1 (length os))
                  (err single_choice) _ (λ _. tt)
                  λ _.
                    if-Holds (Replaced os) (valid_options os p == length os) (ok _)
                      (err invalid_option)
                      (λ valid.
                        replace-exact os
                          (named-exact (ids p.choices) i.distinct os (eq_of_beq _ _ valid)))
                      (λ _. tt)))
        voted

run_closed : (op : Op) (p : Poll) → is_some p.closed_at ≡ true → settle (run op p) p ≡ p
unfolding run vote close Repo.vote Repo.close
run_closed (voting now u os) p shut = ground (arith, shut)
run_closed (closing now actor) p shut = ground (arith, shut)

-- A poll that its creator closed is the same poll, ballots, counters and time of closing, after every
-- sequence of votes and closings.
pub closed_is_final : (ops : List Op) (p : Poll) → is_some p.closed_at ≡ true → run_all ops p ≡ p
unfolding run_all
closed_is_final [] p shut = refl
closed_is_final (op ∷ ops) p shut = rw (run_closed op p shut) (closed_is_final ops p shut)
