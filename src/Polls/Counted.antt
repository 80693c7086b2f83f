-- ===== src/Polls/Counted.antt =====
-- The counters of a poll beside its ballots.
use sobhemessenger.Common.{
  ℕ, ◌+◌, ◌-◌, ◌≤◌, ◌≡◌, refl, false, not, ◌&&◌, Uuid, List, [], ◌∷◌, ◌++◌, ◌==◌, arith, bit, count,
  length, map, All, ltb, eq_of_beq,
}
use sobhemessenger.Common.Lists.Counting.{any-count_if}
use sobhemessenger.Common.Lists.Sets.{contains-count}
use sobhemessenger.Httpx.{err, Holds, if-Holds}
use sobhemessenger.Polls.Poll.{
  Choice, Vote, Poll, closed, single_choice, invalid_option, is_by, is_for, is_closed, had_voted,
  decrement, increment, ballot, withdraw, record_ballot, replace_ballot, valid_options, vote,
}
use sobhemessenger.Polls.Tally.{
  votes_for, votes_by, votes_by_for, voters_of, others, votes_for-others, votes_by_for-others,
  votes_by-others, votes_for-ballot, votes_by_for-ballot, votes_by-ballot, voters-others,
  voters-ballot, named-exact, any-others,
}

abbrev pub ids : List Choice → List Uuid
ids = map (λ c. c.id)

abbrev pub IsCounted : List Vote → List Choice → Type 0
IsCounted votes = All (λ c. c.vote_count ≡ votes_for c.id votes)

pub record Inv (p : Poll) : Type 0 where
  pub counted : IsCounted p.votes p.choices
  -- nobody votes twice for one option
  pub once : (u o : Uuid) → votes_by_for u o p.votes ≤ 1
  pub single : p.allows_multiple ≡ false → (u : Uuid) → votes_by u p.votes ≤ 1
  pub total : p.total_voters ≡ length (voters_of p.votes)
  pub distinct : (k : Uuid) → count k (ids p.choices) ≤ 1

ids-map :
    (f : Choice → Choice) (cs : List Choice)
    → ((c : Choice) → (f c).id ≡ c.id)
    → ids (map f cs) ≡ ids cs
ids-map f [] h = refl
ids-map f (c ∷ cs) h = rw (h c, ids-map f cs h)

IsCounted-map :
    (f : Choice → Choice) (before after : List Vote) (cs : List Choice)
    → ((c : Choice)
        → c.vote_count ≡ votes_for c.id before
        → (f c).vote_count ≡ votes_for (f c).id after)
    → IsCounted before cs
    → IsCounted after (map f cs)
IsCounted-map f before after [] h all = tt
IsCounted-map f before after (c ∷ cs) h all = (h c all.0, IsCounted-map f before after cs h all.1)

module _ (u : Uuid) (p : Poll) (i : Inv p) where
  decrement_exact :
      (c : Choice)
      → c.vote_count ≡ votes_for c.id p.votes
      → (decrement u p.votes c).vote_count ≡ votes_for (decrement u p.votes c).id (others u p.votes)
  decrement_exact c h = ground (
    arith,
    h,
    any-count_if (λ v. is_by u v && is_for c.id v) p.votes,
    votes_for-others u c.id p.votes,
    i.once u c.id,
  )

  withdraw-IsCounted : IsCounted (others u p.votes) (map (decrement u p.votes) p.choices)
  withdraw-IsCounted =
      IsCounted-map (decrement u p.votes) p.votes (others u p.votes) p.choices decrement_exact
        i.counted

  withdraw-ids : ids (map (decrement u p.votes) p.choices) ≡ ids p.choices
  withdraw-ids = ids-map (decrement u p.votes) p.choices (λ c. ground arith)

  withdraw-Inv : Inv (record (withdraw u p) { total_voters = p.total_voters - bit (had_voted u p) })
  unfolding withdraw
  withdraw-Inv = record {
    counted = withdraw-IsCounted;
    once = λ w o. ground (arith, votes_by_for-others u w o p.votes, i.once w o);
    single = λ one w. ground (arith, votes_by-others u w p.votes, i.single one w);
    total = ground (arith, voters-others u p.votes, i.total);
    distinct = λ k. rw withdraw-ids (i.distinct k);
  }

  module _ (os : List Uuid) (each : (k : Uuid) → count k os ≤ 1) where
    increment_exact :
        (c : Choice)
        → c.vote_count ≡ votes_for c.id (others u p.votes)
        → (increment os c).vote_count
          ≡ votes_for (increment os c).id (ballot u os ++ others u p.votes)
    increment_exact c h =
        ground (
          arith,
          h,
          contains-count c.id os,
          votes_for-ballot u c.id os (others u p.votes),
          each c.id,
        )

    once-record : (w o : Uuid) → votes_by_for w o (ballot u os ++ others u p.votes) ≤ 1
    once-record w o = ground (
      arith,
      votes_by_for-ballot u w o os (others u p.votes),
      votes_by_for-others u w o p.votes,
      i.once w o,
      each o,
    )

    single-record :
        length os ≤ 1
        → p.allows_multiple ≡ false
        → (w : Uuid) → votes_by w (ballot u os ++ others u p.votes) ≤ 1
    single-record short one w = ground (
      arith,
      votes_by-ballot u w os (others u p.votes),
      votes_by-others u w p.votes,
      i.single one w,
    )

    total-record :
        (o : Uuid) (rest : List Uuid)
        → os ≡ o ∷ rest
        → p.total_voters + bit (not (had_voted u p))
          ≡ length (voters_of (ballot u os ++ others u p.votes))
    total-record o rest e = rw e (
        ground (
          arith,
          i.total,
          voters-others u p.votes,
          any-others u u p.votes,
          voters-ballot u o rest (others u p.votes),
        ))

    record-Inv :
        (o : Uuid) (rest : List Uuid)
        → os ≡ o ∷ rest
        → (p.allows_multiple ≡ false → length os ≤ 1)
        → Inv (record (record_ballot u os (withdraw u p)) {
          total_voters = p.total_voters + bit (not (had_voted u p));
        })
    unfolding withdraw record_ballot
    record-Inv o rest e short = record {
      counted =
          IsCounted-map (increment os) (others u p.votes) (ballot u os ++ others u p.votes)
            (map (decrement u p.votes) p.choices) increment_exact withdraw-IsCounted;
      once = once-record;
      single = λ one. single-record (short one) one;
      total = total-record o rest e;
      distinct = λ k.
          rw
            (
              ids-map (increment os) (map (decrement u p.votes) p.choices) (λ c. ground arith),
              withdraw-ids,
            )
            (i.distinct k);
    }

    replace_ballot-Inv :
        (xs : List Uuid)
        → os ≡ xs
        → (p.allows_multiple ≡ false → length os ≤ 1)
        → Inv (replace_ballot u xs p)
    unfolding replace_ballot
    replace_ballot-Inv [] e short = withdraw-Inv
    replace_ballot-Inv (o ∷ rest) e short = rw e at (record-Inv o rest e short)

  pub vote-Inv : (now : ℕ) (os : List Uuid) → Holds Inv (vote now u os p)
  unfolding vote
  vote-Inv now os =
      if-Holds Inv (is_closed now p) (err closed) _ (λ _. tt)
        λ _.
          if-Holds Inv (not p.allows_multiple && ltb 1 (length os)) (err single_choice) _ (λ _. tt)
            λ short.
              if-Holds Inv (valid_options os p == length os) _ (err invalid_option)
                (λ valid.
                  replace_ballot-Inv os
                    (named-exact (ids p.choices) i.distinct os (eq_of_beq _ _ valid)) os refl
                    (λ one. ground (arith, short, one)))
                (λ _. tt)
