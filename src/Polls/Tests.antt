-- ===== src/Polls/Tests.antt =====
-- A poll of three options, and the theorems at it.
use sobhemessenger.Common.{
  ◌≡◌, ◌≤◌, refl, true, false, none, some, Uuid, List, [], ◌∷◌, ◌==◌, if◌then◌else◌, arith, bit,
  contains, count, map,
}
use sobhemessenger.Common.Text.{Runes}
use sobhemessenger.Polls.Poll.{Poll, CreateInput, create, choices_of, ballot}
use sobhemessenger.Polls.Tally.{votes_by_for}
use sobhemessenger.Polls.Service.{Op, voting, closing, run_all, vote, settle, correct_option_for}
use sobhemessenger.Polls.Counted.{Inv, ids}
use sobhemessenger.Polls.Histories.{create_then_run_all-Inv, vote_exact}

abbrev quiz : CreateInput
quiz = record {
  created_by = 1;
  question = 81 ∷ [];
  options = (65 ∷ []) ∷ (66 ∷ []) ∷ (67 ∷ []) ∷ [];
  is_anonymous = false;
  allows_multiple = false;
  is_quiz = true;
  correct_option = some 2;
  closes_at = none;
}

abbrev rows : List (Uuid × Runes)
rows = (10, 65 ∷ []) ∷ (11, 66 ∷ []) ∷ (12, 67 ∷ []) ∷ []

distinct_rows : (k : Uuid) → count k (ids (choices_of rows)) ≤ 1
unfolding count choices_of
distinct_rows k = ground arith

abbrev votes : List Op
votes = voting 5 7 (10 ∷ []) ∷ voting 6 8 (10 ∷ []) ∷ voting 7 7 (12 ∷ []) ∷ voting 8 8 [] ∷ []

create_then_run_all-Inv_example : Inv (run_all votes (create quiz rows))
create_then_run_all-Inv_example = create_then_run_all-Inv quiz rows votes distinct_rows

abbrev voted : Poll
voted = run_all votes (create quiz rows)

tally : map (λ c. c.vote_count) voted.choices ≡ 0 ∷ 0 ∷ 1 ∷ []
unfolding run_all create choices_of contains ballot
tally = refl

vote_exact_example :
    votes_by_for 7 11 (settle (vote 9 7 (11 ∷ []) voted) voted).votes
    ≡ (if 7 == 7 then bit (contains 11 (11 ∷ [])) else votes_by_for 7 11 voted.votes)
unfolding run_all create choices_of contains ballot
vote_exact_example =
    vote_exact 7 voted (create_then_run_all-Inv quiz rows votes distinct_rows) 7 11 9 (11 ∷ [])
      (settle (vote 9 7 (11 ∷ []) voted) voted) refl

abbrev shut : Poll
shut = run_all (closing 9 1 ∷ []) voted

-- A voter of the open quiz sees the right answer, and may still move the vote to it.
answer_shown :
    correct_option_for 7 (run_all (voting 5 7 (10 ∷ []) ∷ []) (create quiz rows)) ≡ some 2
unfolding run_all create choices_of contains ballot correct_option_for
answer_shown = refl
