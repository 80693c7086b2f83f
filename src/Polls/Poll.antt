-- ===== src/Polls/Poll.antt =====
-- backend/internal/polls/polls.go: a poll with its options and ballots, and the statements on it, each a
-- transaction that locks the row of the poll.
use sobhemessenger.Common.{
  ℕ, ◌+◌, ◌-◌, Bool, true, false, not, ◌&&◌, ◌||◌, Option, none, some, Uuid, List, [], ◌∷◌, ◌++◌,
  ◌==◌, if◌then◌else◌, ltb, length, count_if, any, contains, map, is_some, bit,
}
use sobhemessenger.Common.Lists.Rows.{filter_if}
use sobhemessenger.Common.Text.{Runes}
use sobhemessenger.Httpx.{Result, ok, err}

-- A row of `poll_options`.
pub record Choice : Type 0 where
  pub id : Uuid
  pub text : Runes
  pub vote_count : ℕ

-- A row of `poll_votes`.
pub record Vote : Type 0 where
  pub option_id : Uuid
  pub user_id : Uuid

pub record Poll : Type 0 where
  pub created_by : Uuid
  pub question : Runes
  pub is_anonymous : Bool
  pub allows_multiple : Bool
  pub is_quiz : Bool
  pub correct_option : Option ℕ
  pub total_voters : ℕ
  pub closes_at : Option ℕ
  pub closed_at : Option ℕ
  pub choices : List Choice
  pub votes : List Vote

pub data PollError : Type 0 where
  closed single_choice invalid_option not_creator : PollError

abbrev pub is_by : Uuid → Vote → Bool
is_by u v = v.user_id == u

abbrev pub is_for : Uuid → Vote → Bool
is_for o v = v.option_id == o

-- `closesAt != nil && closesAt.Before(time.Now())`
abbrev pub has_passed : Option ℕ → ℕ → Bool
has_passed none now = false
has_passed (some at) now = ltb at now

abbrev pub is_closed : ℕ → Poll → Bool
is_closed now poll = is_some poll.closed_at || has_passed poll.closes_at now

abbrev pub had_voted : Uuid → Poll → Bool
had_voted u poll = any (is_by u) poll.votes

-- GREATEST(0, vote_count - 1) for the options of the earlier ballot.
abbrev pub decrement : Uuid → List Vote → Choice → Choice
decrement u votes c =
    if any (λ v. is_by u v && is_for c.id v) votes
    then record c { vote_count = c.vote_count - 1 }
    else c

abbrev pub increment : List Uuid → Choice → Choice
increment option_ids c =
    if contains c.id option_ids then record c { vote_count = c.vote_count + 1 } else c

unfoldable pub ballot : Uuid → List Uuid → List Vote
ballot u [] = []
ballot u (o ∷ os) = record { option_id = o; user_id = u } ∷ ballot u os

-- The earlier ballot is taken back.
unfoldable pub withdraw : Uuid → Poll → Poll
unfolding filter_if
withdraw u poll = record poll {
  choices = map (decrement u poll.votes) poll.choices;
  votes = filter_if (λ v. not (is_by u v)) poll.votes;
}

unfoldable pub record_ballot : Uuid → List Uuid → Poll → Poll
unfolding ballot
record_ballot u option_ids poll = record poll {
  choices = map (increment option_ids) poll.choices;
  votes = ballot u option_ids ++ poll.votes;
}

abbrev pub is_empty : List Uuid → Bool
is_empty [] = true
is_empty _ = false

-- The ballot is replaced, and the number of voters moves by the one who begins or stops to vote.
unfoldable pub replace_ballot : Uuid → List Uuid → Poll → Poll
unfolding withdraw record_ballot
replace_ballot u option_ids poll =
    if is_empty option_ids
    then record (withdraw u poll) { total_voters = poll.total_voters - bit (had_voted u poll) }
    else record (record_ballot u option_ids (withdraw u poll)) {
      total_voters = poll.total_voters + bit (not (had_voted u poll));
    }

-- How many of the poll's options the ballot names, which counts an id that is there twice once.
abbrev pub valid_options : List Uuid → Poll → ℕ
valid_options option_ids poll = count_if (λ o. contains o option_ids) (map (λ c. c.id) poll.choices)

unfoldable pub vote : ℕ → Uuid → List Uuid → Poll → Result PollError Poll
unfolding replace_ballot
vote now u option_ids poll =
    if is_closed now poll
    then err closed
    else if not poll.allows_multiple && ltb 1 (length option_ids)
    then err single_choice
    else if valid_options option_ids poll == length option_ids
    then ok (replace_ballot u option_ids poll)
    else err invalid_option

unfoldable pub close : ℕ → Uuid → Poll → Result PollError Poll
close now actor poll =
    if poll.created_by == actor && not (is_some poll.closed_at)
    then ok (record poll { closed_at = some now })
    else err not_creator

unfoldable pub choices_of : List (Uuid × Runes) → List Choice
choices_of [] = []
choices_of ((id, text) ∷ rest) = record { id = id; text = text; vote_count = 0 } ∷ choices_of rest

pub record CreateInput : Type 0 where
  pub created_by : Uuid
  pub question : Runes
  pub options : List Runes
  pub is_anonymous : Bool
  pub allows_multiple : Bool
  pub is_quiz : Bool
  pub correct_option : Option ℕ
  pub closes_at : Option ℕ

-- The ids that the database gives the options are an argument.
unfoldable pub create : CreateInput → List (Uuid × Runes) → Poll
unfolding choices_of
create input rows = record {
  created_by = input.created_by;
  question = input.question;
  is_anonymous = input.is_anonymous;
  allows_multiple = input.allows_multiple;
  is_quiz = input.is_quiz;
  correct_option = input.correct_option;
  total_voters = 0;
  closes_at = input.closes_at;
  closed_at = none;
  choices = choices_of rows;
  votes = [];
}
