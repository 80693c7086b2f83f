-- ===== src/Polls/Service.antt =====
-- backend/internal/polls/polls.go: the service, and its methods that change a poll as one type.
use sobhemessenger.Common.{
  ℕ, Bool, false, not, ◌&&◌, ◌||◌, Option, none, some, Uuid, List, [], ◌∷◌, if◌then◌else◌, ltb,
  length, any, is_some,
}
use sobhemessenger.Common.Text.{Runes, trim_space}
use sobhemessenger.Common.Text as Text
use sobhemessenger.Httpx.{
  Fault, Result, ok, err, ◌>>=◌, map_err, validation, conflict, conflict_code, forbidden,
  forbidden_code, internal,
}
use sobhemessenger.Polls.Poll.{
  Poll, PollError, closed, single_choice, invalid_option, not_creator, CreateInput, is_by,
  is_closed, has_passed,
}
use sobhemessenger.Polls.Poll as Repo

abbrev pub min_options : ℕ
min_options = 2

abbrev pub max_options : ℕ
max_options = 12

abbrev pub max_question_runes : ℕ
max_question_runes = 300

abbrev pub max_option_runes : ℕ
max_option_runes = 100

-- The options without the blank ones; one that is too long refuses the poll.
unfoldable pub clean : List Runes → Result Fault (List Runes)
unfolding trim_space
clean [] = ok []
clean (option ∷ rest) =
    let trimmed = trim_space option in
    let later = clean rest in
    if Text.is_empty trimmed
    then later
    else if ltb max_option_runes (length trimmed)
    then err validation
    else (later >>= λ cleaned. ok (trimmed ∷ cleaned))

-- Whether the index of the right answer is one of `n` options; a negative one is none.
abbrev pub is_index : Option ℕ → ℕ → Bool
is_index none n = false
is_index (some at) n = ltb at n

-- The checks of `Create`, with the input that goes on to the repository.
unfoldable pub check_create : ℕ → CreateInput → Result Fault CreateInput
unfolding trim_space clean
check_create now input =
    let question = trim_space input.question in
    if Text.is_empty question || ltb max_question_runes (length question)
    then err validation
    else (clean input.options >>= λ options.
        if ltb (length options) min_options || ltb max_options (length options)
        then err validation
        else if input.is_quiz && not (is_index input.correct_option (length options))
        then err validation
        else if has_passed input.closes_at now
        then err validation
        else ok (record input {
          question = question;
          options = options;
          allows_multiple = input.allows_multiple && not input.is_quiz;
        }))

-- What `Get` shows of the right answer.
unfoldable pub correct_option_for : Uuid → Poll → Option ℕ
correct_option_for viewer poll =
    if poll.is_quiz && not (any (is_by viewer) poll.votes) && not (is_some poll.closed_at)
    then none
    else poll.correct_option

abbrev pub when_vote_error : PollError → Fault
when_vote_error closed = conflict conflict_code
when_vote_error single_choice = validation
when_vote_error invalid_option = validation
when_vote_error not_creator = internal

unfoldable pub vote : ℕ → Uuid → List Uuid → Poll → Result Fault Poll
unfolding Repo.vote
vote now u option_ids poll =
    if ltb max_options (length option_ids)
    then err validation
    else map_err when_vote_error (Repo.vote now u option_ids poll)

abbrev pub when_close_error : PollError → Fault
when_close_error not_creator = forbidden forbidden_code
when_close_error _ = internal

unfoldable pub close : ℕ → Uuid → Poll → Result Fault Poll
unfolding Repo.close
close now actor poll = map_err when_close_error (Repo.close now actor poll)

pub data Op : Type 0 where
  voting : ℕ → Uuid → List Uuid → Op
  closing : ℕ → Uuid → Op

unfoldable pub run : Op → Poll → Result Fault Poll
unfolding vote close
run (voting now u option_ids) poll = vote now u option_ids poll
run (closing now actor) poll = close now actor poll

abbrev pub settle : Result Fault Poll → Poll → Poll
settle (ok after) before = after
settle (err e) before = before

unfoldable pub run_all : List Op → Poll → Poll
unfolding run
run_all [] poll = poll
run_all (op ∷ ops) poll = run_all ops (settle (run op poll) poll)
