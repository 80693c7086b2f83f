-- ===== src/Polls.antt =====
-- backend/internal/polls/polls.go: polls and quizzes. `Poll` is the rows with the statements.
pub mod Poll
pub mod Tally
pub mod Counted
pub mod Service
pub mod Histories
mod Tests
