-- ===== src/Messages.antt =====
-- backend/internal/messaging: the messages of a chat and the sync log. `Message` and `Store` are the rows,
-- `Statements` and `Reading` the methods of the repository.
pub mod Message
pub mod Store
pub mod Statements
pub mod Reading
pub mod Log
pub mod Operations
pub mod Sequence
pub mod Numbered
pub mod Histories
pub mod Sync
pub mod Changes
pub mod Retry
pub mod Clearing
pub mod Service
pub mod Rights
mod Tests
