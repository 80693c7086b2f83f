-- ===== src/Messaging.antt =====
-- backend/internal/messaging: what a member of a chat may do. `Permissions` is the vocabulary and
-- the layers of models.go, `Context` the snapshot that every administrative action is checked
-- against (repository.go).
pub mod Permissions
pub mod Context
mod Tests
