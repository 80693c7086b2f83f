-- ===== src/SecretChat.antt =====
-- backend/internal/secretchat/secretchat.go: the server's half of the encrypted chats. `Store` is the rows,
-- `Keys` the key directory.
pub mod Store
pub mod Keys
pub mod Handover
pub mod Claims
pub mod Once
pub mod Handed
pub mod Rotation
pub mod Mailbox
pub mod Sessions
pub mod Inbox
pub mod Delivery
mod Tests
