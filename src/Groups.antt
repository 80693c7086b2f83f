-- ===== src/Groups.antt =====
-- backend/internal/groups: who may administer a group or a channel. `Chat` is what the database holds
-- of one chat, `Repository` the statements on it (repository.go, roles.go), `Service` the checks in
-- front of them (service.go, roles.go); the other modules prove what the two keep.
pub mod Chat
pub mod Repository
pub mod Invites
pub mod Service
pub mod Operations
pub mod Gate
pub mod Authority
pub mod Ranks
pub mod Joins
pub mod Final
mod Tests
pub mod Membership
