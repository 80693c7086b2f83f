-- ===== src/Calls.antt =====
-- backend/internal/calls: the signalling of voice and video calls. `Party` is a participant, `Call` a call
-- with the statements of the repository, `Service` the operations in front of them; the other modules
-- prove what they keep.
pub mod Party
pub mod Call
pub mod Service
pub mod Cap
pub mod Placed
pub mod Ended
mod Tests
