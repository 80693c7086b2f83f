-- ===== src/Auth.antt =====
-- backend/internal/auth: accounts. `Phone` is the form that a telephone number has below the API.
pub mod Phone
pub mod Accounts
pub mod Sessions
pub mod Tokens
pub mod Middleware
pub mod Challenges
pub mod Login
