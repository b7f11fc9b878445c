-- ===== src/Auth.antt =====
-- internal/auth: device sessions, refresh tokens and the service over them.
pub mod Entity
pub mod Tables
pub mod Repository
pub mod Session
pub mod Tokens
pub mod Reads
pub mod Rotation
pub mod Once
pub mod Calm
pub mod Reuse
pub mod Create
pub mod Users
pub mod Login
pub mod Password
pub mod Admit
pub mod Reset
pub mod Eviction
pub mod Refuse
pub mod Ended
pub mod Cached
pub mod Codes
pub mod Lockout
pub mod Distinct
pub mod Evict
pub mod Limit
pub mod Register
pub mod Accounts
