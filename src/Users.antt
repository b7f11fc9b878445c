-- ===== src/Users.antt =====
-- internal/users: the account entity, and the service over the repository of Auth/Users.antt.
pub mod Entity
pub mod Service
