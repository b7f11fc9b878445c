-- ===== src/Event.antt =====
-- internal/event: the event bus and its transactional outbox.
pub mod Outbox
pub mod Bus
pub mod Drain
