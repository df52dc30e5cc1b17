-- ===== src/Sessions.antt =====
-- broker/lib/sessions and broker/sesson.go: the state that outlives a client's connection.
pub mod Session
pub mod MemProvider
pub mod GetSession
