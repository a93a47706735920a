-- ===== src/Sessions.antt =====
-- src/runtime/sessions: replayStore.ts and lifecycle.ts.
pub mod ReplayStore
pub mod Lifecycle
