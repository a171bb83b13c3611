-- ===== src/Sync.antt =====
-- src/legacy/shared/synchapi.c: waiting on addresses, slim locks and condition variables for Windows
-- versions that lack them. A section under a spin lock is one atomic step.
pub mod Srw
pub mod Queue
mod Tests
