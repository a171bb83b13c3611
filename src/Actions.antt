-- ===== src/Actions.antt =====
-- src/common/win32actions.c: what is done with an infected file. The calls of the system and of
-- libclamav are parameters.
pub mod Source
pub mod Dest
pub mod Quarantine
pub mod Safety
mod Tests
