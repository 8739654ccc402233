-- ===== src/Recovery.antt =====
-- include/tick/recovery.hpp: asking for missing sequences, and answering from a ring of recent ones.
pub mod Request
pub mod Store
pub mod Answers
pub mod Client
pub mod Bounds
pub mod Calls
mod Tests
