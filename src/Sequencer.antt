-- ===== src/Sequencer.antt =====
-- include/tick/sequencer.hpp: two lossy copies of a feed become one ordered stream. The children
-- hold the state, the moves of the window, the entry points and the clock, and then the proofs.
pub mod State
pub mod Window
pub mod Ingest
pub mod Poll
pub mod Invariant
pub mod Steps
pub mod Front
pub mod Relabel
pub mod Valid
pub mod Hold
pub mod Skip
pub mod Accept
pub mod Missing
pub mod Clock
pub mod Events
pub mod Run
pub mod Construct
pub mod Cover
pub mod Order
pub mod Policy
pub mod Copies
mod Tests
