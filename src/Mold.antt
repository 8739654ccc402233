-- ===== src/Mold.antt =====
-- include/tick/moldudp64.hpp: the framing of messages in a datagram.
pub mod Frame
pub mod View
pub mod Builder
pub mod Blocks
pub mod Built
pub mod RoundTrip
mod Tests
