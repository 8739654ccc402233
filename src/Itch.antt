-- ===== src/Itch.antt =====
-- include/tick/itch.hpp: the messages that the feed carries, their lengths and the fields that all
-- of them share. include/tick/itch_decoder.hpp: the two decoders. A character is its code.
pub mod Lengths
pub mod Event
pub mod ZeroCopy
pub mod Normalize
pub mod Decoder
pub mod Window
pub mod Reads
pub mod Equivalence
pub mod Counts
pub mod Writer
pub mod Fields
pub mod Loads
pub mod Message
pub mod Written
pub mod Decoded
mod Tests
