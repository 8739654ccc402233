-- ===== src/Book.antt =====
-- include/tick/book_side.hpp, include/tick/symbol_table.hpp and include/tick/book_builder.hpp: the books
-- that the feed describes.
pub mod Side
pub mod Symbols
pub mod Directory
pub mod State
pub mod Builder
pub mod Handlers
pub mod Live
pub mod Feed
pub mod Sorted
pub mod Levels
pub mod Removal
pub mod Runs
pub mod Samples
pub mod Ledger
pub mod Reference
pub mod Laws
pub mod Places
pub mod Pointers
pub mod Agrees
pub mod Changes
pub mod Room
pub mod Refines
pub mod Queries
pub mod Top
pub mod Unique
pub mod Digest
mod Tests
