-- ===== src/Risk.antt =====
-- include/tick/risk.hpp, with `TopOfBook` of include/tick/book_builder.hpp: the gate before the wire.
pub mod Signed
pub mod State
pub mod Rate
pub mod Table
pub mod Check
pub mod Engine
pub mod Passes
pub mod Gate
pub mod Kill
mod Tests
