-- ===== src/OrderMap.antt =====
-- include/tick/flat_order_map.hpp: the table of order references, linear probing with backward shift.
pub mod Table
pub mod Ring
pub mod Probe
pub mod Found
pub mod Shift
pub mod Move
pub mod Held
pub mod Free
pub mod Erased
pub mod Valid
pub mod Get
pub mod Place
pub mod Grow
pub mod Erase
pub mod Calls
pub mod Refines
pub mod Entries
mod Tests
