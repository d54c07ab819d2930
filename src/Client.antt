-- ===== src/Client.antt =====
-- client_impl_t of src/lib/client.cpp and client.hpp: the library that an application calls. Memory
-- has what it protects, State the object and the calls that register regions, Checkpoint and Restart
-- the two phases; the other children prove what the phases guarantee.
pub mod Memory
pub mod State
pub mod Checkpoint
pub mod Restart
pub mod Copy
pub mod RoundTrip
pub mod Restored
pub mod Groups
pub mod Selection
pub mod Request
pub mod Order
mod Tests
