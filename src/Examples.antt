-- ===== src/Examples.antt =====
-- Test data and examples: the development's theorems at concrete inputs, with toy versions of the
-- hash functions, the codecs and the crates that are parameters of the model.
pub mod Toy
pub mod Trees
pub mod Channels
pub mod Receipts
pub mod Updates
pub mod Client
pub mod Imports
pub mod Deliveries
pub mod Work
