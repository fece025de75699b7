-- ===== src/Beacon.antt =====
-- The Ethereum beacon client, parachain/pallets/ethereum-beacon-client/src, with the types of
-- parachain/primitives/beacon/src/lib.rs.
pub mod Types
pub mod Preset
pub mod Ssz
pub mod Crates
pub mod Merkleization
pub mod Branch
pub mod Store
pub mod Signature
pub mod Client
pub mod Receipts
