-- ===== src/Ethereum.antt =====
-- The Ethereum primitives of parachain/primitives/ethereum/src: logs, receipts, the nodes of the
-- receipts trie and the check of a receipt proof.
pub mod Rlp
pub mod Log
pub mod Header
pub mod Difficulty
pub mod Ethash
pub mod Receipt
pub mod Mpt
pub mod ReceiptProof
