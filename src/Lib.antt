-- ===== src/Lib.antt =====
-- The parachain side of Snowbridge: the basic channels that carry messages between Ethereum and the
-- parachain, the Ethereum beacon client and the Ethereum light client that verify what comes in, and
-- the Merkle trees and receipts that proofs are about.
--
-- The parts, and the files that model them. Paths are from the root of the repository.
--   Shared: numbers, lists, byte strings, `Result`, calls with storage, storage maps.
--   Merkle: parachain/pallets/basic-channel/merkle-proof/src/lib.rs. `merkle_root`, `merkle_proof`,
--     `verify_proof`, `merkelize` and `merkelize_row` under their names, over a hash function.
--     Merkle/Row, Merkle/Climb, Merkle/RoundTrip and Merkle/Binding prove.
--   Outbound: parachain/pallets/basic-channel/src/outbound/mod.rs. `Channel` is the storage with
--     the events, the digest and the off-chain index; `submit`, `commit`, `on_idle`,
--     `average_payload_size`.
--   Rpc: parachain/pallets/basic-channel/rpc/src/lib.rs, `get_merkle_proof`.
--   Core: parachain/primitives/core/src, the messages and the interface of a verifier.
--   Inbound: parachain/pallets/basic-channel/src/inbound/mod.rs; Inbound/Decode: envelope.rs there.
--   Dispatch: parachain/pallets/dispatch/src/lib.rs; Dispatch/Sequences: messages one after another.
--   Ethabi, Ethereum: parachain/primitives/ethereum/src: log.rs, receipt.rs, mpt.rs, and
--     `apply_merkle_proof` and `check_receipt_proof` of header.rs, which
--     parachain/primitives/beacon/src/lib.rs has too. Ethereum/Header: the rest of header.rs.
--     Ethereum/Difficulty: difficulty.rs. Ethereum/Ethash: ethashproof.rs and ethashdata.rs, with
--     the cache of DAG caches in Ethereum/Ethash/Cache.
--   Light: parachain/pallets/ethereum-light-client/src/lib.rs. `LightClient` is the storage and
--     `Setup` the configuration; Light/Validate: `validate_header_to_import`,
--     over a prover of work that `with_ethash` takes from Ethereum/Ethash; Light/Import:
--     `import_validated_header`; Light/Prune: `prune_header_range`; Light/Initialize:
--     `initialize_storage` and the genesis; Light/Verify: the verifier; Light/Calls: the
--     extrinsics. Light/Chain has the ancestors of a header.
--   Bridge: either client under the inbound channel, with the calls of both in any order.
--   Beacon: parachain/pallets/ethereum-beacon-client/src. Beacon/Types:
--     parachain/primitives/beacon/src/lib.rs; Beacon/Preset: config.rs and config/; Beacon/Ssz:
--     ssz.rs; Beacon/Merkleization: merkleization.rs; Beacon/Store, Beacon/Branch,
--     Beacon/Signature, Beacon/Client and Beacon/Receipts: lib.rs. `Client` is the storage.
--     Beacon/Signature/Verified says what a signature shows in the terms of `milagro_bls`.
--   Examples: the theorems at concrete inputs.
--
-- How they interact: the outbound channel stores the leaves of a batch under its Merkle root, the
-- RPC method reads them and proves a leaf; the beacon client and the light client are each a
-- `Verifier`, which the inbound channel takes as a parameter; what the inbound channel accepts goes
-- to the dispatch pallet.
--
-- Numbers are natural numbers; where the code computes on u64, u32 or usize, the wrap-around is
-- written out, except where a quotient or a bound in the code keeps the value in range. The largest
-- `usize` is a parameter of the channels and of the RPC method; the provers of work take the 32
-- bits of wasm. A hash is the number that its bytes spell in big-endian order. `#[transactional]`
-- is a function on calls that undoes the writes of an error. The clock is an argument.
--
-- A panic of `U256` arithmetic in the light client is an error of its own, `arithmetic_panic`; in
-- the calculation of a difficulty it is the fault `overflow`.
--
-- Fuel: the loop over the rows of a Merkle tree has the number of leaves; each row is shorter than
-- the one below it, and the construction is shown to return. The search of the light client for
-- the ancestor at the number of the finalized block has two more than the number of the parent,
-- which is shown to be enough where the headers are linked. The loop of `initialize_storage` that
-- marks ancestors has one more than the headers that are given; at the genesis it is shown to end.
--
-- Parameters: the hash functions, `ethabi`, `rlp`, the SCALE codec, `ssz_rs`, `milagro_bls`,
-- `ethash`, of which `hashimoto_with_hasher` is the tree of its look-ups, the weights and the
-- runtime's calls, each a field of a configuration or an argument. What a theorem needs of one is
-- among its hypotheses: a bound on a hash, a decoder that undoes its encoder, or the number of bits
-- of a vector. A theorem that rests on a hash without collisions says among which inputs of the run
-- the collision is that it gives otherwise.
--
-- Not modelled: the XCM adapters, the runtimes, the node, tools and tests, weights, the relayer and
-- the contracts.
pub mod Shared
pub mod Light
pub mod Bridge
pub mod Merkle
pub mod Ethabi
pub mod Outbound
pub mod Rpc
pub mod Ethereum
pub mod Core
pub mod Beacon
pub mod Inbound
pub mod Dispatch
pub mod Examples
