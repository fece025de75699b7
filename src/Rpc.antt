-- ===== src/Rpc.antt =====
-- The node's RPC method `basicOutboundChannel_getMerkleProof` of
-- parachain/pallets/basic-channel/rpc/src/lib.rs. The off-chain storage is a map from commitment
-- hashes; the largest `usize` of the node, and the SCALE codec of the leaves and of the proof, are
-- the section's parameters.
pub mod Replies
use snowbridge.Shared.{ℕ, ◌+◌, ◌%◌, Option, none, some, List, length, leb, if◌then◌else◌}
use snowbridge.Shared.Bytes.{Bytes, H256}
use snowbridge.Shared.Outcome.{Result, ok, err}
use snowbridge.Shared.Storage.{StorageMap}
use snowbridge.Merkle.{MerkleProof, merkle_proof}

pub data RpcError : Type 0 where
  no_leaves_found could_not_decode_leaves leaf_index_out_of_range : RpcError

module _ (usize_max : ℕ) (keccak : Bytes → H256) (decode_leaves : Bytes → Option (List Bytes))
    (encode_proof : MerkleProof → Bytes) where
  -- The reply that carries a proof; `none` is the panic of `merkle_proof`.
  proof_reply : Option MerkleProof → Option (Result RpcError Bytes)
  proof_reply none = none
  proof_reply (some proof) = some (ok (encode_proof proof))

  -- The range is checked after `leaf_index as usize`, the proof is made for the index itself.
  reply_for_leaves : Option (List Bytes) → ℕ → Option (Result RpcError Bytes)
  reply_for_leaves none leaf_index = some (err could_not_decode_leaves)
  reply_for_leaves (some leaves) leaf_index =
      if leb (length leaves) (leaf_index % (usize_max + 1))
      then some (err leaf_index_out_of_range)
      else proof_reply (merkle_proof keccak leaves leaf_index)

  reply_for_entry : Option Bytes → ℕ → Option (Result RpcError Bytes)
  reply_for_entry none leaf_index = some (err no_leaves_found)
  reply_for_entry (some encoded_leaves) leaf_index =
      reply_for_leaves (decode_leaves encoded_leaves) leaf_index

  unfoldable pub get_merkle_proof : StorageMap Bytes → H256 → ℕ → Option (Result RpcError Bytes)
  unfolding reply_for_entry reply_for_leaves proof_reply
  get_merkle_proof storage commitment_hash leaf_index =
      reply_for_entry (storage commitment_hash) leaf_index
