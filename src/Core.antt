-- ===== src/Core.antt =====
-- parachain/primitives/core/src/types.rs and the interfaces of parachain/primitives/core/src/lib.rs.
use snowbridge.Shared.{ℕ, List}
use snowbridge.Shared.Bytes.{Bytes, H160, H256}
use snowbridge.Shared.Outcome.{Result}
use snowbridge.Ethereum.Log.{Log}

pub record MessageId : Type 0 where
  pub account : H160
  pub nonce : ℕ  -- u64

pub record Proof : Type 0 where
  pub block_hash : H256
  pub tx_index : ℕ
  pub proof_keys : List Bytes
  pub proof_values : List Bytes

pub record Message : Type 0 where
  pub payload : Bytes
  pub proof : Proof

-- The trait `Verifier`, over the errors of the pallet that implements it.
pub record Verifier (E : Type 0) : Type 0 where
  pub verify : Message → Result E (Log × ℕ)

-- The origin of a call, `RawOrigin` of frame_system.
pub data Origin : Type 0 where
  root : Origin
  signed : H256 → Origin
  unsigned : Origin
