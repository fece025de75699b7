-- ===== src/Outbound.antt =====
-- The outbound basic channel, parachain/pallets/basic-channel/src/outbound/mod.rs. The storage of
-- the pallet, its events, the log of the block's digest and the off-chain index are one record.
-- The runtime's hash, the encoders of other crates and the weights are fields of `Config`.
pub mod Submit
pub mod Commit
pub mod Order
pub mod Served
use mathlib.Core.List.{foldl}
use snowbridge.Shared.{
  ℕ, ◌+◌, ◌-◌, ◌/◌, ◌%◌, ◌^◌, Option, none, some, List, [], ◌∷◌, ◌++◌, map, ltb, leb, if◌then◌else◌,
  length, min,
}
use snowbridge.Shared.Bytes.{Bytes, H256}
use snowbridge.Shared.Outcome.{Result, ok, err, ok_or}
use snowbridge.Shared.Exec.{Exec, lift, gets, modify, require, ◌>>=◌, ◌>>◌}
use snowbridge.Shared.Storage.{StorageMap, insert, value_or}
use snowbridge.Ethabi.{Token, Tokens}
use snowbridge.Merkle.{merkle_root}

pub record Message : Type 0 where
  pub source_id : ℕ
  pub nonce : ℕ  -- u64
  pub payload : Bytes

pub record Weight : Type 0 where
  pub ref_time : ℕ
  pub proof_size : ℕ

pub record Config : Type 0 where
  pub hashing : Bytes → H256
  pub encode_source : ℕ → Bytes
  pub ethabi_encode : Tokens → Bytes
  pub encode_leaves : List Bytes → Bytes
  pub max_message_payload_size : ℕ
  pub max_messages_per_commit : ℕ
  pub on_commit : ℕ → ℕ → Weight
  pub on_commit_no_messages : Weight
  pub usize_max : ℕ

pub data Event : Type 0 where
  message_accepted : ℕ → Event
  committed : H256 → List Message → Event

pub data Error : Type 0 where
  payload_too_large queue_size_limit_reached overflow : Error

-- `AuxiliaryDigestItem` of parachain/primitives/core/src/types.rs.
pub data AuxiliaryDigestItem : Type 0 where
  commitment : H256 → AuxiliaryDigestItem

pub record Channel : Type 0 where
  pub interval : ℕ
  pub message_queue : List Message
  pub nonce : StorageMap ℕ
  pub events : List Event
  pub digest : List AuxiliaryDigestItem
  pub offchain : StorageMap Bytes

-- `impl Into<Token> for Message`
abbrev pub message_token : Config → Message → Token
message_token c m = Token.tuple (
    Tokens.token (Token.bytes (c.encode_source m.source_id))
      (Tokens.token (Token.uint m.nonce) (Tokens.token (Token.bytes m.payload) Tokens.end)))

abbrev pub minimum_weight_remain_in_block : Weight
minimum_weight_remain_in_block = record { ref_time = 10_000_000_000; proof_size = 0 }

-- `Weight::saturating_sub` of frame_support.
abbrev pub weight_sub : Weight → Weight → Weight
weight_sub a b = record {
  ref_time = a.ref_time - b.ref_time;
  proof_size = a.proof_size - b.proof_size;
}

-- `GenesisConfig::build` over empty storage.
abbrev pub genesis : ℕ → Channel
genesis interval = record {
  interval = interval;
  message_queue = [];
  nonce = λ source. none;
  events = [];
  digest = [];
  offchain = λ key. none;
}

abbrev pub deposit_event : Event → Channel → Channel
deposit_event e s = record s { events = s.events ++ e ∷ [] }

-- `Nonce::get`, a value query.
abbrev pub nonce_of : Channel → ℕ → ℕ
nonce_of s source = value_or 0 (s.nonce source)

-- `checked_add(1)` on u64.
abbrev pub checked_add_one : ℕ → Option ℕ
checked_add_one n = if ltb (n + 1) (2 ^ 64) then some (n + 1) else none

-- `Vec<u8>` into `BoundedVec<u8, MaxMessagePayloadSize>`.
abbrev pub bounded_payload : Config → Bytes → Option Bytes
bounded_payload c payload =
    if leb (length payload) c.max_message_payload_size then some payload else none

-- `MessageQueue::try_append`
abbrev pub try_append : Config → Message → Exec Channel Error Unit
try_append c m s =
    if ltb (length s.message_queue) c.max_messages_per_commit
    then (ok tt, record s { message_queue = s.message_queue ++ m ∷ [] })
    else (err queue_size_limit_reached, s)

unfoldable pub submit : Config → ℕ → Bytes → Exec Channel Error Unit
submit c source_id payload = do
  queued ← gets (λ s. length s.message_queue)
  require (ltb queued c.max_messages_per_commit) queue_size_limit_reached
  message_payload ← lift (ok_or (bounded_payload c payload) payload_too_large)
  nonce ← gets (λ s. nonce_of s source_id)
  next_nonce ← lift (ok_or (checked_add_one nonce) overflow)
  try_append c (record { source_id = source_id; nonce = nonce; payload = message_payload })
  modify (deposit_event (message_accepted nonce))
  modify (λ s. record s { nonce = insert source_id next_nonce s.nonce })

-- The sum wraps at the width of `usize`.
abbrev pub payload_sum : Config → List Message → ℕ
payload_sum c = foldl (λ acc m. (acc + length m.payload) % (c.usize_max + 1)) 0

unfoldable pub average_payload_size : Config → List Message → ℕ
average_payload_size c messages =
    min (payload_sum c messages / length messages + 1) c.usize_max % 2 ^ 32

-- The leaves of the tree: each message as an `ethabi` tuple.
abbrev pub eth_messages : Config → List Message → List Bytes
eth_messages c = map (λ m. c.ethabi_encode (Tokens.token (message_token c m) Tokens.end))

-- What `commit` does once it has taken a queue.
commit_queue : Config → List Message → Channel → Weight × Channel
commit_queue c [] s = (c.on_commit_no_messages, s)
commit_queue c (m ∷ ms) s =
    let queue = m ∷ ms in
    let leaves = eth_messages c queue in
    let commitment_hash = merkle_root c.hashing leaves in
    let logged = record s { digest = s.digest ++ commitment commitment_hash ∷ [] } in
    let told = deposit_event (committed commitment_hash queue) logged in
    (
      c.on_commit (length queue % 2 ^ 32) (average_payload_size c queue),
      record told { offchain = insert commitment_hash (c.encode_leaves leaves) told.offchain },
    )

unfoldable pub commit : Config → Weight → Channel → Weight × Channel
unfolding commit_queue
commit c total_weight s = commit_queue c s.message_queue (record s { message_queue = [] })

unfoldable pub on_idle : Config → ℕ → Weight → Channel → Weight × Channel
on_idle c block total_weight s =
    let weight_remaining =
      weight_sub total_weight (c.on_commit c.max_messages_per_commit c.max_message_payload_size) in
    if leb weight_remaining.ref_time minimum_weight_remain_in_block.ref_time
    then (total_weight, s)
    else commit c total_weight s
