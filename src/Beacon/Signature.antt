-- ===== src/Beacon/Signature.antt =====
-- Sync committees and their signatures, parachain/pallets/ethereum-beacon-client/src/lib.rs.
pub mod Participation
pub mod Verified
use mathlib.Core.List.{foldl}
use snowbridge.Shared.{
  ℕ, ◌+◌, ◌*◌, ◌/◌, ◌%◌, ◌^◌, Bool, true, false, List, [], ◌∷◌, ◌++◌, take, length, leb, ◌==◌,
  if◌then◌else◌,
}
use snowbridge.Shared.Bytes.{Bytes, H256, h256_bytes, from_be}
use snowbridge.Shared.Outcome.{Result, ok, err, ensure, map_err, ◌>>=◌, ◌>>◌}
use snowbridge.Beacon.Types.{
  Root, Domain, ForkVersion, Fork, ForkVersions, PublicKey, SyncCommittee, BeaconHeader, ForkData,
  SigningData,
}
use snowbridge.Beacon.Preset.{Preset, domain_sync_committee}
use snowbridge.Beacon.Crates.{Crates, AmclError, invalid_point, other_amcl}
use snowbridge.Beacon.Merkleization.{
  hash_tree_root_beacon_header, hash_tree_root_sync_committee, hash_tree_root_fork_data,
  hash_tree_root_signing_data,
}
use snowbridge.Beacon.Branch.{is_valid_merkle_branch}
use snowbridge.Beacon.Store.{
  Config, Client, Error, committee_at, sync_committee_missing,
  sync_committee_participants_not_supermajority, invalid_sync_committee_merkle_proof,
  invalid_header_merkle_proof, sync_committee_hash_tree_root_failed,
  fork_data_hash_tree_root_failed, header_hash_tree_root_failed, signing_root_hash_tree_root_failed,
  invalid_signature, invalid_signature_point, invalid_aggregate_public_keys,
  signature_verification_failed,
}

abbrev pub Checked : Type 0 → Type 0
Checked A = Result Error A

unfoldable pub compute_epoch_at_slot : ℕ → ℕ → ℕ
compute_epoch_at_slot signature_slot slots_per_epoch = signature_slot / slots_per_epoch

unfoldable pub compute_current_sync_period : Preset → ℕ → ℕ
compute_current_sync_period p slot = slot / p.slots_per_epoch / p.epochs_per_sync_committee_period

unfoldable pub compute_fork_version : ForkVersions → ℕ → ForkVersion
compute_fork_version versions epoch =
    if leb versions.bellatrix.epoch epoch
    then versions.bellatrix.version
    else if leb versions.altair.epoch epoch
    then versions.altair.version
    else versions.genesis.version

-- The sum of the bits, on u64.
unfoldable pub get_sync_committee_sum : List ℕ → ℕ
get_sync_committee_sum = foldl (λ acc x. (acc + x) % 2 ^ 64) 0

unfoldable pub sync_committee_participation_is_supermajority : List ℕ → Checked Unit
sync_committee_participation_is_supermajority bits =
    ensure (leb (length bits % 2 ^ 64 * 2 % 2 ^ 64) (get_sync_committee_sum bits * 3 % 2 ^ 64))
      sync_committee_participants_not_supermajority

-- The public keys of the members that took part: the loop over the zipped lists.
unfoldable pub participants : List ℕ → List PublicKey → List PublicKey
participants [] keys = []
participants (bit ∷ bits) [] = []
participants (bit ∷ bits) (key ∷ keys) =
    let rest = participants bits keys in if bit == 1 then key ∷ rest else rest

unfoldable pub get_sync_committee_for_period : Client → ℕ → Checked SyncCommittee
get_sync_committee_for_period s period =
    if length (SyncCommittee.pubkeys (committee_at s period)) == 0
    then err sync_committee_missing
    else ok (committee_at s period)

key_error : AmclError → Error
key_error invalid_point = invalid_signature_point
key_error (other_amcl e) = invalid_signature

module _ (crates : Crates) where
  open crates use {
    sha2_256, Signature, BlsPublicKey, signature_from_bytes, from_signature, from_bytes_unchecked,
    into_aggregate, fast_aggregate_verify_pre_aggregated,
  }

  -- `pubkeys.iter().map(..).collect::<Result<Vec<_>, _>>()`
  collect_keys : List PublicKey → Result AmclError (List BlsPublicKey)
  collect_keys [] = ok []
  collect_keys (k ∷ ks) = do
    key ← from_bytes_unchecked k.key
    keys ← collect_keys ks
    ok (key ∷ keys)

  point_keys : List PublicKey → Checked (List BlsPublicKey)
  unfolding collect_keys key_error
  point_keys pubkeys = elim (collect_keys pubkeys) [ ok keys ↦ ok keys | err e ↦ err (key_error e) ]

  unfoldable pub bls_fast_aggregate_verify : List PublicKey → H256 → Bytes → Checked Unit
  unfolding point_keys
  bls_fast_aggregate_verify pubkeys message signature = do
    sig ← map_err (signature_from_bytes signature) invalid_signature
    public_keys ← point_keys pubkeys
    agg_pub_key ← map_err (into_aggregate public_keys) invalid_aggregate_public_keys
    ensure
        (fast_aggregate_verify_pre_aggregated (from_signature sig) (h256_bytes message) agg_pub_key)
        signature_verification_failed

  unfoldable pub compute_fork_data_root : ForkVersion → Root → Checked Root
  compute_fork_data_root current_version genesis_validators_root =
      map_err
        (hash_tree_root_fork_data crates (record {
          current_version = current_version;
          genesis_validators_root = h256_bytes genesis_validators_root;
        }))
        fork_data_hash_tree_root_failed

  unfoldable pub compute_domain : Bytes → ForkVersion → Root → Checked Domain
  compute_domain domain_type fork_version genesis_validators_root = do
    fork_data_root ← compute_fork_data_root fork_version genesis_validators_root
    ok (from_be 0 (domain_type ++ take 28 (h256_bytes fork_data_root)))

  unfoldable pub compute_signing_root : BeaconHeader → Domain → Checked Root
  compute_signing_root header domain = do
    header_root ← map_err (hash_tree_root_beacon_header crates header) header_hash_tree_root_failed
    map_err
        (hash_tree_root_signing_data crates (record { object_root = header_root; domain = domain }))
        signing_root_hash_tree_root_failed

  unfoldable pub verify_header : H256 → List H256 → H256 → ℕ → ℕ → Checked Unit
  verify_header block_root proof_branch attested_header_state_root depth index =
      ensure
        (is_valid_merkle_branch sha2_256 block_root proof_branch depth index
          attested_header_state_root)
        invalid_header_merkle_proof

  unfoldable pub verify_sync_committee : ℕ → SyncCommittee → List H256 → H256 → ℕ → ℕ → Checked Unit
  verify_sync_committee sync_committee_size committee branch header_state_root depth index = do
    root ←
        map_err (hash_tree_root_sync_committee crates sync_committee_size committee)
          sync_committee_hash_tree_root_failed
    ensure (is_valid_merkle_branch sha2_256 root branch depth index header_state_root)
        invalid_sync_committee_merkle_proof

unfoldable pub verify_signed_header :
    Config → List ℕ → Bytes → List PublicKey → BeaconHeader → H256 → ℕ → Checked Unit
verify_signed_header c bits signature pubkeys header validators_root signature_slot = do
  domain ←
      compute_domain c.crates domain_sync_committee
        (compute_fork_version c.fork_versions
          (compute_epoch_at_slot signature_slot c.preset.slots_per_epoch))
        validators_root
  signing_root ← compute_signing_root c.crates header domain
  bls_fast_aggregate_verify c.crates (participants bits pubkeys) signing_root signature

-- `get_sync_committee_for_period`, `ValidatorsRoot::get` and `verify_signed_header`, which the two
-- updates of the finalized header call one after the other.
unfoldable pub verify_signed_by_period :
    Config → Client → ℕ → List ℕ → Bytes → BeaconHeader → ℕ → Checked Unit
verify_signed_by_period c s period bits signature header signature_slot = do
  committee ← get_sync_committee_for_period s period
  verify_signed_header c bits signature (SyncCommittee.pubkeys committee) header s.validators_root
      signature_slot
