-- ===== src/Beacon/Signature/Verified.antt =====
-- What a signature that is verified has shown, in the terms of the crates that
-- parachain/pallets/ethereum-beacon-client/src/lib.rs calls.
use snowbridge.Shared.{
  ℕ, ◌/◌, ◌<◌, ◌≤◌, Bool, true, false, some, List, [], ◌∷◌, ◌++◌, map, take, ◌≡◌, ◌≢◌, ◌⊎◌, inl,
  inr, refl, sym, ◌∙◌, ap, arith, Option-cases,
}
use snowbridge.Shared.Bytes.{Bytes, H256, h256_bytes, from_be}
use snowbridge.Shared.Outcome.{ok, Result-cases, ok-injective}
use snowbridge.Beacon.Types.{
  ForkVersion, ForkVersions, PublicKey, SyncCommittee, BeaconHeader, ForkData, SigningData,
}
use snowbridge.Beacon.Preset.{domain_sync_committee}
use snowbridge.Beacon.Crates.{Crates}
use snowbridge.Beacon.Merkleization.{
  bit_value, hash_tree_root_beacon_header, hash_tree_root_fork_data, hash_tree_root_signing_data,
}
use snowbridge.Beacon.Store.{Config, Client}
use snowbridge.Beacon.Signature.{
  participants, compute_fork_version, compute_epoch_at_slot, compute_domain, compute_fork_data_root,
  compute_signing_root, collect_keys, point_keys, bls_fast_aggregate_verify, verify_signed_header,
  get_sync_committee_for_period,
}

-- The members of a committee whose bit is set.
abbrev pub selected : List Bool → List PublicKey → List PublicKey
selected [] keys = []
selected (bit ∷ bits) [] = []
selected (true ∷ bits) (key ∷ keys) = key ∷ selected bits keys
selected (false ∷ bits) (key ∷ keys) = selected bits keys

pub participants-selected :
    (bits : List Bool) (keys : List PublicKey)
    → participants (map bit_value bits) keys ≡ selected bits keys
unfolding participants bit_value
participants-selected [] keys = refl
participants-selected (bit ∷ bits) [] = refl
participants-selected (true ∷ bits) (key ∷ keys) =
    ap (λ ks. key ∷ ks) (participants-selected bits keys)
participants-selected (false ∷ bits) (key ∷ keys) = participants-selected bits keys

-- The version of the fork that an epoch is in.
abbrev pub IsForkVersion : ForkVersions → ℕ → ForkVersion → Type 0
IsForkVersion forks epoch version =
    ((forks.bellatrix.epoch ≤ epoch) × (version ≡ forks.bellatrix.version))
    ⊎ ((epoch < forks.bellatrix.epoch)
        × (forks.altair.epoch ≤ epoch)
        × (version ≡ forks.altair.version))
    ⊎ ((epoch < forks.bellatrix.epoch)
        × (epoch < forks.altair.epoch)
        × (version ≡ forks.genesis.version))

pub compute_fork_version-IsForkVersion :
    (forks : ForkVersions) (epoch : ℕ)
    → IsForkVersion forks epoch (compute_fork_version forks epoch)
unfolding compute_fork_version
compute_fork_version-IsForkVersion forks epoch = ground arith

-- The aggregate of the keys signed the header: BLS accepts the signature for the root of the
-- header in the domain of sync committees, under the fork of the signature's slot and the root of
-- the validators.
abbrev pub IsSignature : Config → List PublicKey → Bytes → BeaconHeader → H256 → ℕ → Type 0
IsSignature c keys signature header validators_root signature_slot =
    (version : ForkVersion) × (fork_data_root : H256) × (header_root : H256) × (signing_root : H256)
    × (sig : c.crates.Signature) × (public_keys : List c.crates.BlsPublicKey)
    × (aggregate : c.crates.AggregatePublicKey) × IsForkVersion c.fork_versions
        (signature_slot / c.preset.slots_per_epoch) version
    × (hash_tree_root_fork_data c.crates (record {
      current_version = version;
      genesis_validators_root = h256_bytes validators_root;
    })
        ≡ ok fork_data_root)
    × (hash_tree_root_beacon_header c.crates header ≡ ok header_root)
    × (hash_tree_root_signing_data c.crates (record {
      object_root = header_root;
      domain = from_be 0 (domain_sync_committee ++ take 28 (h256_bytes fork_data_root));
    })
        ≡ ok signing_root)
    × (c.crates.signature_from_bytes signature ≡ ok sig)
    × (map (λ k. c.crates.from_bytes_unchecked (PublicKey.key k)) keys
        ≡ map (λ k. ok k) public_keys)
    × (c.crates.into_aggregate public_keys ≡ ok aggregate)
    × (c.crates.fast_aggregate_verify_pre_aggregated (c.crates.from_signature sig)
          (h256_bytes signing_root) aggregate
        ≡ true)

-- A committee that is found is stored, and has members.
pub get_sync_committee_for_period-stored :
    (s : Client) (period : ℕ) {committee : SyncCommittee}
    → get_sync_committee_for_period s period ≡ ok committee
    → (s.sync_committees period ≡ some committee) × (committee.pubkeys ≢ [])
unfolding get_sync_committee_for_period
get_sync_committee_for_period-stored s period h = elim (Option-cases (s.sync_committees period)) [
  | inl e ↦ absurd (ground arith)
  | inr (found, e) ↦ (ground arith, λ empty. ground arith)
]

module _ (crates : Crates) where
  collect_keys-map :
      (keys : List PublicKey) {public_keys : List crates.BlsPublicKey}
      → collect_keys crates keys ≡ ok public_keys
      → map (λ k. crates.from_bytes_unchecked (PublicKey.key k)) keys ≡ map (λ k. ok k) public_keys
  unfolding collect_keys
  collect_keys-map [] h = ap (map (λ k. ok k)) (ok-injective h)
  collect_keys-map (k ∷ keys) {public_keys} h =
      elim (Result-cases (crates.from_bytes_unchecked k.key)) [
        | inr (x, e) ↦ absurd (ground arith)
        | inl (key, e) ↦ elim (Result-cases (collect_keys crates keys)) [
          | inr (x, f) ↦ absurd (ground arith)
          | inl (rest, f) ↦
              let same : key ∷ rest ≡ public_keys = ground arith in
              rw e (ap (λ rs. ok key ∷ rs) (collect_keys-map keys f)) ∙ ap (map (λ k. ok k)) same
        ]
      ]

  bls_fast_aggregate_verify-keys :
      (keys : List PublicKey) (message : H256) (signature : Bytes)
      → bls_fast_aggregate_verify crates keys message signature ≡ ok tt
      → (sig : crates.Signature) × (public_keys : List crates.BlsPublicKey)
        × (aggregate : crates.AggregatePublicKey) × (crates.signature_from_bytes signature ≡ ok sig)
        × (collect_keys crates keys ≡ ok public_keys)
        × (crates.into_aggregate public_keys ≡ ok aggregate)
        × (crates.fast_aggregate_verify_pre_aggregated
              (crates.from_signature sig)
              (h256_bytes message)
              aggregate
            ≡ true)
  unfolding bls_fast_aggregate_verify point_keys
  bls_fast_aggregate_verify-keys keys message signature h =
      elim (Result-cases (crates.signature_from_bytes signature)) [
        | inr (x, e) ↦ absurd (ground arith)
        | inl (sig, e) ↦ elim (Result-cases (collect_keys crates keys)) [
          | inr (x, f) ↦ absurd (ground arith)
          | inl (public_keys, f) ↦ elim (Result-cases (crates.into_aggregate public_keys)) [
            | inr (x, g) ↦ absurd (ground arith)
            | inl (aggregate, g) ↦ (sig, public_keys, aggregate, e, f, g, ground arith)
          ]
        ]
      ]

-- A header whose signature is verified was signed by the aggregate of the keys whose bit is set.
pub verify_signed_header-IsSignature :
    (c : Config) (bits : List Bool) (signature : Bytes) (keys : List PublicKey)
    (header : BeaconHeader) (validators_root : H256) (signature_slot : ℕ)
    → verify_signed_header c
        (map bit_value bits)
        signature
        keys
        header
        validators_root
        signature_slot
      ≡ ok tt
    → IsSignature c (selected bits keys) signature header validators_root signature_slot
unfolding verify_signed_header compute_domain compute_fork_data_root compute_signing_root
    compute_epoch_at_slot
verify_signed_header-IsSignature c bits signature keys header validators_root signature_slot h =
    let version =
      compute_fork_version c.fork_versions (signature_slot / c.preset.slots_per_epoch) in
    let fork_data : ForkData = record {
      current_version = version;
      genesis_validators_root = h256_bytes validators_root;
    } in
    elim (Result-cases (hash_tree_root_fork_data c.crates fork_data)) [
      | inr (x, e) ↦ absurd (ground arith)
      | inl (fork_data_root, e) ↦
          elim (Result-cases (hash_tree_root_beacon_header c.crates header)) [
            | inr (x, f) ↦ absurd (ground arith)
            | inl (header_root, f) ↦
                let signed : SigningData = record {
                  object_root = header_root;
                  domain = from_be 0 (domain_sync_committee ++ take 28 (h256_bytes fork_data_root));
                } in
                elim (Result-cases (hash_tree_root_signing_data c.crates signed)) [
                  | inr (x, g) ↦ absurd (ground arith)
                  | inl (signing_root, g) ↦
                      let verified : bls_fast_aggregate_verify c.crates
                            (participants (map bit_value bits) keys) signing_root signature
                          ≡ ok tt =
                        ground arith in
                      let (sig, public_keys, aggregate, s, k, a, v) =
                        bls_fast_aggregate_verify-keys c.crates _ signing_root signature verified in
                      (
                        version,
                        fork_data_root,
                        header_root,
                        signing_root,
                        sig,
                        public_keys,
                        aggregate,
                        compute_fork_version-IsForkVersion c.fork_versions _,
                        e,
                        f,
                        g,
                        s,
                        collect_keys-map c.crates (selected bits keys) (
                            ap (collect_keys c.crates) (sym (participants-selected bits keys)) ∙ k),
                        a,
                        v,
                      )
                ]
          ]
    ]
