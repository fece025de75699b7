-- ===== src/Beacon/Client/Accepted.antt =====
-- What it takes for a beacon header to be accepted by a sync committee, or as an ancestor of a
-- finalized one, in parachain/pallets/ethereum-beacon-client/src/lib.rs.
use mathlib.Core.Path.{subst}
use snowbridge.Shared.{
  ℕ, ◌+◌, ◌*◌, ◌/◌, ◌%◌, ◌^◌, ◌≤◌, ◌<◌, Bool, true, some, List, [], ◌∷◌, map, length, length-map,
  ◌≡◌, ◌≢◌, ◌⊎◌, ◌∙◌, arith, inl, inr, Option-cases,
}
use snowbridge.Shared.Bytes.{H256}
use snowbridge.Shared.Outcome.{ok, Result-cases, map_err, ◌>>=◌, ◌>>◌}
use snowbridge.Beacon.Types.{SyncCommittee, BeaconHeader, SyncAggregate}
use snowbridge.Beacon.Merkleization.{get_sync_committee_bits, bit_value}
use snowbridge.Beacon.Branch.{is_valid_merkle_branch}
use snowbridge.Beacon.Store.{Config, Client, invalid_sync_committee_bits}
use snowbridge.Beacon.Signature.{
  compute_current_sync_period, sync_committee_participation_is_supermajority,
  get_sync_committee_for_period, verify_signed_header, verify_signed_by_period, Checked,
}
use snowbridge.Beacon.Signature.Participation.{
  All-bit_value, get_sync_committee_bits-bitvector, supermajority_iff,
}
use snowbridge.Beacon.Signature.Verified.{
  selected, participants-selected, IsSignature, get_sync_committee_for_period-stored,
  verify_signed_header-IsSignature,
}
use snowbridge.Beacon.Client.{ancestry_proof, finalized_at_slot, below_finalized}

-- The header was signed by those members of the committee stored for its period whose bit of the
-- aggregate is set.
abbrev pub IsSigned : Config → Client → BeaconHeader → SyncAggregate → ℕ → Type 0
IsSigned c s header aggregate signature_slot =
    (bits : List Bool) × (committee : SyncCommittee) × (c.crates.bitvector
        c.preset.sync_committee_size aggregate.sync_committee_bits
      ≡ ok bits)
    × (s.sync_committees
          (header.slot / c.preset.slots_per_epoch / c.preset.epochs_per_sync_committee_period)
        ≡ some committee)
    × (committee.pubkeys ≢ [])
    × IsSignature c (selected bits committee.pubkeys) aggregate.sync_committee_signature header
        s.validators_root signature_slot

-- And they are two thirds of the members.
abbrev pub IsSignedByMost : Config → Client → BeaconHeader → SyncAggregate → ℕ → Type 0
IsSignedByMost c s header aggregate signature_slot =
    (signed : IsSigned c s header aggregate signature_slot) × (2 * length signed.1.pubkeys
      ≤ 3 * length (selected signed.0 signed.1.pubkeys))

-- The bits of an aggregate are one for each member of a stored committee, and fewer than 2 ^ 62.
abbrev pub HasBits : Config → Client → SyncAggregate → Type 0
HasBits c s aggregate =
    (bits : List Bool) (period : ℕ) (committee : SyncCommittee)
    → c.crates.bitvector c.preset.sync_committee_size aggregate.sync_committee_bits ≡ ok bits
    → s.sync_committees period ≡ some committee
    → (length bits ≡ length committee.pubkeys) × (length bits < 2 ^ 62)

-- A slot of an ancestor of a stored finalized header: without a branch, it is that header's own;
-- with one, the branch leads to the stored root of its block roots, which is not zero, at the place of the slot.
abbrev pub IsFinalizedAncestor : Config → Client → List H256 → ℕ → H256 → H256 → Type 0
IsFinalizedAncestor c s branch slot root header_root =
    ((branch ≡ [])
      × (header : BeaconHeader) × (s.finalized_beacon_headers root ≡ some header)
      × (header.slot ≡ slot))
    ⊎ ((branch ≢ [])
        × (block_roots : H256) × (s.finalized_beacon_headers_block_root header_root
            ≡ some block_roots)
        × (block_roots ≢ 0)
        × (is_valid_merkle_branch c.crates.sha2_256 root branch
              c.preset.block_root_at_index_proof_depth
              ((c.max_slots_per_historical_root + slot % c.max_slots_per_historical_root) % 2 ^ 64)
              block_roots
            ≡ true))

pub ancestry_proof-IsFinalizedAncestor :
    (c : Config) (s : Client) (branch : List H256) (slot : ℕ) (root header_root : H256)
    → ancestry_proof c s branch slot root header_root ≡ ok tt
    → IsFinalizedAncestor c s branch slot root header_root
unfolding ancestry_proof finalized_at_slot below_finalized
ancestry_proof-IsFinalizedAncestor c s [] slot root header_root h =
    elim (Option-cases (s.finalized_beacon_headers root)) [
      | inl e ↦ absurd (ground arith)
      | inr (header, e) ↦ inl (ground arith, header, e, ground arith)
    ]
ancestry_proof-IsFinalizedAncestor c s (node ∷ branch) slot root header_root h =
    elim (Option-cases (s.finalized_beacon_headers_block_root header_root)) [
      | inl e ↦ absurd (ground arith)
      | inr (block_roots, e) ↦
          inr (λ empty. cc, block_roots, e, λ zero_root. ground arith, ground arith)
    ]

-- The steps that check a signature, one after the other.
abbrev pub check_signed : Config → Client → BeaconHeader → SyncAggregate → ℕ → Checked (List ℕ)
check_signed c s header aggregate signature_slot = do
  bits ←
      map_err
        (get_sync_committee_bits c.crates c.preset.sync_committee_size
          aggregate.sync_committee_bits)
        invalid_sync_committee_bits
  verify_signed_by_period c s (compute_current_sync_period c.preset header.slot) bits
      aggregate.sync_committee_signature header signature_slot
  ok bits

abbrev pub check_signed_by_most : Config → Client → BeaconHeader → SyncAggregate → ℕ → Checked Unit
check_signed_by_most c s header aggregate signature_slot = do
  bits ← check_signed c s header aggregate signature_slot
  sync_committee_participation_is_supermajority bits

module _ (c : Config) (s : Client) (header : BeaconHeader) (aggregate : SyncAggregate)
    (signature_slot : ℕ) where
  pub check_signed-IsSigned :
      {bits : List ℕ}
      → check_signed c s header aggregate signature_slot ≡ ok bits
      → (signed : IsSigned c s header aggregate signature_slot) × (bits ≡ map bit_value signed.0)
  unfolding verify_signed_by_period compute_current_sync_period
  check_signed-IsSigned h =
      let size = c.preset.sync_committee_size in
      elim (Result-cases (get_sync_committee_bits c.crates size aggregate.sync_committee_bits)) [
        | inr (e, b) ↦ absurd (ground arith)
        | inl (bits, b) ↦
            elim (Result-cases (
              get_sync_committee_for_period s (compute_current_sync_period c.preset header.slot))) [
                | inr (e, k) ↦ absurd (ground arith)
                | inl (committee, k) ↦
                    let (bitv, made, same) =
                      get_sync_committee_bits-bitvector c.crates size aggregate.sync_committee_bits
                        b in
                    let (stored, members) =
                      get_sync_committee_for_period-stored s
                        (compute_current_sync_period c.preset header.slot) k in
                    let verified : verify_signed_header c bits aggregate.sync_committee_signature
                          committee.pubkeys header s.validators_root signature_slot
                        ≡ ok tt =
                      ground arith in
                    (
                      (
                        bitv,
                        committee,
                        made,
                        stored,
                        members,
                        verify_signed_header-IsSignature c bitv aggregate.sync_committee_signature
                            committee.pubkeys header s.validators_root signature_slot
                            (rw same at verified),
                      ),
                      ground arith,
                    )
              ]
      ]

  pub check_signed_by_most-IsSignedByMost :
      HasBits c s aggregate
      → check_signed_by_most c s header aggregate signature_slot ≡ ok tt
      → IsSignedByMost c s header aggregate signature_slot
  check_signed_by_most-IsSignedByMost sized h =
      elim (Result-cases (check_signed c s header aggregate signature_slot)) [
        | inl (bits, e) ↦
            let (signed, same) = check_signed-IsSigned e in
            let (bitv, committee, made, stored, _, _) = signed in
            let (each, few) = sized bitv _ committee made stored in
            let most : sync_committee_participation_is_supermajority (map bit_value bitv) ≡ ok tt =
              rw same at (rw e at h) in
            let length_e = length-map bitv bit_value in
            (
              signed,
              subst (λ keys. 2 * length committee.pubkeys ≤ 3 * length keys)
                  (participants-selected bitv committee.pubkeys)
                  ((supermajority_iff (map bit_value bitv) committee.pubkeys (All-bit_value bitv)
                      (length_e ∙ each) (omega arith)).0
                    most),
            )
        | inr (e, k) ↦ absurd (let bad = rw k at h in cc bad)
      ]
