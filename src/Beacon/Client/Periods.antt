-- ===== src/Beacon/Client/Periods.antt =====
-- `process_sync_committee_period_update` of
-- parachain/pallets/ethereum-beacon-client/src/lib.rs: which committees are stored.
use snowbridge.Shared.{
  ℕ, ◌+◌, ◌/◌, ◌%◌, ◌^◌, ◌<◌, ◌≤◌, true, false, Option, none, some, ◌≡◌, ◌≢◌, ◌↔◌, ◌∙◌, arith, ◌==◌,
  ==_iff, Bool-cases, inl, inr,
}
use native.Mathlib.Nat.{div-le_self, div-mul-le_self, mul-le-mul_left}
use snowbridge.Shared.Outcome.{ok}
use snowbridge.Shared.Storage.{contains_key}
use snowbridge.Beacon.Types.{SyncCommitteePeriodUpdate}
use snowbridge.Beacon.Preset.{Preset}
use snowbridge.Beacon.Signature.{compute_current_sync_period}
use snowbridge.Beacon.Store.{Config, Client, store_finalized_header}
use snowbridge.Beacon.Client.{process_sync_committee_period_update}
use snowbridge.Beacon.Client.Accepted.{
  HasBits, IsSignedByMost, check_signed_by_most, check_signed_by_most-IsSignedByMost,
}

-- The periods with a stored committee are those from a first one to the latest, on u64.
abbrev pub IsContiguous : Client → Type 0
IsContiguous s =
    (s.latest_sync_committee_period < 2 ^ 64)
    × (first : ℕ) × ((period : ℕ)
        → (contains_key s.sync_committees period ≡ true)
          ↔ ((first ≤ period) × (period ≤ s.latest_sync_committee_period)))

pub period-lt :
    (p : Preset) (slot : ℕ)
    → 2 ≤ p.slots_per_epoch
    → slot < 2 ^ 64
    → compute_current_sync_period p slot < 2 ^ 63
unfolding compute_current_sync_period
period-lt p slot two h =
    let a = mul-le-mul_left (slot / p.slots_per_epoch) two in
    let b = div-le_self (slot / p.slots_per_epoch) p.epochs_per_sync_committee_period in
    omega (arith, a, b, div-mul-le_self slot p.slots_per_epoch)

next_period-injective :
    (a b : ℕ) → a < 2 ^ 63 → b < 2 ^ 64 → (a + 1) % 2 ^ 64 ≡ (b + 1) % 2 ^ 64 → a ≡ b
next_period-injective a b ha hb e = omega arith

contains_key-none : {A : Type 0} (m : ℕ → Option A) (k : ℕ) → contains_key m k ≡ false → m k ≡ none
contains_key-none m k h = ground arith

-- A map whose keys run from a first to a last one, with the key after the last inserted.
contiguous_step :
    {A : Type 0} (m m' : ℕ → Option A) (first last : ℕ) (v : A)
    → contains_key m last ≡ true
    → ((k : ℕ) → (contains_key m k ≡ true) ↔ ((first ≤ k) × (k ≤ last)))
    → m' (last + 1) ≡ some v
    → ((k : ℕ) → k ≢ last + 1 → m' k ≡ m k)
    → (k : ℕ) → (contains_key m' k ≡ true) ↔ ((first ≤ k) × (k ≤ last + 1))
contiguous_step m m' first last v present all inserted others k =
    elim (Bool-cases (k == last + 1)) [
      | inl e ↦
          let at : k ≡ last + 1 = (==_iff k (last + 1)).0 e in
          let low = (all last).0 present in
          (λ _. (omega (arith, at, low), omega (arith, at)), λ _. rw (at, inserted))
      | inr e ↦
          let ne : k ≢ last + 1 = λ same. cc ((==_iff k (last + 1)).1 same, e) in
          rw (others k ne) (
            λ t. let both = (all k).0 t in (both.0, omega (arith, both)),
            λ p. (all k).1 (p.0, omega (arith, p, ne)),
          )
    ]

module _ (c : Config) where
  period_update_check :
      (now : ℕ) (update : SyncCommitteePeriodUpdate) (s s' : Client)
      → process_sync_committee_period_update c now update s ≡ (ok tt, s')
      → check_signed_by_most c s update.attested_header update.sync_aggregate update.signature_slot
        ≡ ok tt
  unfolding process_sync_committee_period_update
  period_update_check now update s s' h = ground arith

  -- The attested header of a sync committee period update that is accepted is signed by two thirds
  -- of the members of the committee stored for its period: BLS accepts the signature for the
  -- header's signing root under the aggregate of the keys of the members whose bit is set, and
  -- these members are two thirds of the committee. The bits of the aggregate are one for each
  -- member of a stored committee, and fewer than 2 ^ 62.
  pub period_update_signed :
      (now : ℕ) (update : SyncCommitteePeriodUpdate) (s s' : Client)
      → HasBits c s update.sync_aggregate
      → process_sync_committee_period_update c now update s ≡ (ok tt, s')
      → IsSignedByMost c s update.attested_header update.sync_aggregate update.signature_slot
  period_update_signed now update s s' sized h =
      check_signed_by_most-IsSignedByMost c s update.attested_header update.sync_aggregate
        update.signature_slot sized (period_update_check now update s s' h)

  period_update_effect :
      (now : ℕ) (update : SyncCommitteePeriodUpdate) (s s' : Client)
      → process_sync_committee_period_update c now update s ≡ (ok tt, s')
      → (let next =
            (compute_current_sync_period c.preset update.attested_header.slot + 1) % 2 ^ 64 in
          (next ≡ (s.latest_sync_committee_period + 1) % 2 ^ 64)
          × (contains_key s.sync_committees
                (compute_current_sync_period c.preset update.attested_header.slot)
              ≡ true)
          × (contains_key s.sync_committees next ≡ false)
          × (s'.latest_sync_committee_period ≡ next)
          × (s'.sync_committees next ≡ some update.next_sync_committee)
          × (s'.blocked ≡ s.blocked))
  unfolding process_sync_committee_period_update store_finalized_header
  period_update_effect now update s s' h = ground arith

  period_update_others :
      (now : ℕ) (update : SyncCommitteePeriodUpdate) (s s' : Client) (period : ℕ)
      → process_sync_committee_period_update c now update s ≡ (ok tt, s')
      → period ≢ s'.latest_sync_committee_period
      → s'.sync_committees period ≡ s.sync_committees period
  unfolding process_sync_committee_period_update store_finalized_header
  period_update_others now update s s' period h = ground arith

  -- An update extends the stored committees by one period: that of the attested header is the
  -- latest, the next one had no committee, and it becomes the latest. The slot is a u64, the
  -- latest period too, and an epoch has more than one slot.
  pub period_update_extends :
      (now : ℕ) (update : SyncCommitteePeriodUpdate) (s s' : Client)
      → 2 ≤ c.preset.slots_per_epoch
      → update.attested_header.slot < 2 ^ 64
      → s.latest_sync_committee_period < 2 ^ 64
      → process_sync_committee_period_update c now update s ≡ (ok tt, s')
      → (compute_current_sync_period c.preset update.attested_header.slot
          ≡ s.latest_sync_committee_period)
        × (s'.latest_sync_committee_period ≡ s.latest_sync_committee_period + 1)
        × (s'.latest_sync_committee_period < 2 ^ 64)
        × (s.sync_committees (s.latest_sync_committee_period + 1) ≡ none)
        × (s'.sync_committees (s.latest_sync_committee_period + 1)
            ≡ some update.next_sync_committee)
  period_update_extends now update s s' two u64 latest h =
      let effect = period_update_effect now update s s' h in
      let small = period-lt c.preset update.attested_header.slot two u64 in
      let same = next_period-injective _ _ small latest effect.0 in
      let next : (s.latest_sync_committee_period + 1) % 2 ^ 64
          ≡ s.latest_sync_committee_period + 1 =
        omega (arith, small, same) in
      let present : s'.latest_sync_committee_period ≡ s.latest_sync_committee_period + 1 =
        effect.3 ∙ effect.0 ∙ next in
      (
        same,
        present,
        omega (arith, small, same, present),
        contains_key-none s.sync_committees _ (rw (effect.0, next) at effect.2),
        rw (effect.0, next) at effect.4,
      )

  -- An update that is accepted keeps the periods contiguous.
  pub period_update-IsContiguous :
      (now : ℕ) (update : SyncCommitteePeriodUpdate) (s s' : Client)
      → 2 ≤ c.preset.slots_per_epoch
      → update.attested_header.slot < 2 ^ 64
      → IsContiguous s
      → process_sync_committee_period_update c now update s ≡ (ok tt, s')
      → IsContiguous s'
  period_update-IsContiguous now update s s' two u64 (latest, first, all) h =
      let extended = period_update_extends now update s s' two u64 latest h in
      let effect = period_update_effect now update s s' h in
      (
        extended.2,
        first,
        rw extended.1 (
            contiguous_step s.sync_committees s'.sync_committees first
              s.latest_sync_committee_period update.next_sync_committee (rw extended.0 at effect.1)
              all extended.4 (λ k ne. period_update_others now update s s' k h (rw extended.1 ne))),
      )
