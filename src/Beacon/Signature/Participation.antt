-- ===== src/Beacon/Signature/Participation.antt =====
-- Who takes part in a signature, and when they are two thirds of a committee.
use mathlib.Core.List.{foldl}
use mathlib.Core.Path.{subst}
use snowbridge.Shared.{
  ℕ, ◌+◌, ◌*◌, ◌%◌, ◌^◌, ◌≤◌, ◌<◌, Bool, true, false, List, [], ◌∷◌, map, length, ◌≡◌, ◌↔◌, arith,
  All, ==_iff, Bool-cases, ◌==◌, inl, inr,
}
use snowbridge.Shared.Bytes.{Bytes}
use snowbridge.Shared.Outcome.{Result-cases, ok}
use snowbridge.Beacon.Types.{PublicKey}
use snowbridge.Beacon.Crates.{Crates}
use snowbridge.Beacon.Merkleization.{get_sync_committee_bits, bit_value}
use snowbridge.Beacon.Signature.{
  get_sync_committee_sum, participants, sync_committee_participation_is_supermajority,
}

-- The sum of bits is the number of the members whose bit is set, where it fits into a u64.
foldl-participants :
    (bits : List ℕ) (keys : List PublicKey) (acc : ℕ)
    → All (λ b. b ≤ 1) bits
    → length bits ≡ length keys
    → acc + length bits < 2 ^ 64
    → foldl (λ acc x. (acc + x) % 2 ^ 64) acc bits ≡ acc + length (participants bits keys)
unfolding participants
foldl-participants [] keys acc one same h = omega arith
foldl-participants (bit ∷ bits) [] acc one same h = absurd (omega arith)
foldl-participants (bit ∷ bits) (key ∷ keys) acc one same h =
    let small : (acc + bit) % 2 ^ 64 ≡ acc + bit = omega (arith, one.0) in
    let rest =
      foldl-participants bits keys (acc + bit) one.1 (omega arith) (omega (arith, one.0)) in
    elim (Bool-cases (bit == 1)) [
      | inl set ↦ let e = (==_iff bit 1).0 set in rw (small, rest, set) (omega (arith, e))
      | inr unset ↦
          let e : bit ≡ 0 = ground (arith, one.0) in rw (small, rest, unset) (omega (arith, e))
    ]

length-participants :
    (bits : List ℕ) (keys : List PublicKey) → length (participants bits keys) ≤ length bits
unfolding participants
length-participants [] keys = omega arith
length-participants (bit ∷ bits) [] = omega arith
length-participants (bit ∷ bits) (key ∷ keys) = ground (arith, length-participants bits keys)

pub All-bit_value : (bits : List Bool) → All (λ b. b ≤ 1) (map bit_value bits)
unfolding bit_value
All-bit_value [] = tt
All-bit_value (true ∷ bits) = (omega arith, All-bit_value bits)
All-bit_value (false ∷ bits) = (omega arith, All-bit_value bits)

-- The bits that `get_sync_committee_bits` returns are those of the decoded vector.
pub get_sync_committee_bits-bitvector :
    (crates : Crates) (size : ℕ) (bits_hex : Bytes) {bits : List ℕ}
    → get_sync_committee_bits crates size bits_hex ≡ ok bits
    → (bitv : List Bool) × (crates.bitvector size bits_hex ≡ ok bitv) × (bits ≡ map bit_value bitv)
unfolding get_sync_committee_bits
get_sync_committee_bits-bitvector crates size bits_hex h =
    elim (Result-cases (crates.bitvector size bits_hex)) [
      | inl (bitv, e) ↦ (bitv, e, ground arith)
      | inr (x, e) ↦ absurd (ground arith)
    ]

-- The bits that `get_sync_committee_bits` returns are 0 or 1.
pub get_sync_committee_bits-All :
    (crates : Crates) (size : ℕ) (bits_hex : Bytes) {bits : List ℕ}
    → get_sync_committee_bits crates size bits_hex ≡ ok bits
    → All (λ b. b ≤ 1) bits
unfolding get_sync_committee_bits
get_sync_committee_bits-All crates size bits_hex {bits} h =
    elim (Result-cases (crates.bitvector size bits_hex)) [
      | inl (bitv, e) ↦
          let same : map bit_value bitv ≡ bits = ground arith in
          subst (All (λ b. b ≤ 1)) same (All-bit_value bitv)
      | inr (x, e) ↦ absurd (ground arith)
    ]

-- With bits that are 0 or 1, one for each member of a committee of fewer than 2 ^ 62, the check
-- of the participation passes exactly when the members that take part, whose keys the signature
-- is verified with, are at least two thirds of the committee.
pub supermajority_iff :
    (bits : List ℕ) (keys : List PublicKey)
    → All (λ b. b ≤ 1) bits
    → length bits ≡ length keys
    → length bits < 2 ^ 62
    → (sync_committee_participation_is_supermajority bits ≡ ok tt)
      ↔ (2 * length keys ≤ 3 * length (participants bits keys))
unfolding sync_committee_participation_is_supermajority get_sync_committee_sum
supermajority_iff bits keys one same h =
    let sum = foldl-participants bits keys 0 one same (omega arith) in
    let few = length-participants bits keys in
    rw sum (λ p. ground (arith, few), λ p. ground (arith, few))
