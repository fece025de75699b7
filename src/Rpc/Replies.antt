-- ===== src/Rpc/Replies.antt =====
-- What the RPC method answers.
use snowbridge.Shared.{
  ℕ, ◌+◌, ◌%◌, ◌<◌, ◌≤◌, ◌≡◌, ◌⊎◌, inl, inr, Option, none, some, true, List, arith, length,
  get_elem?, get_elem?_total, get_elem?-lt, Option-cases,
}
use native.Mathlib.Decide.{dec_lt}
use native.Mathlib.Nat.{mod-eq_of_lt, mod-le}
use snowbridge.Shared.Bytes.{Bytes, H256}
use snowbridge.Shared.Outcome.{ok, err}
use snowbridge.Shared.Storage.{StorageMap}
use snowbridge.Merkle.{MerkleProof, Leaf, merkle_root, verify_proof}
use snowbridge.Merkle.RoundTrip.{verify_proof-merkle_proof, merkle_proof_out_of_range}
use snowbridge.Rpc.{
  no_leaves_found, could_not_decode_leaves, leaf_index_out_of_range, get_merkle_proof,
  reply_for_entry, reply_for_leaves,
}

module _ (usize_max : ℕ) (keccak : Bytes → H256) (decode_leaves : Bytes → Option (List Bytes))
    (encode_proof : MerkleProof → Bytes) (storage : StorageMap Bytes) where
  -- A position of the stored leaves is answered with an accepted proof of the leaf there.
  pub get_merkle_proof_found :
      (root : H256) (i : ℕ) (leaves : List Bytes) {encoded l : Bytes}
      → storage root ≡ some encoded
      → decode_leaves encoded ≡ some leaves
      → get_elem? leaves i ≡ some l
      → (p : MerkleProof) × (get_merkle_proof usize_max keccak decode_leaves encode_proof storage
            root i
          ≡ some (ok (encode_proof p)))
        × (p.root ≡ merkle_root keccak leaves)
        × (verify_proof keccak (merkle_root keccak leaves) p.proof (length leaves) i (Leaf.value l)
            ≡ true)
  unfolding get_merkle_proof
  get_merkle_proof_found root i leaves e d h =
      let (p, made, at_root, number, index, leaf, accepted) =
        verify_proof-merkle_proof keccak leaves i h in
      (
        p,
        rw (e, reply_for_entry, d, reply_for_leaves)
            (let lt = get_elem?-lt leaves i h in
              let small = mod-le i (usize_max + 1) in ground arith),
        at_root,
        cc (accepted, at_root, number, index, leaf),
      )

  -- The method names what is missing, or it sends a proof for the stored leaf at the index, which
  -- the verifier accepts against the root of the stored leaves. It panics only for an index beyond
  -- the leaves, and beyond `usize`, whose cast to `usize` is within the leaves.
  pub get_merkle_proof_outcome :
      (root : H256) (i : ℕ)
      → let reply = get_merkle_proof usize_max keccak decode_leaves encode_proof storage root i in
        ((storage root ≡ none) × (reply ≡ some (err no_leaves_found)))
        ⊎ ((encoded : Bytes) × (storage root ≡ some encoded)
            × (decode_leaves encoded ≡ none)
            × (reply ≡ some (err could_not_decode_leaves)))
        ⊎ ((encoded : Bytes) × (leaves : List Bytes) × (storage root ≡ some encoded)
            × (decode_leaves encoded ≡ some leaves)
            × (length leaves ≤ i % (usize_max + 1))
            × (reply ≡ some (err leaf_index_out_of_range)))
        ⊎ ((encoded : Bytes) × (leaves : List Bytes) × (storage root ≡ some encoded)
            × (decode_leaves encoded ≡ some leaves)
            × (i % (usize_max + 1) < length leaves)
            × (length leaves ≤ i)
            × (usize_max < i)
            × (reply ≡ none))
        ⊎ ((encoded : Bytes) × (leaves : List Bytes) × (l : Bytes) × (p : MerkleProof) × (storage
                root
              ≡ some encoded)
            × (decode_leaves encoded ≡ some leaves)
            × (get_elem? leaves i ≡ some l)
            × (reply ≡ some (ok (encode_proof p)))
            × (verify_proof keccak
                  (merkle_root keccak leaves)
                  p.proof
                  (length leaves)
                  i
                  (Leaf.value l)
                ≡ true))
  unfolding get_merkle_proof
  get_merkle_proof_outcome root i = elim (Option-cases (storage root)) [
    | inl missing ↦ inl (missing, rw (missing, reply_for_entry))
    | inr (encoded, e) ↦ inr (elim (Option-cases (decode_leaves encoded)) [
      | inl bad ↦ inl (encoded, e, bad, rw (e, reply_for_entry, bad, reply_for_leaves))
      | inr (leaves, d) ↦ inr (elim (dec_lt i (length leaves)) [
        | no beyond ↦ elim (dec_lt (i % (usize_max + 1)) (length leaves)) [
          | no far ↦ inl (
            encoded,
            leaves,
            e,
            d,
            omega arith,
            rw (e, reply_for_entry, d, reply_for_leaves) (ground arith),
          )
          | yes wrapped ↦
              let panics = merkle_proof_out_of_range keccak leaves i (omega arith) in
              inr (
                inl (
                  encoded,
                  leaves,
                  e,
                  d,
                  wrapped,
                  omega arith,
                  (elim (dec_lt usize_max i) [
                    | yes above ↦ above
                    | no below ↦ absurd (
                        let same = mod-eq_of_lt {n = i} {m = usize_max + 1} (omega arith) in
                        omega arith)
                  ]),
                  rw (e, reply_for_entry, d, reply_for_leaves) (ground (arith, panics)),
                ))
        ]
        | yes within ↦
            let (l, h) = get_elem?_total leaves i within in
            let (p, sent, at_root, accepted) = get_merkle_proof_found root i leaves e d h in
            inr (inr (encoded, leaves, l, p, e, d, h, sent, accepted))
      ])
    ])
  ]
