-- ===== src/Outbound/Served.antt =====
-- From the queue to the verifier: what `commit` writes is what the RPC method proves.
use snowbridge.Shared.{
  ℕ, ◌≡◌, ◌≢◌, refl, Option, some, true, List, [], ◌∷◌, ◌++◌, length, get_elem?, length-map,
  get_elem?-map,
}
use snowbridge.Shared.Bytes.{Bytes}
use snowbridge.Shared.Outcome.{ok}
use snowbridge.Shared.Storage.{insert_self}
use snowbridge.Ethabi.{Tokens}
use snowbridge.Merkle.{MerkleProof, Leaf, merkle_root, verify_proof}
use snowbridge.Rpc.{get_merkle_proof}
use snowbridge.Rpc.Replies.{get_merkle_proof_found}
use snowbridge.Outbound.{
  Config, Channel, Message, Weight, committed, commitment, eth_messages, message_token, commit,
  commit_queue,
}

-- A commit with messages queued empties the queue, logs the root of the messages in the digest,
-- tells of the batch in an event, and changes no nonce.
pub commit_effect :
    (c : Config) (w : Weight) (s : Channel)
    → s.message_queue ≢ []
    → let s' = (commit c w s).1 in
      let root = merkle_root c.hashing (eth_messages c s.message_queue) in
      (s'.message_queue ≡ [])
      × (s'.digest ≡ s.digest ++ commitment root ∷ [])
      × (s'.events ≡ s.events ++ committed root s.message_queue ∷ [])
      × (s'.offchain root ≡ some (c.encode_leaves (eth_messages c s.message_queue)))
      × (s'.nonce ≡ s.nonce)
unfolding commit
commit_effect c w s = by_queue s.message_queue
  where
    by_queue :
        (queue : List Message)
        → queue ≢ []
        → let s' = (commit_queue c queue (record s { message_queue = [] })).1 in
          let root = merkle_root c.hashing (eth_messages c queue) in
          (s'.message_queue ≡ [])
          × (s'.digest ≡ s.digest ++ commitment root ∷ [])
          × (s'.events ≡ s.events ++ committed root queue ∷ [])
          × (s'.offchain root ≡ some (c.encode_leaves (eth_messages c queue)))
          × (s'.nonce ≡ s.nonce)
    by_queue [] h = absurd (h refl)
    by_queue (m ∷ ms) h = (
      refl,
      refl,
      refl,
      insert_self (merkle_root c.hashing (eth_messages c (m ∷ ms))) _ s.offchain,
      refl,
    )

not_empty :
    (queue : List Message) (i : ℕ) {m : Message} → queue ≡ [] → get_elem? queue i ≡ some m → ⊥
not_empty [] i e h = cc
not_empty (x ∷ queue) i e h = cc

-- After a commit, the RPC method answers for the committed root and each position of the batch
-- with a proof that the verifier accepts for the message at that position.
pub commit_served :
    (c : Config) (usize_max : ℕ) (decode_leaves : Bytes → Option (List Bytes))
    (encode_proof : MerkleProof → Bytes)
    → ((leaves : List Bytes) → decode_leaves (c.encode_leaves leaves) ≡ some leaves)
    → (w : Weight) (s : Channel) (i : ℕ) {m : Message} → get_elem? s.message_queue i ≡ some m
    → let root = merkle_root c.hashing (eth_messages c s.message_queue) in
      (p : MerkleProof) × (get_merkle_proof usize_max c.hashing decode_leaves encode_proof
          (commit c w s).1.offchain
          root
          i
        ≡ some (ok (encode_proof p)))
      × (p.root ≡ root)
      × (verify_proof c.hashing root p.proof
            (length s.message_queue)
            i
            (Leaf.value (c.ethabi_encode (Tokens.token (message_token c m) Tokens.end)))
          ≡ true)
commit_served c usize_max decode_leaves encode_proof decodes w s i {m} h =
    let leaf = λ (m : Message). c.ethabi_encode (Tokens.token (message_token c m) Tokens.end) in
    let stored = (commit_effect c w s (λ e. not_empty s.message_queue i e h)).3 in
    let found =
      get_merkle_proof_found usize_max c.hashing decode_leaves encode_proof
        (commit c w s).1.offchain (merkle_root c.hashing (eth_messages c s.message_queue)) i
        (eth_messages c s.message_queue) stored (decodes _)
        (get_elem?-map leaf s.message_queue i h) in
    (found.0, found.1, found.2, rw (length-map s.message_queue leaf) at found.3)
