-- ===== src/Examples/Channels.antt =====
-- Examples for the basic channels, the node's RPC method and the dispatch pallet.
use snowbridge.Shared.{
  ltb, ◌==◌, if◌then◌else◌, ℕ, ◌+◌, ◌%◌, ◌^◌, ◌≤◌, ◌<◌, true, Option, none, some, List, [], ◌∷◌,
  ◌++◌, map, length, ◌≡◌, ◌⊎◌, refl, arith, get_elem?,
}
use snowbridge.Shared.Bytes.{Bytes, H256, from_be}
use snowbridge.Shared.Outcome.{ok, err}
use snowbridge.Shared.Storage.{StorageMap, insert}
use snowbridge.Core.{Message as EthereumMessage, MessageId, Verifier, signed}
use snowbridge.Ethabi.{Token, Tokens}
use snowbridge.Ethereum.Log.{Log}
use snowbridge.Merkle.{MerkleProof, value, merkle_root, verify_proof}
use snowbridge.Outbound.{
  Config, Channel, Message, queue_size_limit_reached, payload_too_large, overflow, eth_messages,
  message_token, genesis, submit, commit, nonce_of,
}
use snowbridge.Outbound.Submit.{IsBounded, submit_outcome}
use snowbridge.Outbound.Submit as Out
use snowbridge.Outbound.Order.{
  Call, submits, commits, idles, run, run-IsInOrder, nonces_from, committed_messages, count_from,
}
use snowbridge.Outbound.Served.{commit_served}
use snowbridge.Rpc.{
  no_leaves_found, could_not_decode_leaves, leaf_index_out_of_range, get_merkle_proof,
}
use snowbridge.Rpc.Replies.{get_merkle_proof_outcome}
use snowbridge.Inbound as In
use snowbridge.Inbound.Decode.{Envelope, envelope_of}
use snowbridge.Inbound.Submit.{accepted, submit_accepts}
use snowbridge.Inbound.Replay.{IsReplayFree, run-IsReplayFree}
use snowbridge.Inbound.Replay as Replay
use snowbridge.Dispatch as Calls
use snowbridge.Dispatch.Sequences.{
  Sent, HasDispatched, accepted_calls, dispatch_all, dispatch_all-HasDispatched,
}
use snowbridge.Examples.Toy.{
  toy_hash, three_leaves, encode_list, decode_list, decode_list-encode_list, encode_tokens,
  small_weight, large_weight,
}

abbrev usize_max : ℕ
usize_max = 18_446_744_073_709_551_615

abbrev config : Config
config = record {
  hashing = toy_hash;
  encode_source = λ source. source ∷ [];
  ethabi_encode = encode_tokens;
  encode_leaves = encode_list;
  max_message_payload_size = 4;
  max_messages_per_commit = 2;
  on_commit = λ messages size. small_weight;
  on_commit_no_messages = small_weight;
  usize_max = usize_max;
}

abbrev first_message : Message
first_message = record { source_id = 1; nonce = 0; payload = 7 ∷ 8 ∷ [] }

abbrev second_message : Message
second_message = record { source_id = 1; nonce = 1; payload = 9 ∷ [] }

abbrev two_queued : Channel
two_queued = record (genesis 10) { message_queue = first_message ∷ second_message ∷ [] }

abbrev history : List Call
history =
    submits 1 (7 ∷ 8 ∷ [])
    ∷ submits 2 (1 ∷ [])
    ∷ commits small_weight
    ∷ submits 1 (9 ∷ [])
    ∷ idles 11 large_weight
    ∷ []

run-IsInOrder_example :
    (let s = run config (genesis 10) history in
      let handed_over = nonces_from 1 (committed_messages s.events) in
      (nonces_from 1 (committed_messages s.events ++ s.message_queue) ≡ count_from 0 (nonce_of s 1))
      × (handed_over ≡ count_from 0 (length handed_over)))
run-IsInOrder_example = run-IsInOrder config 10 1 history

commit_served_example :
    (let leaves = eth_messages config two_queued.message_queue in
      let top = merkle_root toy_hash leaves in
      (p : MerkleProof) × (get_merkle_proof usize_max toy_hash decode_list MerkleProof.proof
          (commit config small_weight two_queued).1.offchain
          top
          1
        ≡ some (ok p.proof))
      × (p.root ≡ top)
      × (verify_proof toy_hash top p.proof 2 1
            (value (encode_tokens (Tokens.token (message_token config second_message) Tokens.end)))
          ≡ true))
commit_served_example =
    commit_served config usize_max decode_list MerkleProof.proof decode_list-encode_list
      small_weight two_queued 1 refl

abbrev payload_three : Bytes
payload_three = 3 ∷ []

submit_outcome_example :
    ((2 ≤ length two_queued.message_queue)
      × (submit config 1 payload_three two_queued ≡ (err queue_size_limit_reached, two_queued)))
    ⊎ ((length two_queued.message_queue < 2)
        × (4 < length payload_three)
        × (submit config 1 payload_three two_queued ≡ (err payload_too_large, two_queued)))
    ⊎ ((length two_queued.message_queue < 2)
        × (length payload_three ≤ 4)
        × (2 ^ 64 ≤ nonce_of two_queued 1 + 1)
        × (submit config 1 payload_three two_queued ≡ (err overflow, two_queued)))
    ⊎ ((length two_queued.message_queue < 2)
        × (length payload_three ≤ 4)
        × (nonce_of two_queued 1 + 1 < 2 ^ 64)
        × (submit config 1 payload_three two_queued
            ≡ (ok tt, Out.accepted 1 payload_three two_queued)))
submit_outcome_example = submit_outcome config 1 payload_three two_queued

abbrev decoded_three : Bytes → Option (List Bytes)
decoded_three encoded = some three_leaves

abbrev storage : StorageMap Bytes
storage = insert 77 payload_three (λ key. none)

get_merkle_proof_outcome_example :
    (let reply = get_merkle_proof usize_max toy_hash decoded_three MerkleProof.proof storage 77 1 in
      ((storage 77 ≡ none) × (reply ≡ some (err no_leaves_found)))
      ⊎ ((encoded : Bytes) × (storage 77 ≡ some encoded)
          × (decoded_three encoded ≡ none)
          × (reply ≡ some (err could_not_decode_leaves)))
      ⊎ ((encoded : Bytes) × (leaves : List Bytes) × (storage 77 ≡ some encoded)
          × (decoded_three encoded ≡ some leaves)
          × (length leaves ≤ 1 % (usize_max + 1))
          × (reply ≡ some (err leaf_index_out_of_range)))
      ⊎ ((encoded : Bytes) × (leaves : List Bytes) × (storage 77 ≡ some encoded)
          × (decoded_three encoded ≡ some leaves)
          × (1 % (usize_max + 1) < length leaves)
          × (length leaves ≤ 1)
          × (usize_max < 1)
          × (reply ≡ none))
      ⊎ ((encoded : Bytes) × (leaves : List Bytes) × (l : Bytes) × (p : MerkleProof) × (storage 77
            ≡ some encoded)
          × (decoded_three encoded ≡ some leaves)
          × (get_elem? leaves 1 ≡ some l)
          × (reply ≡ some (ok p.proof))
          × (verify_proof toy_hash (merkle_root toy_hash leaves) p.proof (length leaves) 1 (value l)
              ≡ true)))
get_merkle_proof_outcome_example =
    get_merkle_proof_outcome usize_max toy_hash decoded_three MerkleProof.proof storage 77 1

-- A message of Ethereum, a verifier that lets it pass, and an event with the nonce 1.
abbrev relayed : EthereumMessage
relayed = record {
  payload = 1 ∷ [];
  proof = record { block_hash = 0; tx_index = 0; proof_keys = []; proof_values = [] };
}

abbrev relayed_log : Log
relayed_log = record { address = 500; topics = []; payload = 6 ∷ [] }

abbrev lenient : Verifier (Unit {0})
lenient = record { verify = λ message. ok (relayed_log, 42) }

abbrev pub decode_event : List H256 → Bytes → Option Tokens
decode_event topics payload = some (
    Tokens.token (Token.address 11) (
      Tokens.token (Token.address 22)
        (Tokens.token (Token.uint 1) (Tokens.token (Token.bytes payload) Tokens.end))))

abbrev relayed_envelope : Envelope
relayed_envelope = record { channel = 500; source = 11; account = 22; nonce = 1; payload = 6 ∷ [] }

submit_accepts_example :
    (account : ℕ) × (log : Log) × (block_number : ℕ) × (envelope : Envelope) × (signed 1
      ≡ signed account)
    × (Verifier.verify lenient relayed ≡ ok (log, block_number))
    × (envelope_of decode_event log ≡ ok envelope)
    × (envelope.channel ≡ 500)
    × (envelope.nonce ≡ (In.nonce_of (In.genesis 500) envelope.account + 1) % 2 ^ 64)
    × (accepted relayed_envelope 42 (In.genesis 500)
        ≡ accepted envelope block_number (In.genesis 500))
unfolding In.submit envelope_of
submit_accepts_example =
    submit_accepts lenient decode_event (signed 1) relayed (In.genesis 500)
      (accepted relayed_envelope 42 (In.genesis 500)) refl

run-IsReplayFree_example : IsReplayFree (
    Replay.run lenient decode_event
      ((signed 1, relayed) ∷ (signed 2, relayed) ∷ [])
      (In.genesis 500))
run-IsReplayFree_example =
    run-IsReplayFree lenient decode_event ((signed 1, relayed) ∷ (signed 2, relayed) ∷ []) 500
      (omega arith)

-- A runtime whose calls are numbers, which are added to its storage.
abbrev runtime : Calls.Runtime
runtime = record {
  RuntimeCall = ℕ;
  World = ℕ;
  decode_call = λ payload. if length payload == 1 then ok (from_be 0 payload) else err 0;
  call_filter = λ call. ltb call 10;
  dispatch_call = λ call origin world. (ok tt, world + call);
}

abbrev state : Calls.State runtime
state = record { world = 100; events = [] }

abbrev id : MessageId
id = record { account = 22; nonce = 1 }

abbrev sent : List Sent
sent =
    record { source = 11; id = id; payload = payload_three }
    ∷ record { source = 12; id = record { account = 22; nonce = 2 }; payload = 1 ∷ 2 ∷ [] }
    ∷ record { source = 11; id = record { account = 22; nonce = 3 }; payload = 12 ∷ [] }
    ∷ []

dispatch_all-HasDispatched_example :
    HasDispatched runtime
      (map Sent.id sent)
      (accepted_calls runtime sent)
      state
      (dispatch_all runtime sent state)
dispatch_all-HasDispatched_example = dispatch_all-HasDispatched runtime sent state

-- The first message alone is a call that is made: the second does not decode, and the filter has the
-- third.
made_once : (dispatch_all runtime sent state).world ≡ 103
unfolding Calls.dispatch
made_once = refl
