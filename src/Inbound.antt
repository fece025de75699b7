-- ===== src/Inbound.antt =====
-- The inbound basic channel, parachain/pallets/basic-channel/src/inbound/mod.rs and
-- parachain/pallets/basic-channel/src/inbound/envelope.rs. The calls that the channel makes of
-- `MessageDispatch::dispatch` are a list in its state, in their order; the verifier and the
-- decoder of Ethereum's event are its parameters.
pub mod Decode
pub mod Submit
pub mod Replay
use snowbridge.Shared.{
  ℕ, ◌+◌, ◌%◌, ◌^◌, Option, none, some, List, [], ◌∷◌, ◌++◌, ◌==◌, not, if◌then◌else◌,
}
use snowbridge.Shared.Bytes.{Bytes, H160, H256}
use snowbridge.Shared.Outcome.{Result, ok, err, map_err}
use snowbridge.Shared.Exec.{Exec, lift, gets, modify, require, ◌>>=◌, ◌>>◌}
use snowbridge.Shared.Storage.{StorageMap, insert, value_or}
use snowbridge.Core.{MessageId, Message, Verifier, Origin, root, signed, unsigned}
use snowbridge.Ethabi.{Tokens}
use snowbridge.Ethereum.Log.{Log}
use snowbridge.Inbound.Decode.{Envelope, envelope_of}

-- The errors of the pallet, with those of its verifier and of `ensure_signed`.
pub data Error (E : Type 0) : Type 0 where
  invalid_source_channel invalid_envelope invalid_nonce bad_origin : Error E
  not_verified : E → Error E

-- What `MessageDispatch::dispatch` is called with.
pub record Delivery : Type 0 where
  pub source : H160
  pub id : MessageId
  pub payload : Bytes

pub record Channel : Type 0 where
  pub source_channel : H160
  pub nonce : StorageMap ℕ
  pub latest_verified_block_number : ℕ
  pub dispatched : List Delivery

-- `GenesisConfig::build` over empty storage.
abbrev pub genesis : H160 → Channel
genesis source_channel = record {
  source_channel = source_channel;
  nonce = λ account. none;
  latest_verified_block_number = 0;
  dispatched = [];
}

-- `Nonce::get`, a value query.
abbrev pub nonce_of : Channel → H160 → ℕ
nonce_of s account = value_or 0 (s.nonce account)

module _ {E : Type 0} (verifier : Verifier E)
    (decode_event : List H256 → Bytes → Option Tokens) where
  ensure_signed : Origin → Exec Channel (Error E) Unit
  ensure_signed root s = (err bad_origin, s)
  ensure_signed (signed account) s = (ok tt, s)
  ensure_signed unsigned s = (err bad_origin, s)

  verify_message : Message → Result (Error E) (Log × ℕ)
  verify_message message = elim (verifier.verify message) [
    | ok v ↦ ok v
    | err e ↦ err (not_verified e)
  ]

  -- `Nonce::try_mutate`: the nonce is that of the envelope, on u64, or nothing is written.
  advance_nonce : Envelope → Exec Channel (Error E) Unit
  advance_nonce envelope s =
      let next = (nonce_of s envelope.account + 1) % 2 ^ 64 in
      if not (envelope.nonce == next)
      then (err invalid_nonce, s)
      else (ok tt, record s { nonce = insert envelope.account next s.nonce })

  unfoldable pub submit : Origin → Message → Exec Channel (Error E) Unit
  unfolding ensure_signed verify_message advance_nonce
  submit origin message = do
    ensure_signed origin
    (log, block_number) ← lift (verify_message message)
    envelope ← lift (map_err (envelope_of decode_event log) invalid_envelope)
    source_channel ← gets (λ s. s.source_channel)
    require (Envelope.channel envelope == source_channel) invalid_source_channel
    advance_nonce envelope
    modify (λ s. record s {
      dispatched =
          s.dispatched
          ++ record {
            source = envelope.source;
            id = record { account = envelope.account; nonce = envelope.nonce };
            payload = envelope.payload;
          }
            ∷ [];
    })
    modify (λ s. record s { latest_verified_block_number = block_number })
