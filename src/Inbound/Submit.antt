-- ===== src/Inbound/Submit.antt =====
-- What a call of `submit` does, by its branches.
use snowbridge.Shared.{ℕ, ◌+◌, ◌%◌, ◌^◌, Option, List, [], ◌∷◌, ◌++◌, ◌≡◌, refl, arith, inl, inr}
use snowbridge.Shared.Bytes.{Bytes, H256}
use snowbridge.Shared.Outcome.{Result-cases, ok, err}
use snowbridge.Shared.Storage.{insert}
use snowbridge.Core.{Message, Verifier, Origin, root, signed, unsigned}
use snowbridge.Ethabi.{Tokens}
use snowbridge.Ethereum.Log.{Log}
use snowbridge.Inbound.Decode.{Envelope, envelope_of}
use snowbridge.Inbound.{
  Error, Channel, Delivery, nonce_of, submit, ensure_signed, verify_message, advance_nonce,
}

-- What an envelope is dispatched as.
abbrev pub delivery_of : Envelope → Delivery
delivery_of envelope = record {
  source = envelope.source;
  id = record { account = envelope.account; nonce = envelope.nonce };
  payload = envelope.payload;
}

-- The channel once a message is accepted.
abbrev pub accepted : Envelope → ℕ → Channel → Channel
accepted envelope block_number s = record s {
  nonce = insert envelope.account envelope.nonce s.nonce;
  latest_verified_block_number = block_number;
  dispatched = s.dispatched ++ delivery_of envelope ∷ [];
}

module _ {E : Type 0} (verifier : Verifier E)
    (decode_event : List H256 → Bytes → Option Tokens) where
  -- A message that is accepted came from a signed origin and was verified; its log is an envelope from the
  -- source channel with the nonce after its account's; and it is dispatched, once, under its
  -- account and nonce, with the nonce and the block number stored.
  pub submit_accepts :
      (origin : Origin) (message : Message) (s s' : Channel)
      → submit verifier decode_event origin message s ≡ (ok tt, s')
      → (account : ℕ) × (log : Log) × (block_number : ℕ) × (envelope : Envelope) × (origin
          ≡ signed account)
        × (verifier.verify message ≡ ok (log, block_number))
        × (envelope_of decode_event log ≡ ok envelope)
        × (envelope.channel ≡ s.source_channel)
        × (envelope.nonce ≡ (nonce_of s envelope.account + 1) % 2 ^ 64)
        × (s' ≡ accepted envelope block_number s)
  unfolding submit ensure_signed verify_message advance_nonce
  submit_accepts root message s s' h = absurd (ground arith)
  submit_accepts unsigned message s s' h = absurd (ground arith)
  submit_accepts (signed account) message s s' h = elim (Result-cases (verifier.verify message)) [
    | inr (x, e) ↦ absurd (ground arith)
    | inl ((log, block_number), e) ↦ elim (Result-cases (envelope_of decode_event log)) [
      | inr (x, f) ↦ absurd (ground arith)
      | inl (envelope, f) ↦ (
        account,
        log,
        block_number,
        envelope,
        refl,
        e,
        f,
        ground arith,
        ground arith,
        ground arith,
      )
    ]
  ]

  -- A message that is refused changes nothing.
  pub submit_refuses :
      (origin : Origin) (message : Message) (s s' : Channel) {e : Error E}
      → submit verifier decode_event origin message s ≡ (err e, s')
      → s' ≡ s
  unfolding submit ensure_signed verify_message advance_nonce
  submit_refuses root message s s' h = ground arith
  submit_refuses unsigned message s s' h = ground arith
  submit_refuses (signed account) message s s' h = ground arith
