-- ===== src/Inbound/Decode.antt =====
-- parachain/pallets/basic-channel/src/inbound/envelope.rs: a log as an envelope. `decode_event` is
-- the decoder that `ethabi` has for the event `Message(address,address,uint64,bytes)`.
use snowbridge.Shared.{ℕ, ◌%◌, ◌^◌, Option, none, some, List}
use snowbridge.Shared.Bytes.{Bytes, H160, H256}
use snowbridge.Shared.Outcome.{Result, ok, err, ◌>>=◌}
use snowbridge.Ethabi.{Token, Tokens}
use snowbridge.Ethereum.Log.{Log}

pub record Envelope : Type 0 where
  pub channel : H160
  pub source : H160
  pub account : H160
  pub nonce : ℕ
  pub payload : Bytes

pub data EnvelopeDecodeError : Type 0 where
  envelope_decode_error : EnvelopeDecodeError

-- The token that an iterator yields, and what is left of it.
next_token : Tokens → Result EnvelopeDecodeError (Token × Tokens)
next_token Tokens.end = err envelope_decode_error
next_token (Tokens.token t rest) = ok (t, rest)

as_address : Token → Result EnvelopeDecodeError H160
as_address (Token.address a) = ok a
as_address (Token.uint n) = err envelope_decode_error
as_address (Token.bytes b) = err envelope_decode_error
as_address (Token.tuple ts) = err envelope_decode_error
as_address (Token.other k) = err envelope_decode_error

-- `nonce.low_u64()`
as_low_u64 : Token → Result EnvelopeDecodeError ℕ
as_low_u64 (Token.address a) = err envelope_decode_error
as_low_u64 (Token.uint n) = ok (n % 2 ^ 64)
as_low_u64 (Token.bytes b) = err envelope_decode_error
as_low_u64 (Token.tuple ts) = err envelope_decode_error
as_low_u64 (Token.other k) = err envelope_decode_error

as_payload : Token → Result EnvelopeDecodeError Bytes
as_payload (Token.address a) = err envelope_decode_error
as_payload (Token.uint n) = err envelope_decode_error
as_payload (Token.bytes b) = ok b
as_payload (Token.tuple ts) = err envelope_decode_error
as_payload (Token.other k) = err envelope_decode_error

module _ (decode_event : List H256 → Bytes → Option Tokens) where
  decode_tokens : Option Tokens → Result EnvelopeDecodeError Tokens
  decode_tokens none = err envelope_decode_error
  decode_tokens (some tokens) = ok tokens

  -- `Envelope::try_from`
  unfoldable pub envelope_of : Log → Result EnvelopeDecodeError Envelope
  unfolding decode_tokens next_token as_address as_low_u64 as_payload
  envelope_of log = do
    iter ← decode_tokens (decode_event log.topics log.payload)
    (first, iter₁) ← next_token iter
    source ← as_address first
    (second, iter₂) ← next_token iter₁
    account ← as_address second
    (third, iter₃) ← next_token iter₂
    nonce ← as_low_u64 third
    (fourth, rest) ← next_token iter₃
    payload ← as_payload fourth
    ok (record {
      channel = log.address;
      source = source;
      account = account;
      nonce = nonce;
      payload = payload;
    })
