-- ===== src/Bridge.antt =====
-- A client of Ethereum and the inbound channel that it verifies for, as the runtimes put
-- parachain/pallets/ethereum-beacon-client/src/lib.rs or
-- parachain/pallets/ethereum-light-client/src/lib.rs under
-- parachain/pallets/basic-channel/src/inbound/mod.rs: the calls of both, in any order.
pub mod Clients
use mathlib.Core.Path.{subst}
use mathlib.Core.List.{append_assoc, append-nil}
use snowbridge.Shared.{
  ℕ, Option, List, [], ◌∷◌, ◌++◌, All, All-append, All-map, ◌≡◌, refl, sym, ap, ◌∙◌, inl, inr,
  arith,
}
use snowbridge.Shared.Bytes.{Bytes, H160, H256}
use snowbridge.Shared.Outcome.{Result, ok, err, Result-cases}
use snowbridge.Core.{Message, Verifier, Origin}
use snowbridge.Ethabi.{Tokens}
use snowbridge.Ethereum.Log.{Log}
use snowbridge.Inbound.Decode.{Envelope, envelope_of}
use snowbridge.Inbound.{Channel, Delivery, submit, genesis}
use snowbridge.Inbound.Submit.{accepted, delivery_of, submit_accepts, submit_refuses}

-- What the channel needs of a client: a verifier over its storage, its calls, and what a verified
-- log shows of the storage.
pub record EthereumClient (S E C : Type 0) : Type 1 where
  pub verifier : S → Verifier E
  pub call : C → S → S
  pub IsShown : S → Message → Log → Type 0
  pub shows :
      (s : S) (message : Message) (log : Log) (block_number : ℕ)
      → (verifier s).verify message ≡ ok (log, block_number)
      → IsShown s message log

-- A call of the client or of the channel.
pub data Step (C : Type 0) : Type 0 where
  update : C → Step C
  deliver : Origin → Message → Step C

module _ {S E C : Type 0} (client : EthereumClient S E C)
    (decode_event : List H256 → Bytes → Option Tokens) where
  unfoldable pub step : Step C → S × Channel → S × Channel
  step (Step.update x) (s, channel) = (client.call x s, channel)
  step (Step.deliver origin message) (s, channel) =
      (s, (submit (client.verifier s) decode_event origin message channel).1)

  abbrev pub run : List (Step C) → S × Channel → S × Channel
  run [] state = state
  run (x ∷ xs) state = run xs (step x state)

  -- A delivery of the run `xs`: the call of the run that made it, and what the storage of the
  -- client, as the calls of the run before that one had left it, shows of the message.
  unfoldable pub IsTraced : List (Step C) → S × Channel → Delivery → Type 0
  IsTraced xs start delivery =
      (before : List (Step C)) × (after : List (Step C)) × (origin : Origin) × (message : Message)
      × (log : Log) × (envelope : Envelope) × (xs ≡ before ++ Step.deliver origin message ∷ after)
      × client.IsShown (run before start).0 message log
      × (envelope_of decode_event log ≡ ok envelope)
      × (envelope.channel ≡ start.1.source_channel)
      × (delivery ≡ delivery_of envelope)

  -- What holds of the state that a run leaves.
  abbrev IsReached : List (Step C) → S × Channel → S × Channel → Type 0
  IsReached xs start state =
      (state.1.source_channel ≡ start.1.source_channel) × All (IsTraced xs start) state.1.dispatched

  run-append :
      (xs : List (Step C)) (x : Step C) (state : S × Channel)
      → run (xs ++ x ∷ []) state ≡ step x (run xs state)
  run-append [] x state = refl
  run-append (y ∷ xs) x state = run-append xs x (step y state)

  IsTraced-append :
      (xs : List (Step C)) (x : Step C) (start : S × Channel) (delivery : Delivery)
      → IsTraced xs start delivery
      → IsTraced (xs ++ x ∷ []) start delivery
  unfolding IsTraced
  IsTraced-append xs x start delivery
        (before, after, origin, message, log, envelope, e, shown, decoded, from, same) =
      (
        before,
        after ++ x ∷ [],
        origin,
        message,
        log,
        envelope,
        ap (λ ys. ys ++ x ∷ []) e
            ∙ append_assoc before (Step.deliver origin message ∷ after) (x ∷ []),
        shown,
        decoded,
        from,
        same,
      )

  step-IsReached :
      (xs : List (Step C)) (x : Step C) (start : S × Channel)
      → IsReached xs start (run xs start)
      → IsReached (xs ++ x ∷ []) start (step x (run xs start))
  unfolding IsTraced step
  step-IsReached xs (Step.update x) start (from, traced) =
      (from, All-map (IsTraced-append xs (Step.update x) start) _ traced)
  step-IsReached xs (Step.deliver origin message) start (from, traced) =
      let (s, channel) = run xs start in
      let verifier = client.verifier s in
      let channel' = (submit verifier decode_event origin message channel).1 in
      let kept = All-map (IsTraced-append xs (Step.deliver origin message) start) _ traced in
      elim (Result-cases (submit verifier decode_event origin message channel).0) [
        | inr (x, y) ↦
            let same =
              submit_refuses verifier decode_event origin message channel channel'
                (ap (λ r. (r, channel')) y) in
            (
              ap (λ q. q.source_channel) same ∙ from,
              subst
                  (λ q. All (IsTraced (xs ++ Step.deliver origin message ∷ []) start) q.dispatched)
                  (sym same) kept,
            )
        | inl (u, y) ↦
            let (_, log, block_number, envelope, _, verified, decoded, channel_e, _, after) =
              submit_accepts verifier decode_event origin message channel channel'
                (ap (λ r. (r, channel')) y) in
            let shown = client.shows s message log block_number verified in
            (
              ap (λ q. q.source_channel) after ∙ from,
              subst
                  (λ q. All (IsTraced (xs ++ Step.deliver origin message ∷ []) start) q.dispatched)
                  (sym after)
                  (All-append (IsTraced (xs ++ Step.deliver origin message ∷ []) start)
                    channel.dispatched (delivery_of envelope ∷ []) kept
                    (
                      (
                        xs,
                        [],
                        origin,
                        message,
                        log,
                        envelope,
                        refl,
                        shown,
                        decoded,
                        channel_e ∙ from,
                        refl,
                      ),
                      tt,
                    )),
            )
      ]

  -- From what a run has left, the calls that follow it.
  run-IsReached :
      (ys xs : List (Step C)) (start : S × Channel)
      → IsReached xs start (run xs start)
      → IsReached (xs ++ ys) start (run (xs ++ ys) start)
  run-IsReached [] xs start reached =
      subst (λ zs. IsReached zs start (run zs start)) (sym (append-nil xs)) reached
  run-IsReached (y ∷ ys) xs start reached =
      let next =
        subst (IsReached (xs ++ y ∷ []) start) (sym (run-append xs y start))
          (step-IsReached xs y start reached) in
      subst (λ zs. IsReached zs start (run zs start)) (append_assoc xs (y ∷ []) ys)
        (run-IsReached ys (xs ++ y ∷ []) start next)

  -- Each message that a run from the genesis of the channel dispatches goes back to a delivery
  -- of the run.
  pub run-IsTraced :
      (s : S) (source_channel : H160) (xs : List (Step C))
      → All
          (IsTraced xs (s, genesis source_channel))
          (run xs (s, genesis source_channel)).1.dispatched
  run-IsTraced s source_channel xs = (run-IsReached xs [] (s, genesis source_channel) (refl, tt)).1
