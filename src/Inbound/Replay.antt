-- ===== src/Inbound/Replay.antt =====
-- Replay protection: what the inbound channel has dispatched over any history of calls.
use mathlib.Core.List.{append-nil}
use snowbridge.Shared.{
  ℕ, zero, suc, ◌+◌, ◌%◌, ◌^◌, ◌≤◌, ◌<◌, ◌==◌, ==_iff, if◌then◌else◌, true, false, Bool-cases,
  Option, List, [], ◌∷◌, ◌++◌, length, ◌≡◌, refl, ap, ◌∙◌, arith, inl, inr, length-append,
}
use snowbridge.Shared.Bytes.{Bytes, H160, H256}
use snowbridge.Shared.Outcome.{Result-cases}
use snowbridge.Core.{Message, Verifier, Origin}
use snowbridge.Ethabi.{Tokens}
use snowbridge.Inbound.Decode.{Envelope}
use snowbridge.Inbound.{Channel, Delivery, nonce_of, submit, genesis}
use snowbridge.Inbound.Submit.{accepted, delivery_of, submit_accepts, submit_refuses}

-- The nonces that were dispatched for an account, in order.
abbrev pub nonces_of : H160 → List Delivery → List ℕ
nonces_of account [] = []
nonces_of account (d ∷ ds) =
    let rest = nonces_of account ds in if d.id.account == account then d.id.nonce ∷ rest else rest

-- `1, 2, …, n`.
abbrev pub up_to : ℕ → List ℕ
up_to zero = []
up_to (suc n) = up_to n ++ suc n ∷ []

nonces_of-append :
    (account : H160) (xs ys : List Delivery)
    → nonces_of account (xs ++ ys) ≡ nonces_of account xs ++ nonces_of account ys
nonces_of-append account [] ys = refl
nonces_of-append account (d ∷ xs) ys = elim (Bool-cases (d.id.account == account)) [
  | inl own ↦ rw own (ap (λ r. d.id.nonce ∷ r) (nonces_of-append account xs ys))
  | inr other ↦ rw other (nonces_of-append account xs ys)
]

-- The nonces dispatched for each account are 1, 2, … up to the one that is stored, which is at
-- most the number of all that was dispatched.
abbrev pub IsReplayFree : Channel → Type 0
IsReplayFree s =
    (account : H160)
    → (nonces_of account s.dispatched ≡ up_to (nonce_of s account))
      × (nonce_of s account ≤ length s.dispatched)

accepted-IsReplayFree :
    (envelope : Envelope) (block_number : ℕ) (s : Channel)
    → length s.dispatched + 1 < 2 ^ 64
    → envelope.nonce ≡ (nonce_of s envelope.account + 1) % 2 ^ 64
    → IsReplayFree s
    → IsReplayFree (accepted envelope block_number s)
accepted-IsReplayFree envelope block_number s room next inv account =
    let size = length-append s.dispatched (delivery_of envelope ∷ []) in
    let fits : envelope.nonce ≡ suc (nonce_of s envelope.account) =
      omega (arith, next, (inv envelope.account).1) in
    elim (Bool-cases (account == envelope.account)) [
      | inl own ↦
          let flipped : (envelope.account == account) ≡ true = ground arith in
          let same : envelope.account ≡ account = (==_iff envelope.account account).0 flipped in
          let old : nonces_of account s.dispatched ≡ up_to (nonce_of s envelope.account) =
            rw same (inv account).0 in
          (
            nonces_of-append account s.dispatched (delivery_of envelope ∷ [])
                ∙ rw (own, flipped, old, fits) refl,
            rw own (omega (arith, size, fits, (inv envelope.account).1)),
          )
      | inr other ↦
          let flipped : (envelope.account == account) ≡ false = ground arith in
          (
            nonces_of-append account s.dispatched (delivery_of envelope ∷ [])
                ∙ rw (other, flipped, append-nil) (inv account).0,
            rw other (omega (arith, size, (inv account).1)),
          )
    ]

module _ {E : Type 0} (verifier : Verifier E)
    (decode_event : List H256 → Bytes → Option Tokens) where
  -- The channel after a sequence of calls.
  abbrev pub run : List (Origin × Message) → Channel → Channel
  run [] s = s
  run ((origin, message) ∷ calls) s = run calls (submit verifier decode_event origin message s).1

  submit-IsReplayFree :
      (origin : Origin) (message : Message) (s : Channel)
      → length s.dispatched + 1 < 2 ^ 64
      → IsReplayFree s
      → (let s' = (submit verifier decode_event origin message s).1 in
          IsReplayFree s' × (length s'.dispatched ≤ length s.dispatched + 1))
  submit-IsReplayFree origin message s room inv =
      let after = (submit verifier decode_event origin message s).1 in
      elim (Result-cases (submit verifier decode_event origin message s).0) [
        | inl (a, e) ↦
            let (_, log, block_number, envelope, _, v, d, ch, next, same) =
              submit_accepts verifier decode_event origin message s after
                (ap (λ r. (r, after)) e) in
            rw same (
              accepted-IsReplayFree envelope block_number s room next inv,
              omega (arith, length-append s.dispatched (delivery_of envelope ∷ [])),
            )
        | inr (x, e) ↦
            rw
              (submit_refuses verifier decode_event origin message s after (ap (λ r. (r, after)) e))
              (inv, omega arith)
      ]

  run-IsReplayFree_from :
      (calls : List (Origin × Message)) (s : Channel)
      → length s.dispatched + length calls < 2 ^ 64
      → IsReplayFree s
      → IsReplayFree (run calls s)
  run-IsReplayFree_from [] s room inv = inv
  run-IsReplayFree_from ((origin, message) ∷ calls) s room inv =
      let step = submit-IsReplayFree origin message s (omega (arith, room)) inv in
      run-IsReplayFree_from calls _ (omega (arith, room, step.1)) step.0

  -- Over every history of fewer than 2 ^ 64 calls, from the genesis on, the nonces under which
  -- the messages of an account are dispatched are 1, 2, 3 and so on, in that order and without
  -- a gap, up to the stored nonce: no message is dispatched twice, and none is left out.
  pub run-IsReplayFree :
      (calls : List (Origin × Message)) (source_channel : H160)
      → length calls < 2 ^ 64
      → IsReplayFree (run calls (genesis source_channel))
  run-IsReplayFree calls source_channel room =
      run-IsReplayFree_from calls (genesis source_channel) (omega (arith, room))
        (λ account. (refl, omega arith))
