-- ===== src/Outbound/Submit.antt =====
-- `submit`: the bounds that it keeps, its errors, and what it leaves alone.
use snowbridge.Shared.{
  ℕ, ◌+◌, ◌^◌, ◌≤◌, ◌<◌, ◌≡◌, ◌⊎◌, inl, inr, List, [], ◌∷◌, ◌++◌, arith, length, length-append, All,
  All-append,
}
use native.Mathlib.Decide.{dec_lt}
use snowbridge.Shared.Bytes.{Bytes}
use snowbridge.Shared.Outcome.{ok, err}
use snowbridge.Shared.Storage.{insert}
use snowbridge.Outbound.{
  Config, Channel, Message, Weight, payload_too_large, queue_size_limit_reached, overflow, nonce_of,
  submit, commit, commit_queue, message_accepted,
}

-- The queue is within its limit, and so is each payload.
pub record IsBounded (c : Config) (s : Channel) : Type 0 where
  pub queue : length s.message_queue ≤ c.max_messages_per_commit
  pub payloads :
      All (λ (m : Message). length m.payload ≤ c.max_message_payload_size) s.message_queue

abbrev pub new_message : ℕ → Bytes → Channel → Message
new_message source payload s = record {
  source_id = source;
  nonce = nonce_of s source;
  payload = payload;
}

-- The state after a submission that is accepted.
abbrev pub accepted : ℕ → Bytes → Channel → Channel
accepted source payload s = record s {
  message_queue = s.message_queue ++ new_message source payload s ∷ [];
  nonce = insert source (nonce_of s source + 1) s.nonce;
  events = s.events ++ message_accepted (nonce_of s source) ∷ [];
}

-- Each call ends in one of four ways: the queue is full, the payload is too large, the nonce
-- cannot grow, in this order and with nothing changed, or the message is queued with its nonce.
pub submit_outcome :
    (c : Config) (source : ℕ) (payload : Bytes) (s : Channel)
    → ((c.max_messages_per_commit ≤ length s.message_queue)
        × (submit c source payload s ≡ (err queue_size_limit_reached, s)))
      ⊎ ((length s.message_queue < c.max_messages_per_commit)
          × (c.max_message_payload_size < length payload)
          × (submit c source payload s ≡ (err payload_too_large, s)))
      ⊎ ((length s.message_queue < c.max_messages_per_commit)
          × (length payload ≤ c.max_message_payload_size)
          × (2 ^ 64 ≤ nonce_of s source + 1)
          × (submit c source payload s ≡ (err overflow, s)))
      ⊎ ((length s.message_queue < c.max_messages_per_commit)
          × (length payload ≤ c.max_message_payload_size)
          × (nonce_of s source + 1 < 2 ^ 64)
          × (submit c source payload s ≡ (ok tt, accepted source payload s)))
unfolding submit
submit_outcome c source payload s =
    elim (dec_lt (length s.message_queue) c.max_messages_per_commit) [
      | no full ↦ inl (ground arith)
      | yes room ↦ inr (elim (dec_lt c.max_message_payload_size (length payload)) [
        | yes large ↦ inl (ground arith)
        | no fits ↦ inr (elim (dec_lt (nonce_of s source + 1) (2 ^ 64)) [
          | no stuck ↦ inl (ground arith)
          | yes grows ↦ inr (ground arith)
        ])
      ])
    ]

-- A predicate that an accepted submission keeps is kept by `submit`.
pub submit_cases {ℓ} :
    (P : Channel → Type ℓ) (c : Config) (source : ℕ) (payload : Bytes) (s : Channel)
    → P s
    → (length s.message_queue < c.max_messages_per_commit
        → length payload ≤ c.max_message_payload_size
        → P (accepted source payload s))
    → P (submit c source payload s).1
submit_cases P c source payload s same grown = elim (submit_outcome c source payload s) [
  | inl (full, e) ↦ rw e same
  | inr (inl (room, large, e)) ↦ rw e same
  | inr (inr (inl (room, fits, stuck, e))) ↦ rw e same
  | inr (inr (inr (room, fits, grows, e))) ↦ rw e (grown room fits)
]

pub submit-IsBounded :
    (c : Config) (source : ℕ) (payload : Bytes) (s : Channel)
    → IsBounded c s
    → IsBounded c (submit c source payload s).1
submit-IsBounded c source payload s h = submit_cases (IsBounded c) c source payload s h λ room fits.
    record {
      queue = omega (arith, length-append s.message_queue (new_message source payload s ∷ []));
      payloads =
          All-append _ s.message_queue (new_message source payload s ∷ []) h.payloads (fits, tt);
    }

pub commit-IsBounded : (c : Config) (w : Weight) (s : Channel) → IsBounded c (commit c w s).1
unfolding commit
commit-IsBounded c w s = by_queue s.message_queue
  where
    by_queue :
        (queue : List Message)
        → IsBounded c (commit_queue c queue (record s { message_queue = [] })).1
    by_queue [] = record { queue = omega arith; payloads = tt }
    by_queue (m ∷ ms) = record { queue = omega arith; payloads = tt }
