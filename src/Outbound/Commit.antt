-- ===== src/Outbound/Commit.antt =====
-- The weights that `commit` and `on_idle` work with.
use mathlib.Core.List.{foldl}
use snowbridge.Shared.{
  ℕ, ◌+◌, ◌*◌, ◌/◌, ◌%◌, ◌^◌, ◌≤◌, ◌<◌, ◌≡◌, ◌⊎◌, inl, inr, List, [], ◌∷◌, arith, length, min,
}
use native.Mathlib.Nat.{mod-eq_of_lt, zero-add}
use native.Mathlib.Decide.{dec_lt}
use snowbridge.Outbound.{Config, Channel, Message, Weight, average_payload_size, on_idle, commit}

-- The bytes of all payloads.
abbrev pub total_bytes : List Message → ℕ
total_bytes [] = 0
total_bytes (m ∷ ms) = length m.payload + total_bytes ms

fold-total_bytes :
    (top acc : ℕ) (ms : List Message)
    → acc + total_bytes ms ≤ top
    → foldl (λ acc (m : Message). (acc + length m.payload) % (top + 1)) acc ms
      ≡ acc + total_bytes ms
fold-total_bytes top acc [] h = omega arith
fold-total_bytes top acc (m ∷ ms) h =
    let e : (acc + length m.payload) % (top + 1) ≡ acc + length m.payload =
      mod-eq_of_lt (omega arith) in
    rw e
      (let ih = fold-total_bytes top (acc + length m.payload) ms (omega arith) in omega (arith, ih))

quotient_bounds :
    (total n : ℕ) → 0 < n → (total < (total / n + 1) * n) × ((total / n + 1) * n ≤ total + n)
quotient_bounds total n h = (grind arith, grind arith)

div-le : (total n : ℕ) → 0 < n → total / n ≤ total
div-le total n h = grind arith

average-quotient :
    (c : Config) (m : Message) (ms : List Message)
    → total_bytes (m ∷ ms) < c.usize_max
    → total_bytes (m ∷ ms) + 1 < 2 ^ 32
    → average_payload_size c (m ∷ ms) ≡ total_bytes (m ∷ ms) / length (m ∷ ms) + 1
unfolding average_payload_size
average-quotient c m ms fits small =
    let le = div-le (total_bytes (m ∷ ms)) (length (m ∷ ms)) (omega arith) in
    rw (fold-total_bytes c.usize_max 0 (m ∷ ms) (omega arith), zero-add)
      (let e : min (total_bytes (m ∷ ms) / length (m ∷ ms) + 1) c.usize_max
            ≡ total_bytes (m ∷ ms) / length (m ∷ ms) + 1 =
          omega arith in
        rw e (mod-eq_of_lt (omega arith)))

-- Where the bytes of all payloads fit `usize` and `u32`, the average times the number of messages
-- is more than the bytes, by at most one byte a message.
pub average_payload_size_bounds :
    (c : Config) (m : Message) (ms : List Message)
    → total_bytes (m ∷ ms) < c.usize_max
    → total_bytes (m ∷ ms) + 1 < 2 ^ 32
    → (total_bytes (m ∷ ms) < average_payload_size c (m ∷ ms) * length (m ∷ ms))
      × (average_payload_size c (m ∷ ms) * length (m ∷ ms) ≤ total_bytes (m ∷ ms) + length (m ∷ ms))
average_payload_size_bounds c m ms fits small =
    rw (average-quotient c m ms fits small)
      (quotient_bounds (total_bytes (m ∷ ms)) (length (m ∷ ms)) (omega arith))

-- An idle block keeps the channel and the weight as they are when at most the minimum would
-- remain after the worst commit; otherwise it commits.
pub on_idle_outcome :
    (c : Config) (n : ℕ) (w : Weight) (s : Channel)
    → ((w.ref_time
          ≤ (c.on_commit c.max_messages_per_commit c.max_message_payload_size).ref_time
            + 10_000_000_000)
        × (on_idle c n w s ≡ (w, s)))
      ⊎ (((c.on_commit c.max_messages_per_commit c.max_message_payload_size).ref_time
              + 10_000_000_000
            < w.ref_time)
          × (on_idle c n w s ≡ commit c w s))
unfolding on_idle
on_idle_outcome c n w s =
    elim (dec_lt
      ((c.on_commit c.max_messages_per_commit c.max_message_payload_size).ref_time + 10_000_000_000)
      w.ref_time) [ yes enough ↦ inr (ground arith) | no scarce ↦ inl (ground arith) ]
