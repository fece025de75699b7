-- ===== src/Beacon/Store/Slots.antt =====
-- The array of the slots of finalized headers.
use snowbridge.Shared.{
  ℕ, zero, suc, ◌+◌, ◌-◌, ◌%◌, ◌^◌, ◌≤◌, ◌<◌, true, some, List, [], ◌∷◌, ◌++◌, drop, length, ltb,
  ◌==◌, ◌≡◌, refl, arith, length-append, Bool-cases, inl, inr,
}
use snowbridge.Beacon.Store.{push_slot}

length-drop : (n : ℕ) (xs : List ℕ) → length (drop n xs) ≡ length xs - n
length-drop zero xs = omega arith
length-drop (suc n) [] = omega arith
length-drop (suc n) (x ∷ xs) = omega (arith, length-drop n xs)

-- A push into an array within its bound, which is positive and a u32, never fails: the array
-- then holds the last slots that the bound leaves room for, the new one at the end, and it is
-- within its bound again.
pub push_slot_window :
    (bound slot : ℕ) (slots : List ℕ)
    → 0 < bound
    → bound < 2 ^ 32
    → length slots ≤ bound
    → (push_slot bound slot slots ≡ some (drop (length slots + 1 - bound) slots ++ slot ∷ []))
      × (length (drop (length slots + 1 - bound) slots ++ slot ∷ []) ≤ bound)
unfolding push_slot
push_slot_window bound slot slots positive u32 h =
    let size : length slots % 2 ^ 32 ≡ length slots = omega arith in
    let sum = length-append (drop (length slots + 1 - bound) slots) (slot ∷ []) in
    let kept = length-drop (length slots + 1 - bound) slots in
    (
      elim (Bool-cases (length slots == bound)) [
        | inl full ↦
            let one : length slots + 1 - bound ≡ 1 = ground arith in
            let room : ltb (length (drop 1 slots)) bound ≡ true =
              ground (arith, length-drop 1 slots) in
            rw (size, full, room, one) refl
        | inr part ↦
            let nothing : length slots + 1 - bound ≡ 0 = ground arith in
            let room : ltb (length slots) bound ≡ true = ground arith in
            rw (size, part, room, nothing) refl
      ],
      omega (arith, sum, kept),
    )
