-- ===== src/Dispatch/Sequences.antt =====
-- Sequences of messages that are dispatched one after the other.
use mathlib.Core.List.{append_assoc, append-nil}
use mathlib.Core.Path.{ap₂}
use snowbridge.Shared.{
  ℕ, Bool, true, false, List, [], ◌∷◌, ◌++◌, map, ◌≡◌, refl, sym, ap, ◌∙◌, inl, inr, Bool-cases,
}
use snowbridge.Shared.Bytes.{Bytes, H160}
use snowbridge.Shared.Outcome.{Result, Result-cases, ok, err}
use snowbridge.Core.{MessageId}
use snowbridge.Dispatch.{
  DispatchError, Event, message_dispatched, message_rejected, message_decode_failed, Runtime, State,
  dispatch, dispatch_decoded, dispatch_allowed, deposit_event,
}

pub record Sent : Type 0 where
  pub source : H160
  pub id : MessageId
  pub payload : Bytes

abbrev pub id_of : Event → MessageId
id_of (message_dispatched id result) = id
id_of (message_rejected id) = id
id_of (message_decode_failed id) = id

module _ (runtime : Runtime) where
  open runtime use {RuntimeCall, World, decode_call, call_filter, dispatch_call}

  abbrev pub dispatch_all : List Sent → State runtime → State runtime
  dispatch_all [] s = s
  dispatch_all (m ∷ ms) s = dispatch_all ms (dispatch runtime m.source m.id m.payload s)

  -- The calls that are made: of a payload, the call that it decodes to, unless the filter has it.
  abbrev pub call_of : Bool → H160 → RuntimeCall → List (H160 × RuntimeCall)
  call_of true source call = (source, call) ∷ []
  call_of false source call = []

  abbrev pub decoded_call : H160 → Result ℕ RuntimeCall → List (H160 × RuntimeCall)
  decoded_call source (err e) = []
  decoded_call source (ok call) = call_of (call_filter call) source call

  abbrev pub accepted_calls : List Sent → List (H160 × RuntimeCall)
  accepted_calls [] = []
  accepted_calls (m ∷ ms) = decoded_call m.source (decode_call m.payload) ++ accepted_calls ms

  abbrev pub make_calls : List (H160 × RuntimeCall) → World → World
  make_calls [] world = world
  make_calls ((source, call) ∷ calls) world =
      make_calls calls (dispatch_call call (record { address = source }) world).1

  -- The results of the calls that are made.
  abbrev pub results : List (H160 × RuntimeCall) → World → List (Result DispatchError (Unit {0}))
  results [] world = []
  results ((source, call) ∷ calls) world =
      let (result, next) = dispatch_call call (record { address = source }) world in
      result ∷ results calls next

  abbrev pub results_of : List Event → List (Result DispatchError (Unit {0}))
  results_of [] = []
  results_of (message_dispatched id result ∷ events) = result ∷ results_of events
  results_of (message_rejected id ∷ events) = results_of events
  results_of (message_decode_failed id ∷ events) = results_of events

  map-append : (xs ys : List Event) → map id_of (xs ++ ys) ≡ map id_of xs ++ map id_of ys
  map-append [] ys = refl
  map-append (x ∷ xs) ys = ap (λ zs. id_of x ∷ zs) (map-append xs ys)

  results_of-append : (xs ys : List Event) → results_of (xs ++ ys) ≡ results_of xs ++ results_of ys
  results_of-append [] ys = refl
  results_of-append (message_dispatched id result ∷ xs) ys =
      ap (λ zs. result ∷ zs) (results_of-append xs ys)
  results_of-append (message_rejected id ∷ xs) ys = results_of-append xs ys
  results_of-append (message_decode_failed id ∷ xs) ys = results_of-append xs ys

  make_calls-append :
      (xs ys : List (H160 × RuntimeCall)) (world : World)
      → make_calls (xs ++ ys) world ≡ make_calls ys (make_calls xs world)
  make_calls-append [] ys world = refl
  make_calls-append ((source, call) ∷ xs) ys world = make_calls-append xs ys _

  results-append :
      (xs ys : List (H160 × RuntimeCall)) (world : World)
      → results (xs ++ ys) world ≡ results xs world ++ results ys (make_calls xs world)
  results-append [] ys world = refl
  results-append ((source, call) ∷ xs) ys world =
      let (result, next) = dispatch_call call (record { address = source }) world in
      ap (λ rs. result ∷ rs) (results-append xs ys next)

  -- What a sequence of messages has added to a state.
  abbrev pub HasDispatched :
      List MessageId → List (H160 × RuntimeCall) → State runtime → State runtime → Type 0
  HasDispatched ids calls s s' =
      (map id_of s'.events ≡ map id_of s.events ++ ids)
      × (results_of s'.events ≡ results_of s.events ++ results calls s.world)
      × (s'.world ≡ make_calls calls s.world)

  dispatch-HasDispatched :
      (m : Sent) (s : State runtime)
      → HasDispatched
          (m.id ∷ [])
          (decoded_call m.source (decode_call m.payload))
          s
          (dispatch runtime m.source m.id m.payload s)
  unfolding dispatch dispatch_decoded dispatch_allowed deposit_event
  dispatch-HasDispatched m s = elim (Result-cases (decode_call m.payload)) [
    | inr (x, e) ↦ rw e (map-append s.events _, results_of-append s.events _, refl)
    | inl (call, e) ↦ elim (Bool-cases (call_filter call)) [
      | inl allowed ↦ rw (e, allowed) (map-append s.events _, results_of-append s.events _, refl)
      | inr rejected ↦ rw (e, rejected) (map-append s.events _, results_of-append s.events _, refl)
    ]
  ]

  -- After a sequence of messages, the events of the pallet are one for each message, in order and
  -- under its id; the storage of the runtime is what the calls that decode and pass the filter
  -- make of it, in order and each with the origin of its source; and the results in the events are
  -- the results of these calls.
  pub dispatch_all-HasDispatched :
      (ms : List Sent) (s : State runtime)
      → HasDispatched (map Sent.id ms) (accepted_calls ms) s (dispatch_all ms s)
  dispatch_all-HasDispatched [] s = (sym (append-nil _), sym (append-nil _), refl)
  dispatch_all-HasDispatched (m ∷ ms) s =
      let next = dispatch runtime m.source m.id m.payload s in
      let first = decoded_call m.source (decode_call m.payload) in
      let (ids, results_e, world) = dispatch-HasDispatched m s in
      let (ids', results_e', world') = dispatch_all-HasDispatched ms next in
      (
        ids'
            ∙ ap (λ xs. xs ++ map Sent.id ms) ids
            ∙ append_assoc (map id_of s.events) (m.id ∷ []) (map Sent.id ms),
        results_e'
            ∙ ap₂ (λ xs w. xs ++ results (accepted_calls ms) w) results_e world
            ∙ append_assoc (results_of s.events) (results first s.world)
                (results (accepted_calls ms) (make_calls first s.world))
            ∙ ap (λ xs. results_of s.events ++ xs)
                (sym (results-append first (accepted_calls ms) s.world)),
        world'
            ∙ ap (make_calls (accepted_calls ms)) world
            ∙ sym (make_calls-append first (accepted_calls ms) s.world),
      )
