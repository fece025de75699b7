-- ===== src/Dispatch.antt =====
-- The dispatch pallet, parachain/pallets/dispatch/src/lib.rs. The runtime's calls, their decoder,
-- filter and effect on the runtime's storage are its parameters.
pub mod Sequences
use snowbridge.Shared.{ℕ, Bool, true, false, not, List, [], ◌∷◌, ◌++◌, if◌then◌else◌}
use snowbridge.Shared.Bytes.{Bytes, H160}
use snowbridge.Shared.Outcome.{Result, ok, err}
use snowbridge.Core.{MessageId}

pub data DispatchError : Type 0 where
  dispatch_error : ℕ → DispatchError

pub data Event : Type 0 where
  message_dispatched : MessageId → Result DispatchError (Unit {0}) → Event
  message_rejected : MessageId → Event
  message_decode_failed : MessageId → Event

-- `RawOrigin(H160)`, the origin of a call that comes from Ethereum.
pub record RawOrigin : Type 0 where
  pub address : H160

-- `EnsureEthereumAccount::try_origin`, over what the runtime's origin converts to.
unfoldable pub try_origin : {O : Type 0} → Result O RawOrigin → Result O H160
try_origin (ok o) = ok o.address
try_origin (err o) = err o

-- The runtime, as far as the pallet uses it.
pub record Runtime : Type 1 where
  pub RuntimeCall : Type 0
  pub World : Type 0
  pub decode_call : Bytes → Result ℕ RuntimeCall
  pub call_filter : RuntimeCall → Bool
  pub dispatch_call : RuntimeCall → RawOrigin → World → Result DispatchError (Unit {0}) × World

module _ (runtime : Runtime) where
  open runtime use {RuntimeCall, World, decode_call, call_filter, dispatch_call}

  pub record State : Type 0 where
    pub world : World
    pub events : List Event

  deposit_event : Event → State → State
  deposit_event e s = record s { events = s.events ++ e ∷ [] }

  -- What is done with a call that the filter lets through.
  dispatch_allowed : RuntimeCall → H160 → MessageId → State → State
  unfolding deposit_event
  dispatch_allowed call source id s =
      let (result, world) = dispatch_call call (record { address = source }) s.world in
      deposit_event (message_dispatched id result) (record s { world = world })

  dispatch_decoded : Result ℕ RuntimeCall → H160 → MessageId → State → State
  unfolding dispatch_allowed deposit_event
  dispatch_decoded (err e) source id s = deposit_event (message_decode_failed id) s
  dispatch_decoded (ok call) source id s =
      if not (call_filter call)
      then deposit_event (message_rejected id) s
      else dispatch_allowed call source id s

  unfoldable pub dispatch : H160 → MessageId → Bytes → State → State
  unfolding dispatch_decoded
  dispatch source id payload s = dispatch_decoded (decode_call payload) source id s
