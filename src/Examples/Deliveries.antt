-- ===== src/Examples/Deliveries.antt =====
-- Examples for the inbound channel under each of the two clients.
use snowbridge.Shared.{true, none, List, [], ◌∷◌, All, length, ◌≡◌, refl}
use snowbridge.Shared.Storage.{insert}
use snowbridge.Core.{signed}
use snowbridge.Ethereum.Header.{Header}
use snowbridge.Light.{LightClient, empty_client}
use snowbridge.Light.Calls as Calls
use snowbridge.Light.Verify.{verify, verify_receipt_inclusion}
use snowbridge.Inbound.Decode.{envelope_of}
use snowbridge.Ethereum.Log.{list_eq, log_eq, decode_log}
use snowbridge.Ethereum.Receipt.{contains_log, decode_bloom, decode_list, decode_receipt}
use snowbridge.Ethereum.Mpt.{decode_short}
use snowbridge.Ethereum.ReceiptProof.{apply_merkle_proof, check_receipt_proof}
use snowbridge.Beacon.Client.Runs as Runs
use snowbridge.Inbound as In
use snowbridge.Bridge.{Step, step, run, IsTraced}
use snowbridge.Bridge.Clients.{beacon, light, beacon_dispatched, light_dispatched}
use snowbridge.Examples.Toy.{toy_hash}
use snowbridge.Examples.Receipts.{toy_crate, client, message, node_bytes}
use snowbridge.Examples.Channels.{decode_event}
use snowbridge.Examples.Updates.{config}
use snowbridge.Examples.Imports.{toy_setup, header_after, a_header}

abbrev to_beacon : List (Step Runs.Submission)
to_beacon =
    Step.deliver (signed 1) message
    ∷ Step.update (record { now = 3; origin = signed 1; call = Runs.Extrinsic.unblock })
    ∷ Step.deliver (signed 2) message
    ∷ []

beacon_dispatched_example :
    All
      (IsTraced (beacon config toy_crate toy_hash) decode_event to_beacon (client, In.genesis 5))
      (run
        (beacon config toy_crate toy_hash)
        decode_event
        to_beacon
        (client, In.genesis 5)).1.dispatched
beacon_dispatched_example =
    beacon_dispatched config toy_crate toy_hash decode_event client 5 to_beacon

abbrev proving : Header
proving = record (header_after 0 11 109) { receipts_root = toy_hash node_bytes }

abbrev light_client : LightClient
light_client = record empty_client { headers = insert 33 (a_header proving true) (λ h. none) }

abbrev to_light : List (Step Calls.Submission)
to_light = Step.deliver (signed 1) message ∷ Step.deliver (signed 2) message ∷ []

light_dispatched_example :
    All
      (IsTraced (light toy_setup) decode_event to_light (light_client, In.genesis 5))
      (run (light toy_setup) decode_event to_light (light_client, In.genesis 5)).1.dispatched
light_dispatched_example = light_dispatched toy_setup decode_event light_client 5 to_light

-- The message is delivered by the first of the calls, and only once.
delivered_once :
    length (run (light toy_setup) decode_event to_light (light_client, In.genesis 5)).1.dispatched
    ≡ 1
unfolding light step In.submit envelope_of verify verify_receipt_inclusion check_receipt_proof
    apply_merkle_proof decode_receipt decode_list decode_bloom decode_short decode_log contains_log
    log_eq list_eq
delivered_once = refl
