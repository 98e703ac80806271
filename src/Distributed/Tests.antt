-- ===== src/Distributed/Tests.antt =====
-- Runs of the protocol.
use dynamic_neural_computing.Prelude.{
  ◌==◌, if◌then◌else◌, ℕ, ◌≡◌, refl, true, false, IsNodup, keys, none, some, List, [], ◌∷◌, lookup,
  arith,
}
use dynamic_neural_computing.Distributed.{
  HandoffMessageType, state_transfer, abort, pending, committed, aborted, state, ack,
  already_processed, DistributedHandoffMessage, IdempotentReceiver, new_receiver,
  DistributedHandoffRecord, DistributedCoordinator, new_coordinator, Received, receive_message,
  initiate_handoff,
}
use dynamic_neural_computing.Distributed.Receiver.{IsValid}
use dynamic_neural_computing.Distributed.Handoffs.{Delivery, deliver, duplicate_ignored}
use dynamic_neural_computing.Distributed.Outcomes.{deliver-IsValid, abort_overwrites}

abbrev message : ℕ → HandoffMessageType → DistributedHandoffMessage
message i type = record {
  message_id = i;
  handoff_id = 4;
  sender_node_id = 1;
  receiver_node_id = 2;
  message_type = type;
  step_index = 0;
  state_payload = state 9;
  timestamp = 0;
  provenance_ref = 0;
  retry_count = 0;
}

abbrev delivery : ℕ → HandoffMessageType → Delivery
delivery i type = record { ack_id = 50; now = i; message = message i type }

abbrev later : List Delivery
later = delivery 11 state_transfer ∷ delivery 12 abort ∷ []

abbrev start : DistributedCoordinator × IdempotentReceiver
start = deliver [] (new_coordinator 2, new_receiver 3)

duplicate_ignored_example :
    let first : Received = receive_message 50 10 (message 10 state_transfer) start.0 start.1 in
    let after : DistributedCoordinator × IdempotentReceiver =
      deliver later (first.coordinator, first.receiver) in
    receive_message 51 13 (message 10 state_transfer) after.0 after.1 ≡ record {
      reply = some (record {
        message_id = 51;
        handoff_id = 4;
        sender_node_id = 2;
        receiver_node_id = 1;
        message_type = ack;
        step_index = 0;
        state_payload = already_processed true;
        timestamp = 13;
        provenance_ref = 0;
        retry_count = 0;
      });
      coordinator = after.0;
      receiver = after.1;
    }
duplicate_ignored_example =
    duplicate_ignored 3 2 50 10 51 13 [] later (message 10 state_transfer) refl (omega arith)

deliver-IsValid_example : IsValid (deliver later (new_coordinator 2, new_receiver 1)).1
deliver-IsValid_example = deliver-IsValid 1 2 later

abbrev handoff : DistributedHandoffRecord
handoff = record {
  handoff_id = 4;
  sender_node_id = 1;
  receiver_node_id = 2;
  status = pending;
  completed_at = none;
}

abbrev initiated : DistributedCoordinator
initiated = (initiate_handoff 4 10 0 1 2 (state 9) 0 0 (new_coordinator 2)).1

is_pending_now : lookup 4 initiated.handoff_records ≡ some handoff
unfolding initiate_handoff new_coordinator
is_pending_now = refl

one_state : IsNodup (keys initiated.participant_states)
unfolding initiate_handoff new_coordinator
one_state = (refl, tt)

abort_overwrites_example :
    (first second : Received) × (receive_message 50 10
        (message 10 state_transfer)
        initiated
        (new_receiver 3)
      ≡ first)
    × (receive_message 52 14 (message 12 abort) first.coordinator first.receiver ≡ second)
    × (lookup 4 first.coordinator.participant_states ≡ some (state 9))
    × (lookup 4 first.coordinator.handoff_records
        ≡ some (record handoff { status = committed; completed_at = some 10 }))
    × (lookup 4 second.coordinator.participant_states ≡ none)
    × ((i : ℕ)
        → lookup i second.coordinator.handoff_records ≡ (
            if i == 4
            then some (record handoff { status = aborted; completed_at = some 10 })
            else lookup i initiated.handoff_records))
    × (second.reply
        ≡ some (record {
          message_id = 52;
          handoff_id = 4;
          sender_node_id = 2;
          receiver_node_id = 1;
          message_type = ack;
          step_index = 0;
          state_payload = already_processed false;
          timestamp = 14;
          provenance_ref = 0;
          retry_count = 0;
        }))
unfolding new_receiver
abort_overwrites_example =
    abort_overwrites 50 10 52 14 (message 10 state_transfer) (message 12 abort) initiated
      (new_receiver 3) handoff refl refl refl (ground arith) refl refl (omega arith) is_pending_now
      one_state
