-- ===== src/Distributed.antt =====
-- src/dnc/distributed/protocol.py: the receiver that discards duplicates, and the coordinator of
-- handoffs. Strings and payloads are numbers. `uuid.uuid4` and `time.time` are parameters: each call
-- takes the identifiers and the time that it draws. Nothing that the coordinator calls on a
-- STATE_TRANSFER raises in the model, so its handler of exceptions is not entered; fields of a record
-- that no operation of the model writes are left out.
mod Messages
pub mod Receiver
pub mod Handoffs
pub mod Outcomes
mod Tests
unfoldable pub use Messages.*
use dynamic_neural_computing.Prelude.{
  ℕ, suc, Bool, true, false, not, ◌==◌, ◌&&◌, ◌||◌, Option, none, some, List, [], ◌∷◌, mem, length,
  ltb, leb, Dict, lookup, insert, erase, or_else, if◌then◌else◌,
}

-- What a processed message gave.
pub data Result : Type 0 where
  accepted committed_now aborted_now : Result

pub record CachedResult : Type 0 where
  pub result : Result
  pub timestamp : ℕ

pub record IdempotentReceiver : Type 0 where
  pub window_size : ℕ
  pub seen_ids : List ℕ
  pub message_history : Dict CachedResult

-- `IdempotentReceiver(window_size)`
pub new_receiver : ℕ → IdempotentReceiver
new_receiver window_size = record { window_size = window_size; seen_ids = []; message_history = [] }

pub is_duplicate : ℕ → IdempotentReceiver → Bool
is_duplicate message_id receiver = mem message_id receiver.seen_ids

-- `sorted(items, key=timestamp)[0][0]`: the first entry with the least time.
pub oldest_from : ℕ → CachedResult → Dict CachedResult → ℕ
oldest_from k c [] = k
oldest_from k c ((j, x) ∷ d) = elim (ltb x.timestamp c.timestamp) [
  | true ↦ oldest_from j x d
  | false ↦ oldest_from k c d
]

pub oldest : Dict CachedResult → Option ℕ
unfolding oldest_from
oldest [] = none
oldest ((k, c) ∷ d) = some (oldest_from k c d)

abbrev pub discard : ℕ → List ℕ → List ℕ
discard x [] = []
discard x (y ∷ ys) = let rest = y ∷ discard x ys in if x == y then ys else rest

pub forget : ℕ → IdempotentReceiver → IdempotentReceiver
forget k receiver = record receiver {
  seen_ids = discard k receiver.seen_ids;
  message_history = erase k receiver.message_history;
}

-- The end of `record`: the oldest message leaves a window that is too full.
pub shrink : IdempotentReceiver → IdempotentReceiver
unfolding oldest forget
shrink receiver =
    if ltb receiver.window_size (length receiver.seen_ids)
    then elim (oldest receiver.message_history) [ none ↦ receiver | some k ↦ forget k receiver ]
    else receiver

-- `record`, at the time that it draws.
pub remember : ℕ → DistributedHandoffMessage → Result → IdempotentReceiver → IdempotentReceiver
unfolding shrink
remember now message result receiver =
    if mem message.message_id receiver.seen_ids
    then receiver
    else shrink (record receiver {
      seen_ids = message.message_id ∷ receiver.seen_ids;
      message_history =
          insert message.message_id (record { result = result; timestamp = now })
            receiver.message_history;
    })

pub get_cached_result : ℕ → IdempotentReceiver → Option Result
get_cached_result message_id receiver = elim (lookup message_id receiver.message_history) [
  | none ↦ none
  | some c ↦ some c.result
]

pub record DistributedHandoffRecord : Type 0 where
  pub handoff_id : ℕ
  pub sender_node_id : ℕ
  pub receiver_node_id : ℕ
  pub status : HandoffStatus
  pub completed_at : Option ℕ

pub record DistributedCoordinator : Type 0 where
  pub node_id : ℕ
  pub handoff_records : Dict DistributedHandoffRecord
  pub participant_states : Dict Payload

-- `DistributedCoordinator(node_id)`
pub new_coordinator : ℕ → DistributedCoordinator
new_coordinator node_id = record {
  node_id = node_id;
  handoff_records = [];
  participant_states = [];
}

pub initiate_handoff :
    (handoff_id message_id now sender_node_id receiver_node_id : ℕ) (state_payload : Payload)
    (provenance_ref step_index : ℕ)
    → DistributedCoordinator
    → DistributedHandoffMessage × DistributedCoordinator
initiate_handoff handoff_id message_id now sender_node_id receiver_node_id state_payload
      provenance_ref step_index c =
    (
      record {
        message_id = message_id;
        handoff_id = handoff_id;
        sender_node_id = sender_node_id;
        receiver_node_id = receiver_node_id;
        message_type = state_transfer;
        step_index = step_index;
        state_payload = state_payload;
        timestamp = now;
        provenance_ref = provenance_ref;
        retry_count = 0;
      },
      record c {
        handoff_records =
            insert handoff_id
              (record {
                handoff_id = handoff_id;
                sender_node_id = sender_node_id;
                receiver_node_id = receiver_node_id;
                status = pending;
                completed_at = none;
              })
              c.handoff_records;
        participant_states = insert handoff_id state_payload c.participant_states;
      },
    )

abbrev pub is_committed : HandoffStatus → Bool
is_committed committed = true
is_committed _ = false

-- `_update_record` without an error.
pub update_record : ℕ → ℕ → HandoffStatus → DistributedCoordinator → DistributedCoordinator
update_record now handoff_id status c = elim (lookup handoff_id c.handoff_records) [
  | none ↦ c
  | some r ↦ record c {
    handoff_records =
        insert handoff_id
          (record r {
            status = status;
            completed_at = if is_committed status then some now else r.completed_at;
          })
          c.handoff_records;
  }
]

-- `_make_ack`, under the identifier and at the time that it draws.
pub make_ack : ℕ → ℕ → DistributedHandoffMessage → Bool → DistributedHandoffMessage
make_ack message_id now message processed = record {
  message_id = message_id;
  handoff_id = message.handoff_id;
  sender_node_id = message.receiver_node_id;
  receiver_node_id = message.sender_node_id;
  message_type = ack;
  step_index = message.step_index;
  state_payload = already_processed processed;
  timestamp = now;
  provenance_ref = message.provenance_ref;
  retry_count = 0;
}

-- What `receive_message` leaves: its reply, the coordinator and the receiver.
pub record Received : Type 0 where
  pub reply : Option DistributedHandoffMessage
  pub coordinator : DistributedCoordinator
  pub receiver : IdempotentReceiver

-- The branches of `receive_message` for a message that is no duplicate.
pub process :
    (ack_id now : ℕ)
    → HandoffMessageType
    → DistributedHandoffMessage
    → DistributedCoordinator
    → IdempotentReceiver
    → Received
unfolding remember update_record make_ack
process ack_id now state_transfer m c receiver = record {
  reply = some (make_ack ack_id now m false);
  coordinator =
      update_record now m.handoff_id committed (record c {
        participant_states = insert m.handoff_id m.state_payload c.participant_states;
      });
  receiver = remember now m accepted receiver;
}
process ack_id now commit m c receiver = record {
  reply = some (make_ack ack_id now m false);
  coordinator = update_record now m.handoff_id committed c;
  receiver = remember now m committed_now receiver;
}
process ack_id now abort m c receiver = record {
  reply = some (make_ack ack_id now m false);
  coordinator =
      update_record now m.handoff_id aborted
        (record c { participant_states = erase m.handoff_id c.participant_states });
  receiver = remember now m aborted_now receiver;
}
process ack_id now _ m c receiver = record { reply = none; coordinator = c; receiver = receiver }

pub receive_message :
    (ack_id now : ℕ)
    → DistributedHandoffMessage
    → DistributedCoordinator
    → IdempotentReceiver
    → Received
unfolding is_duplicate make_ack process
receive_message ack_id now m c receiver =
    if is_duplicate m.message_id receiver
    then record { reply = some (make_ack ack_id now m true); coordinator = c; receiver = receiver }
    else process ack_id now m.message_type m c receiver

pub get_record : ℕ → DistributedCoordinator → Option DistributedHandoffRecord
get_record handoff_id c = lookup handoff_id c.handoff_records

abbrev pub is_pending : HandoffStatus → Bool
is_pending pending = true
is_pending _ = false

-- The comprehension of `list_pending_handoffs`.
pub pending_in : Dict DistributedHandoffRecord → List ℕ
pending_in [] = []
pending_in ((k, r) ∷ d) = let rest = pending_in d in if is_pending r.status then k ∷ rest else rest

pub list_pending_handoffs : DistributedCoordinator → List ℕ
unfolding pending_in
list_pending_handoffs c = pending_in c.handoff_records

-- `handoff_needs_distribution`, by the model of distribution that the contract names, if there is a
-- contract; a contract without that attribute names `single_node`.
pub data DistributionModel : Type 0 where
  single_node distributed multi_node cross_process other_model : DistributionModel

pub handoff_needs_distribution : Option DistributionModel → Bool
handoff_needs_distribution none = false
handoff_needs_distribution (some distributed) = true
handoff_needs_distribution (some multi_node) = true
handoff_needs_distribution (some cross_process) = true
handoff_needs_distribution (some single_node) = false
handoff_needs_distribution (some other_model) = false
