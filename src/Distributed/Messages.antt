-- ===== src/Distributed/Messages.antt =====
-- The messages of src/dnc/distributed/protocol.py.
use dynamic_neural_computing.Prelude.{ℕ, Bool}

pub data HandoffMessageType : Type 0 where
  prepare commit abort state_transfer ack nack heartbeat : HandoffMessageType

pub data HandoffStatus : Type 0 where
  pending preparing committed aborted failed : HandoffStatus

-- The payloads: a state, the flag of an acknowledgment, or an error.
pub data Payload : Type 0 where
  state : ℕ → Payload
  already_processed : Bool → Payload

pub record DistributedHandoffMessage : Type 0 where
  pub message_id : ℕ
  pub handoff_id : ℕ
  pub sender_node_id : ℕ
  pub receiver_node_id : ℕ
  pub message_type : HandoffMessageType
  pub step_index : ℕ
  pub state_payload : Payload
  pub timestamp : ℕ
  pub provenance_ref : ℕ
  pub retry_count : ℕ
