-- ===== src/Provenance.antt =====
-- src/dnc/observability/provenance.py: the event log and its hash chain. Identifiers, digests and
-- payloads are numbers, and 0 is the digest of 64 zeros. SHA-256 of the text of an event's fields is
-- a parameter, and the fresh identifier and the time are arguments of `append`. A causal reference
-- that is given is not the empty string.
pub mod Chain
mod Tests
use dynamic_neural_computing.Prelude.{
  ℕ, Bool, true, false, not, ◌==◌, Option, none, some, List, [], ◌∷◌, ◌++◌, Dict, lookup, insert,
  mem, length, or_else, reverse, get_last?, Outcome, ok, raise, provenance_tampering,
  causal_chain_broken, key_error, require, if◌then◌else◌, ◌>>=◌, zero, suc, out_of_fuel, map,
}

pub data EventType : Type 0 where
  step_dispatched step_completed step_failed checkpoint_created replan_triggered graph_diff_computed
        decision module_registered module_deregistered module_retired learning_event
        kb_update_committed kb_rollback execution_terminated regression_detected
        structural_transaction_begin structural_transaction_rolled_back structural_mutation_applied
        structural_transaction_committed structural_graph_version_created :
      EventType

pub record ProvenanceEvent : Type 0 where
  pub event_id : ℕ
  pub event_type : EventType
  pub timestamp : ℕ
  pub execution_id : ℕ
  pub step_index : Option ℕ
  pub causal_ref : Option ℕ
  pub payload : ℕ
  pub integrity_hash : ℕ

-- `event_data`: what is hashed, with the hash of the event before.
pub record EventData : Type 0 where
  pub event_id : ℕ
  pub event_type : EventType
  pub timestamp : ℕ
  pub execution_id : ℕ
  pub step_index : Option ℕ
  pub causal_ref : Option ℕ
  pub payload : ℕ
  pub prev_integrity_hash : ℕ

pub record ProvenanceLog : Type 0 where
  pub execution_id : ℕ
  pub events : List ProvenanceEvent
  pub prev_hash : ℕ
  pub event_index : Dict ProvenanceEvent
  pub causal_index : Dict (List ProvenanceEvent)

pub new_log : ℕ → ProvenanceLog
new_log execution_id = record {
  execution_id = execution_id;
  events = [];
  prev_hash = 0;
  event_index = [];
  causal_index = [];
}

-- The data of an event that is in the log.
pub data_of : ProvenanceEvent → ℕ → EventData
data_of e prev = record {
  event_id = e.event_id;
  event_type = e.event_type;
  timestamp = e.timestamp;
  execution_id = e.execution_id;
  step_index = e.step_index;
  causal_ref = e.causal_ref;
  payload = e.payload;
  prev_integrity_hash = prev;
}

-- The event goes to the effects of its cause.
pub index_cause : ProvenanceEvent → Dict (List ProvenanceEvent) → Dict (List ProvenanceEvent)
index_cause e d = elim e.causal_ref [
  | none ↦ d
  | some c ↦ insert c (or_else (lookup c d) [] ++ e ∷ []) d
]

-- `query_causal_chain` from an event back to the one without a cause, the last first, on fuel.
pub causes : ℕ → Dict ProvenanceEvent → ℕ → Outcome (List ProvenanceEvent)
causes zero index current = raise out_of_fuel
causes (suc fuel) index current = elim (lookup current index) [
  | none ↦ raise causal_chain_broken
  | some e ↦ elim e.causal_ref [
    | none ↦ ok (e ∷ [])
    | some c ↦ causes fuel index c >>= λ rest. ok (e ∷ rest)
  ]
]

pub query_causal_chain : ℕ → ProvenanceLog → Outcome (List ProvenanceEvent)
unfolding causes
query_causal_chain event_id log =
    causes (suc (length log.events)) log.event_index event_id >>= λ chain. ok (reverse chain)

pub get_item : ℕ → ProvenanceLog → Outcome ProvenanceEvent
get_item event_id log = require (lookup event_id log.event_index)

pub latest : ProvenanceLog → Option ProvenanceEvent
latest log = get_last? log.events

pub size : ProvenanceLog → ℕ
size log = length log.events

module _ (compute_hash : EventData → ℕ) where
  pub make_event : EventType → Option ℕ → Option ℕ → ℕ → ℕ → ℕ → ProvenanceLog → ProvenanceEvent
  make_event event_type step_index causal_ref payload event_id time log = record {
    event_id = event_id;
    event_type = event_type;
    timestamp = time;
    execution_id = log.execution_id;
    step_index = step_index;
    causal_ref = causal_ref;
    payload = payload;
    integrity_hash = compute_hash (record {
      event_id = event_id;
      event_type = event_type;
      timestamp = time;
      execution_id = log.execution_id;
      step_index = step_index;
      causal_ref = causal_ref;
      payload = payload;
      prev_integrity_hash = log.prev_hash;
    });
  }

  -- The log with one more event.
  pub store : ProvenanceEvent → ProvenanceLog → ProvenanceLog
  unfolding index_cause
  store event log = record log {
    events = log.events ++ event ∷ [];
    event_index = insert event.event_id event log.event_index;
    causal_index = index_cause event log.causal_index;
    prev_hash = event.integrity_hash;
  }

  pub append :
      EventType → Option ℕ → Option ℕ → ℕ → ℕ → ℕ → ProvenanceLog → ProvenanceEvent × ProvenanceLog
  unfolding make_event store
  append event_type step_index causal_ref payload event_id time log =
      let event = make_event event_type step_index causal_ref payload event_id time log in
      (event, store event log)

  -- The loop of `verify_chain`.
  pub verify_from : ℕ → List ProvenanceEvent → Outcome Bool
  unfolding data_of
  verify_from prev [] = ok true
  verify_from prev (e ∷ es) =
      let rest = verify_from e.integrity_hash es in
      if not (compute_hash (data_of e prev) == e.integrity_hash)
      then raise provenance_tampering
      else rest

  pub verify_chain : ProvenanceLog → Outcome Bool
  unfolding verify_from
  verify_chain log = verify_from 0 log.events
