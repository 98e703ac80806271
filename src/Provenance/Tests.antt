-- ===== src/Provenance/Tests.antt =====
-- The theorem on forged events, with a hash that separates one event's data from all others.
use dynamic_neural_computing.Prelude.{
  ℕ, ◌≡◌, refl, ap, ◌==◌, ◌&&◌, Option, none, [], ◌∷◌, raise, provenance_tampering, arith,
  if◌then◌else◌,
}
use dynamic_neural_computing.Provenance.{
  ProvenanceEvent, ProvenanceLog, EventData, EventType, new_log, data_of, append, verify_chain,
  decision,
}
use dynamic_neural_computing.Provenance.Chain.{verify_chain_tampered, last_hash}

-- The data of the first event of execution 9.
abbrev first_data : EventData
first_data = record {
  event_id = 1;
  event_type = decision;
  timestamp = 100;
  execution_id = 9;
  step_index = none;
  causal_ref = none;
  payload = 5;
  prev_integrity_hash = 0;
}

abbrev hash_fields : EventType → Option ℕ → Option ℕ → ℕ → ℕ → ℕ → ℕ → ℕ → ℕ
hash_fields decision none none i t x p h =
    if i == 1 && t == 100 && x == 9 && p == 5 && h == 0 then 51 else 0
hash_fields _ _ _ i t x p h = 0

-- 51 for these data, and 0 for all others.
abbrev separating : EventData → ℕ
separating d =
    hash_fields d.event_type d.step_index d.causal_ref d.event_id d.timestamp d.execution_id
      d.payload d.prev_integrity_hash

fields_separated :
    (type : EventType) (step cause : Option ℕ) (i t x p h : ℕ)
    → hash_fields type step cause i t x p h ≡ 51
    → record {
      event_id = i;
      event_type = type;
      timestamp = t;
      execution_id = x;
      step_index = step;
      causal_ref = cause;
      payload = p;
      prev_integrity_hash = h;
    }
      ≡ first_data
fields_separated decision none none i t x p h e =
    let same_i : i ≡ 1 = ground (arith, e) in
    let same_t : t ≡ 100 = ground (arith, e) in
    let same_x : x ≡ 9 = ground (arith, e) in
    let same_p : p ≡ 5 = ground (arith, e) in
    let same_h : h ≡ 0 = ground (arith, e) in rw (same_i, same_t, same_x, same_p, same_h) refl
fields_separated _ _ _ i t x p h e = absurd (ground (arith, e))

abbrev one_event : ProvenanceLog
one_event = (append separating decision none none 5 1 100 (new_log 9)).1

abbrev first : ProvenanceEvent
first = record {
  event_id = 1;
  event_type = decision;
  timestamp = 100;
  execution_id = 9;
  step_index = none;
  causal_ref = none;
  payload = 5;
  integrity_hash = 51;
}

abbrev forged : ProvenanceEvent
forged = record first { timestamp = 101 }

verify_chain_tampered_example :
    verify_chain separating (record one_event { events = forged ∷ [] }) ≡ raise provenance_tampering
unfolding append new_log verify_chain data_of last_hash
verify_chain_tampered_example =
    verify_chain_tampered separating one_event [] [] first forged refl refl refl
      (λ same. absurd (omega (arith, ap (λ e. e.timestamp) same)))
      (λ d same.
        fields_separated d.event_type d.step_index d.causal_ref d.event_id d.timestamp
          d.execution_id d.payload d.prev_integrity_hash same)
