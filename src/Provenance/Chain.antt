-- ===== src/Provenance/Chain.antt =====
-- The hash chain of src/dnc/observability/provenance.py: what `append` keeps, and what
-- `verify_chain` notices.
use dynamic_neural_computing.Prelude.{
  ℕ, ◌≡◌, ◌≢◌, refl, sym, ap, ◌∙◌, true, Option, List, [], ◌∷◌, ◌++◌, ok, raise,
  provenance_tampering, arith,
}
use dynamic_neural_computing.Provenance.{
  EventType, ProvenanceEvent, ProvenanceLog, EventData, new_log, data_of, make_event, store, append,
  verify_from, verify_chain,
}

-- The digest that the next event of a chain takes up.
unfoldable pub last_hash : ℕ → List ProvenanceEvent → ℕ
last_hash prev [] = prev
last_hash prev (e ∷ es) = last_hash e.integrity_hash es

last_hash-snoc :
    (prev : ℕ) (es : List ProvenanceEvent) (e : ProvenanceEvent)
    → last_hash prev (es ++ e ∷ []) ≡ e.integrity_hash
unfolding last_hash
last_hash-snoc prev [] e = refl
last_hash-snoc prev (x ∷ es) e = last_hash-snoc x.integrity_hash es e

-- The event with these data and this digest.
abbrev event_with : ℕ → EventData → ProvenanceEvent
event_with integrity_hash d = record {
  event_id = d.event_id;
  event_type = d.event_type;
  timestamp = d.timestamp;
  execution_id = d.execution_id;
  step_index = d.step_index;
  causal_ref = d.causal_ref;
  payload = d.payload;
  integrity_hash = integrity_hash;
}

module _ (compute_hash : EventData → ℕ) where
  -- The chain verifies, and the log's digest is that of its last event.
  pub record IsChained (log : ProvenanceLog) : Type 0 where
    pub verified : verify_chain compute_hash log ≡ ok true
    pub at_end : log.prev_hash ≡ last_hash 0 log.events

  pub new_log-IsChained : (execution_id : ℕ) → IsChained (new_log execution_id)
  unfolding new_log verify_chain last_hash
  new_log-IsChained execution_id = record { verified = refl; at_end = refl }

  verify_from-snoc :
      (prev : ℕ) (es : List ProvenanceEvent) (e : ProvenanceEvent)
      → verify_from compute_hash prev es ≡ ok true
      → compute_hash (data_of e (last_hash prev es)) ≡ e.integrity_hash
      → verify_from compute_hash prev (es ++ e ∷ []) ≡ ok true
  unfolding verify_from last_hash
  verify_from-snoc prev [] e v h = ground (arith, h)
  verify_from-snoc prev (x ∷ es) e v h =
      ground (arith, verify_from-snoc x.integrity_hash es e, h, v)

  -- A log that verifies and whose digest is that of its last event is such a log again after any
  -- append.
  pub append-IsChained :
      (event_type : EventType) (step_index causal_ref : Option ℕ) (payload event_id time : ℕ)
      (log : ProvenanceLog)
      → IsChained log
      → IsChained (append compute_hash event_type step_index causal_ref payload event_id time log).1
  unfolding append verify_chain make_event store data_of
  append-IsChained event_type step_index causal_ref payload event_id time log c =
      let e : ProvenanceEvent =
        make_event compute_hash event_type step_index causal_ref payload event_id time log in
      record {
        verified = verify_from-snoc 0 log.events e c.verified (ground (arith, c.at_end));
        at_end = sym (last_hash-snoc 0 log.events e);
      }

  verify_from-at :
      (prev : ℕ) (before after : List ProvenanceEvent) (e : ProvenanceEvent)
      → verify_from compute_hash prev (before ++ e ∷ after) ≡ ok true
      → compute_hash (data_of e (last_hash prev before)) ≡ e.integrity_hash
  unfolding verify_from last_hash
  verify_from-at prev [] after e v = ground arith
  verify_from-at prev (x ∷ before) after e v =
      verify_from-at x.integrity_hash before after e (ground (arith, v))

  verify_from_tampered :
      (prev : ℕ) (before after : List ProvenanceEvent) (e e' : ProvenanceEvent)
      → verify_from compute_hash prev (before ++ e ∷ after) ≡ ok true
      → e'.integrity_hash ≡ e.integrity_hash
      → compute_hash (data_of e' (last_hash prev before))
        ≢ compute_hash (data_of e (last_hash prev before))
      → verify_from compute_hash prev (before ++ e' ∷ after) ≡ raise provenance_tampering
  unfolding verify_from last_hash
  verify_from_tampered prev [] after e e' v same differ = ground arith
  verify_from_tampered prev (x ∷ before) after e e' v same differ = ground (
    arith,
    verify_from_tampered x.integrity_hash before after e e' (ground (arith, v)) same differ,
  )

  -- In a chain that verifies, an event is replaced by another one with the same digest, and no data
  -- but its own, with the digest before it, have that digest: then the chain does not verify any
  -- more.
  pub verify_chain_tampered :
      (log : ProvenanceLog) (before after : List ProvenanceEvent) (e e' : ProvenanceEvent)
      → log.events ≡ before ++ e ∷ after
      → verify_chain compute_hash log ≡ ok true
      → e'.integrity_hash ≡ e.integrity_hash
      → e' ≢ e
      → ((x : EventData)
          → compute_hash x ≡ e.integrity_hash
          → x ≡ record {
            event_id = e.event_id;
            event_type = e.event_type;
            timestamp = e.timestamp;
            execution_id = e.execution_id;
            step_index = e.step_index;
            causal_ref = e.causal_ref;
            payload = e.payload;
            prev_integrity_hash = last_hash 0 before;
          })
      → verify_chain compute_hash (record log { events = before ++ e' ∷ after })
        ≡ raise provenance_tampering
  unfolding verify_chain data_of
  verify_chain_tampered log before after e e' split v same other apart =
      let whole : verify_from compute_hash 0 (before ++ e ∷ after) ≡ ok true =
        ap (verify_from compute_hash 0) (sym split) ∙ v in
      verify_from_tampered 0 before after e e' whole same λ h.
        let met : data_of e' (last_hash 0 before) ≡ data_of e (last_hash 0 before) =
          apart (data_of e' (last_hash 0 before)) (h ∙ verify_from-at 0 before after e whole) in
        other (
          ap (event_with e'.integrity_hash) met
          ∙ ap (λ x. event_with x (data_of e (last_hash 0 before))) same)
