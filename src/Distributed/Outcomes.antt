-- ===== src/Distributed/Outcomes.antt =====
-- What deliveries leave: the window of the receiver, and the record of an aborted handoff.
use dynamic_neural_computing.Prelude.{
  mem, ◌≢◌, ◌<◌, ◌==◌, length, insert, erase, lookup-insert, IsNodup-insert, if◌then◌else◌, ℕ, ◌≡◌,
  refl, sym, ap, subst, ◌∙◌, false, none, some, List, [], ◌∷◌, lookup, keys, IsNodup,
  lookup-insert_self, lookup-erase_self, arith, Bool-cases, inl, inr,
}
use dynamic_neural_computing.Distributed.{
  HandoffMessageType, prepare, commit, abort, state_transfer, ack, nack, heartbeat, committed,
  aborted, already_processed, DistributedHandoffMessage, accepted, committed_now, aborted_now,
  IdempotentReceiver, new_receiver, is_duplicate, DistributedHandoffRecord, DistributedCoordinator,
  new_coordinator, update_record, make_ack, Received, process, receive_message,
}
use dynamic_neural_computing.Distributed.Receiver.{
  remember_seen, IsValid, remember-IsValid, new_receiver-IsValid,
}
use dynamic_neural_computing.Distributed.Handoffs.{Delivery, deliver}

process-IsValid :
    (ack_id now : ℕ) (type : HandoffMessageType) (m : DistributedHandoffMessage)
    (c : DistributedCoordinator) (r : IdempotentReceiver)
    → IsValid r
    → IsValid (process ack_id now type m c r).receiver
unfolding process
process-IsValid ack_id now state_transfer m c r v = remember-IsValid now m accepted r v
process-IsValid ack_id now commit m c r v = remember-IsValid now m committed_now r v
process-IsValid ack_id now abort m c r v = remember-IsValid now m aborted_now r v
process-IsValid ack_id now prepare m c r v = v
process-IsValid ack_id now ack m c r v = v
process-IsValid ack_id now nack m c r v = v
process-IsValid ack_id now heartbeat m c r v = v

receive_message-IsValid :
    (ack_id now : ℕ) (m : DistributedHandoffMessage) (c : DistributedCoordinator)
    (r : IdempotentReceiver)
    → IsValid r
    → IsValid (receive_message ack_id now m c r).receiver
unfolding receive_message
receive_message-IsValid ack_id now m c r v = elim (Bool-cases (is_duplicate m.message_id r)) [
  | inl t ↦ rw t v
  | inr f ↦ rw f (process-IsValid ack_id now m.message_type m c r v)
]

deliver-IsValid_from :
    (xs : List Delivery) (c : DistributedCoordinator) (r : IdempotentReceiver)
    → IsValid r
    → IsValid (deliver xs (c, r)).1
unfolding deliver
deliver-IsValid_from [] c r v = v
deliver-IsValid_from (x ∷ xs) c r v =
    let out : Received = receive_message x.ack_id x.now x.message c r in
    deliver-IsValid_from xs out.coordinator out.receiver
      (receive_message-IsValid x.ack_id x.now x.message c r v)

-- After any deliveries to a new receiver, the identities it has seen are those with a cached
-- result, each once, and no more than its window.
pub deliver-IsValid :
    (window node : ℕ) (xs : List Delivery)
    → IsValid (deliver xs (new_coordinator node, new_receiver window)).1
deliver-IsValid window node xs =
    deliver-IsValid_from xs (new_coordinator node) (new_receiver window)
      (new_receiver-IsValid window)

-- A message that is no duplicate is processed by its type.
new_message :
    (ack_id now : ℕ) (type : HandoffMessageType) (m : DistributedHandoffMessage)
    (c : DistributedCoordinator) (r : IdempotentReceiver)
    → m.message_type ≡ type
    → mem m.message_id r.seen_ids ≡ false
    → receive_message ack_id now m c r ≡ process ack_id now type m c r
unfolding receive_message is_duplicate
new_message ack_id now type m c r is_type new =
    rw new (ap (λ ty. process ack_id now ty m c r) is_type)

-- A STATE_TRANSFER of a handoff that has a record, and then an ABORT of it, both new to a receiver
-- with room for one more message, where the keys of the states are distinct: the first stores the
-- state and makes the record COMMITTED, at its time; the second is acknowledged like any message
-- that was processed, takes the state away and makes the record ABORTED, still with the time of the
-- commit, and no other record has changed.
pub abort_overwrites :
    (ack_id now ack_id' now' : ℕ) (m m' : DistributedHandoffMessage) (c : DistributedCoordinator)
    (r : IdempotentReceiver) (h : DistributedHandoffRecord)
    → m.message_type ≡ state_transfer
    → m'.message_type ≡ abort
    → m'.handoff_id ≡ m.handoff_id
    → m'.message_id ≢ m.message_id
    → mem m.message_id r.seen_ids ≡ false
    → mem m'.message_id r.seen_ids ≡ false
    → length r.seen_ids < r.window_size
    → lookup m.handoff_id c.handoff_records ≡ some h
    → IsNodup (keys c.participant_states)
    → (first second : Received) × (receive_message ack_id now m c r ≡ first)
      × (receive_message ack_id' now' m' first.coordinator first.receiver ≡ second)
      × (lookup m.handoff_id first.coordinator.participant_states ≡ some m.state_payload)
      × (lookup m.handoff_id first.coordinator.handoff_records
          ≡ some (record h { status = committed; completed_at = some now }))
      × (lookup m.handoff_id second.coordinator.participant_states ≡ none)
      × ((i : ℕ)
          → lookup i second.coordinator.handoff_records ≡ (
              if i == m.handoff_id
              then some (record h { status = aborted; completed_at = some now })
              else lookup i c.handoff_records))
      × (second.reply
          ≡ some (record {
            message_id = ack_id';
            handoff_id = m'.handoff_id;
            sender_node_id = m'.receiver_node_id;
            receiver_node_id = m'.sender_node_id;
            message_type = ack;
            step_index = m'.step_index;
            state_payload = already_processed false;
            timestamp = now';
            provenance_ref = m'.provenance_ref;
            retry_count = 0;
          }))
unfolding process update_record make_ack
abort_overwrites ack_id now ack_id' now' m m' c r h transfers aborts same apart new new' room found
      nodup =
    let k : ℕ = m.handoff_id in
    let first : Received = process ack_id now state_transfer m c r in
    let second : Received = process ack_id' now' abort m' first.coordinator first.receiver in
    let done : DistributedHandoffRecord = record h {
      status = committed;
      completed_at = some now;
    } in
    let gone : DistributedHandoffRecord = record done { status = aborted } in
    let records : first.coordinator.handoff_records ≡ insert k done c.handoff_records =
      ground (arith, found) in
    let states : first.coordinator.participant_states
        ≡ insert k m.state_payload c.participant_states =
      ground (arith, found) in
    let committed_then : lookup k first.coordinator.handoff_records ≡ some done =
      ap (lookup k) records ∙ lookup-insert_self k done c.handoff_records in
    let found' : lookup m'.handoff_id first.coordinator.handoff_records ≡ some done =
      ap (λ x. lookup x first.coordinator.handoff_records) same ∙ committed_then in
    let records' : second.coordinator.handoff_records
        ≡ insert m'.handoff_id gone first.coordinator.handoff_records =
      ground (arith, found') in
    let states' : second.coordinator.participant_states
        ≡ erase m'.handoff_id first.coordinator.participant_states =
      ground (arith, found') in
    let unseen : mem m'.message_id first.receiver.seen_ids ≡ false =
      (remember_seen now m accepted r m'.message_id room).0 ∙ ground (arith, apart, new') in
    (
      first,
      second,
      new_message ack_id now state_transfer m c r transfers new,
      new_message ack_id' now' abort m' first.coordinator first.receiver aborts unseen,
      ap (lookup k) states ∙ lookup-insert_self k m.state_payload c.participant_states,
      committed_then,
      ap (lookup k) states'
          ∙ ap (λ x. lookup k (erase x first.coordinator.participant_states)) same
          ∙ lookup-erase_self k first.coordinator.participant_states (
              subst (λ d. IsNodup (keys d)) (sym states)
                (IsNodup-insert k m.state_payload c.participant_states nodup)),
      λ i.
          let last : lookup i second.coordinator.handoff_records
              ≡ (if i == k then some gone else lookup i first.coordinator.handoff_records) =
            ap (lookup i) records'
            ∙ ap (λ x. lookup i (insert x gone first.coordinator.handoff_records)) same
            ∙ lookup-insert i k gone first.coordinator.handoff_records in
          let before : lookup i first.coordinator.handoff_records
              ≡ (if i == k then some done else lookup i c.handoff_records) =
            ap (lookup i) records ∙ lookup-insert i k done c.handoff_records in
          ground (arith, last, before),
      refl,
    )
