-- ===== src/Distributed/Handoffs.antt =====
-- Deliveries of messages in any order, and again.
use dynamic_neural_computing.Prelude.{
  ℕ, suc, ◌+◌, ◌≡◌, ◌≤◌, ◌<◌, refl, ◌∙◌, Bool, true, false, some, List, [], ◌∷◌, mem, length, arith,
  Bool-cases, inl, inr,
}
use dynamic_neural_computing.Distributed.{
  HandoffMessageType, already_processed, prepare, commit, abort, state_transfer, ack, nack,
  heartbeat, DistributedHandoffMessage, Result, accepted, committed_now, aborted_now,
  IdempotentReceiver, new_receiver, is_duplicate, remember, DistributedCoordinator, new_coordinator,
  make_ack, Received, process, receive_message,
}
use dynamic_neural_computing.Distributed.Receiver.{remember_seen}

-- A message that arrives, with the identifier and the time that its reply draws.
pub record Delivery : Type 0 where
  pub ack_id : ℕ
  pub now : ℕ
  pub message : DistributedHandoffMessage

-- The coordinator and the receiver after the deliveries.
unfoldable pub deliver :
    List Delivery
    → DistributedCoordinator × IdempotentReceiver
    → DistributedCoordinator × IdempotentReceiver
deliver [] s = s
deliver (x ∷ xs) (c, r) =
    let out : Received = receive_message x.ack_id x.now x.message c r in
    deliver xs (out.coordinator, out.receiver)

-- The types that `receive_message` processes.
abbrev pub is_processed : HandoffMessageType → Bool
is_processed state_transfer = true
is_processed commit = true
is_processed abort = true
is_processed _ = false

-- The receiver has room for one more message, and keeps what it saw.
abbrev Keeps : ℕ → IdempotentReceiver → IdempotentReceiver → Type 0
Keeps i r r' =
    (mem i r.seen_ids ≡ true → mem i r'.seen_ids ≡ true)
    × (length r'.seen_ids ≤ suc (length r.seen_ids))
    × (r'.window_size ≡ r.window_size)

remember-Keeps :
    (now : ℕ) (m : DistributedHandoffMessage) (x : Result) (r : IdempotentReceiver) (i : ℕ)
    → length r.seen_ids < r.window_size
    → Keeps i r (remember now m x r)
remember-Keeps now m x r i room =
    let (seen, near, same) = remember_seen now m x r i room in
    (λ h. ground (arith, seen, h), near, same)

process-Keeps :
    (ack_id now : ℕ) (type : HandoffMessageType) (m : DistributedHandoffMessage)
    (c : DistributedCoordinator) (r : IdempotentReceiver) (i : ℕ)
    → length r.seen_ids < r.window_size
    → Keeps i r (process ack_id now type m c r).receiver
unfolding process
process-Keeps ack_id now state_transfer m c r i room = remember-Keeps now m accepted r i room
process-Keeps ack_id now commit m c r i room = remember-Keeps now m committed_now r i room
process-Keeps ack_id now abort m c r i room = remember-Keeps now m aborted_now r i room
process-Keeps ack_id now prepare m c r i room = (λ h. h, omega arith, refl)
process-Keeps ack_id now ack m c r i room = (λ h. h, omega arith, refl)
process-Keeps ack_id now nack m c r i room = (λ h. h, omega arith, refl)
process-Keeps ack_id now heartbeat m c r i room = (λ h. h, omega arith, refl)

receive_message-Keeps :
    (ack_id now : ℕ) (m : DistributedHandoffMessage) (c : DistributedCoordinator)
    (r : IdempotentReceiver) (i : ℕ)
    → length r.seen_ids < r.window_size
    → Keeps i r (receive_message ack_id now m c r).receiver
unfolding receive_message
receive_message-Keeps ack_id now m c r i room = elim (Bool-cases (is_duplicate m.message_id r)) [
  | inl t ↦ rw t (λ h. h, omega arith, refl)
  | inr f ↦ rw f (process-Keeps ack_id now m.message_type m c r i room)
]

-- A processed message is seen.
process_seen :
    (ack_id now : ℕ) (type : HandoffMessageType) (m : DistributedHandoffMessage)
    (c : DistributedCoordinator) (r : IdempotentReceiver)
    → is_processed type ≡ true
    → length r.seen_ids < r.window_size
    → mem m.message_id (process ack_id now type m c r).receiver.seen_ids ≡ true
unfolding process
process_seen ack_id now state_transfer m c r h room =
    (remember_seen now m accepted r m.message_id room).0 ∙ ground arith
process_seen ack_id now commit m c r h room =
    (remember_seen now m committed_now r m.message_id room).0 ∙ ground arith
process_seen ack_id now abort m c r h room =
    (remember_seen now m aborted_now r m.message_id room).0 ∙ ground arith
process_seen ack_id now prepare m c r h room = cc
process_seen ack_id now ack m c r h room = cc
process_seen ack_id now nack m c r h room = cc
process_seen ack_id now heartbeat m c r h room = cc

receive_message_seen :
    (ack_id now : ℕ) (m : DistributedHandoffMessage) (c : DistributedCoordinator)
    (r : IdempotentReceiver)
    → is_processed m.message_type ≡ true
    → length r.seen_ids < r.window_size
    → mem m.message_id (receive_message ack_id now m c r).receiver.seen_ids ≡ true
unfolding receive_message is_duplicate
receive_message_seen ack_id now m c r h room = elim (Bool-cases (mem m.message_id r.seen_ids)) [
  | inl t ↦ rw t t
  | inr f ↦ rw f (process_seen ack_id now m.message_type m c r h room)
]

deliver-Keeps :
    (xs : List Delivery) (c : DistributedCoordinator) (r : IdempotentReceiver) (i : ℕ)
    → length r.seen_ids + length xs ≤ r.window_size
    → (mem i r.seen_ids ≡ true → mem i (deliver xs (c, r)).1.seen_ids ≡ true)
      × (length (deliver xs (c, r)).1.seen_ids ≤ length r.seen_ids + length xs)
      × ((deliver xs (c, r)).1.window_size ≡ r.window_size)
unfolding deliver
deliver-Keeps [] c r i room = (λ h. h, omega arith, refl)
deliver-Keeps (x ∷ xs) c r i room =
    let out : Received = receive_message x.ack_id x.now x.message c r in
    let (kept, near, same) =
      receive_message-Keeps x.ack_id x.now x.message c r i (omega (arith, room)) in
    let (kept', near', same') =
      deliver-Keeps xs out.coordinator out.receiver i (omega (arith, room, near, same)) in
    (λ h. kept' (kept h), omega (arith, near, near'), same' ∙ same)

-- A STATE_TRANSFER, COMMIT or ABORT message that comes again, where the deliveries before it,
-- itself and those since fit in the window of a new receiver, is answered from its receiver to its
-- sender by an ACK of its handoff that says that it was already processed, and leaves the
-- coordinator and the receiver as they were.
pub duplicate_ignored :
    (window node ack_id now ack_id' now' : ℕ) (before after : List Delivery)
    (m : DistributedHandoffMessage)
    → is_processed m.message_type ≡ true
    → length before + suc (length after) ≤ window
    → let s : DistributedCoordinator × IdempotentReceiver =
        deliver before (new_coordinator node, new_receiver window) in
      let first : Received = receive_message ack_id now m s.0 s.1 in
      let s' : DistributedCoordinator × IdempotentReceiver =
        deliver after (first.coordinator, first.receiver) in
      receive_message ack_id' now' m s'.0 s'.1 ≡ record {
        reply = some (record {
          message_id = ack_id';
          handoff_id = m.handoff_id;
          sender_node_id = m.receiver_node_id;
          receiver_node_id = m.sender_node_id;
          message_type = ack;
          step_index = m.step_index;
          state_payload = already_processed true;
          timestamp = now';
          provenance_ref = m.provenance_ref;
          retry_count = 0;
        });
        coordinator = s'.0;
        receiver = s'.1;
      }
unfolding new_receiver make_ack
duplicate_ignored window node ack_id now ack_id' now' before after m h room =
    let s : DistributedCoordinator × IdempotentReceiver =
      deliver before (new_coordinator node, new_receiver window) in
    let first : Received = receive_message ack_id now m s.0 s.1 in
    let s' : DistributedCoordinator × IdempotentReceiver =
      deliver after (first.coordinator, first.receiver) in
    let (_, near, same) =
      deliver-Keeps before (new_coordinator node) (new_receiver window) m.message_id
        (omega (arith, room)) in
    let (_, near1, same1) =
      receive_message-Keeps ack_id now m s.0 s.1 m.message_id (omega (arith, room, near, same)) in
    let (kept, _, _) =
      deliver-Keeps after first.coordinator first.receiver m.message_id
        (omega (arith, room, near, same, near1, same1)) in
    let seen : mem m.message_id s'.1.seen_ids ≡ true =
      kept (receive_message_seen ack_id now m s.0 s.1 h (omega (arith, room, near, same))) in
    unfold receive_message is_duplicate in rw seen refl
