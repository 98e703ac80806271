-- ===== src/Persistence/Repository/Tests.antt =====
-- Runs of the repository.
use dynamic_neural_computing.Prelude.{
  ℕ, ◌≡◌, refl, true, false, List, [], ◌∷◌, ok, raise, value_error, ◌==◌, if◌then◌else◌, arith,
}
use dynamic_neural_computing.Persistence.Repository.{
  DurableEvent, OutboxMessage, EventRepository, new_repository, load, is_recorded, check_append,
  opened, send_all, record_event, finish_append, append, receive_by, receive_once,
}
use dynamic_neural_computing.Persistence.Repository.Calls.{Call, appends, receives, run, perform}
use dynamic_neural_computing.Persistence.Repository.Conflicts.{append_stale}
use dynamic_neural_computing.Persistence.Repository.Delivery.{receive_again}

abbrev event : ℕ → ℕ → DurableEvent
event i version = record {
  event_id = i;
  tenant_id = 1;
  aggregate_id = 5;
  aggregate_version = version;
  event_type = 2;
  payload = i;
  timestamp_ns = 0;
}

abbrev message : OutboxMessage
message = record {
  message_id = 3;
  tenant_id = 1;
  topic = 4;
  payload = 0;
  idempotency_key = 8;
  published = false;
}

abbrev one_event : List Call
one_event = appends (event 10 1) 0 (message ∷ []) ∷ []

abbrev two_events : EventRepository
two_events = (append (event 11 2) 1 [] (run one_event new_repository)).1

appended : append (event 11 2) 1 [] (run one_event new_repository) ≡ (ok true, two_events)
unfolding append opened check_append is_recorded finish_append record_event send_all load run
    perform new_repository
appended = refl

append_stale_example :
    ((append (event 12 2) 1 [] (run one_event two_events)).0 ≡ raise value_error)
    × ((a t : ℕ)
        → load a t (append (event 12 2) 1 [] (run one_event two_events)).1
          ≡ load a t (run one_event two_events))
append_stale_example =
    append_stale one_event one_event (event 11 2) (event 12 2) 1 1 [] [] two_events (tt, tt)
      appended (tt, tt) (tt, tt) refl refl (omega arith)

abbrev received : EventRepository
received = run (receives message 77 ∷ []) (run one_event new_repository)

received_now : receive_once message 77 (run one_event new_repository) ≡ ok (true, received)
unfolding receive_once receive_by append opened check_append is_recorded finish_append record_event
    send_all load run perform new_repository
received_now = refl

receive_again_example :
    receive_once message 78 (run one_event received)
    ≡ (if 77 == 78 then ok (false, run one_event received) else raise value_error)
receive_again_example =
    receive_again message message 77 78 (run one_event new_repository) received one_event
      received_now (tt, tt) refl refl
