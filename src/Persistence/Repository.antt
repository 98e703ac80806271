-- ===== src/Persistence/Repository.antt =====
-- `EventRepository` of src/dnc/persistence/repository.py, with the records of
-- src/dnc/persistence/contracts.py. Strings and payloads that are only compared or kept are numbers,
-- ordered as the strings are. `append` returns the repository that it leaves also where it raises,
-- since `setdefault` has then made a list already; where it returns None, the model returns true.
pub mod Calls
pub mod Streams
pub mod Growth
pub mod Conflicts
pub mod Delivery
mod Tests
use dynamic_neural_computing.Prelude.{
  ℕ, suc, ◌+◌, Bool, true, false, not, ◌==◌, ◌&&◌, ◌||◌, Option, none, some, List, [], ◌∷◌, ◌++◌,
  any, map, mem, ltb, get_last?, Table, fetch, holds, put, table_values, or_else, Outcome, ok,
  raise, ◌>>=◌, value_error, key_error, if◌then◌else◌,
}

pub record DurableEvent : Type 0 where
  pub event_id : ℕ
  pub tenant_id : ℕ
  pub aggregate_id : ℕ
  pub aggregate_version : ℕ
  pub event_type : ℕ
  pub payload : ℕ
  pub timestamp_ns : ℕ

pub record OutboxMessage : Type 0 where
  pub message_id : ℕ
  pub tenant_id : ℕ
  pub topic : ℕ
  pub payload : ℕ
  pub idempotency_key : ℕ
  pub published : Bool

pub record EventRepository : Type 0 where
  pub events : Table (List DurableEvent)
  pub outbox : Table OutboxMessage
  pub inbox : Table ℕ

-- `EventRepository()`
pub new_repository : EventRepository
new_repository = record { events = []; outbox = []; inbox = [] }

-- `tuple(self._events.get((tenant_id, aggregate_id), ()))`
unfoldable pub load : ℕ → ℕ → EventRepository → List DurableEvent
load aggregate_id tenant_id repo = or_else (fetch tenant_id aggregate_id repo.events) []

-- `events[-1].aggregate_version if events else 0`
abbrev pub version_of : List DurableEvent → ℕ
version_of events = elim (get_last? events) [ none ↦ 0 | some event ↦ event.aggregate_version ]

-- An event with the identity and the tenant of this one.
pub is_recorded : DurableEvent → EventRepository → Bool
is_recorded event repo =
    any (any (λ item. item.event_id == event.event_id && item.tenant_id == event.tenant_id))
      (table_values repo.events)

-- `len(ids) != len(set(ids))`
abbrev pub has_repeats : List ℕ → Bool
has_repeats [] = false
has_repeats (x ∷ xs) = mem x xs || has_repeats xs

-- The checks of `append`, in the order of the source.
pub check_append : DurableEvent → ℕ → List OutboxMessage → ℕ → EventRepository → Outcome Bool
unfolding is_recorded
check_append event expected_version outbox current repo =
    if not (current == expected_version) || not (event.aggregate_version == suc current)
    then raise value_error
    else if is_recorded event repo
    then raise value_error
    else let message_ids : List ℕ = map (λ message. message.message_id) outbox in
      if has_repeats message_ids
        || any (λ message_id. holds event.tenant_id message_id repo.outbox) message_ids
      then raise value_error
      else if any (λ message. not (message.tenant_id == event.tenant_id)) outbox
      then raise value_error
      else ok true

-- `self._events.setdefault(key, [])`
pub opened : DurableEvent → EventRepository → EventRepository
unfolding load
opened event repo = record repo {
  events =
      put event.tenant_id event.aggregate_id (load event.aggregate_id event.tenant_id repo)
        repo.events;
}

pub send_all : List OutboxMessage → Table OutboxMessage → Table OutboxMessage
send_all [] table = table
send_all (message ∷ messages) table =
    send_all messages (put message.tenant_id message.message_id message table)

-- The writes of `append`, once every check is passed.
pub record_event : DurableEvent → List OutboxMessage → EventRepository → EventRepository
unfolding load send_all
record_event event outbox repo = record repo {
  events =
      put event.tenant_id event.aggregate_id
        (load event.aggregate_id event.tenant_id repo ++ event ∷ []) repo.events;
  outbox = send_all outbox repo.outbox;
}

-- `append`, by what the checks gave.
pub finish_append :
    Outcome Bool
    → DurableEvent
    → List OutboxMessage
    → EventRepository
    → Outcome Bool × EventRepository
unfolding record_event
finish_append (raise e) event outbox repo = (raise e, repo)
finish_append (ok checked) event outbox repo = (ok checked, record_event event outbox repo)

pub append :
    DurableEvent → ℕ → List OutboxMessage → EventRepository → Outcome Bool × EventRepository
unfolding load opened check_append finish_append
append event expected_version outbox repo =
    let repo' : EventRepository = opened event repo in
    let current : ℕ = version_of (load event.aggregate_id event.tenant_id repo) in
    finish_append (check_append event expected_version outbox current repo') event outbox repo'

-- `sorted(self._outbox)`: the keys in the order of tuples.
pub insert_key : ℕ × ℕ → List (ℕ × ℕ) → List (ℕ × ℕ)
insert_key key [] = key ∷ []
insert_key (t, i) ((u, j) ∷ ks) =
    let rest = (u, j) ∷ insert_key (t, i) ks in
    if ltb t u || t == u && not (ltb j i) then (t, i) ∷ (u, j) ∷ ks else rest

pub sorted_keys : Table OutboxMessage → List (ℕ × ℕ)
unfolding insert_key
sorted_keys [] = []
sorted_keys ((key, message) ∷ table) = insert_key key (sorted_keys table)

-- The comprehension of `pending_outbox`.
pub pending_at : ℕ → List (ℕ × ℕ) → Table OutboxMessage → List OutboxMessage
pending_at tenant_id [] table = []
pending_at tenant_id ((t, i) ∷ ks) table =
    let rest = pending_at tenant_id ks table in
    elim (fetch t i table) [
      | none ↦ rest
      | some message ↦
          if message.tenant_id == tenant_id && not message.published then message ∷ rest else rest
    ]

pub pending_outbox : ℕ → EventRepository → List OutboxMessage
unfolding sorted_keys pending_at
pending_outbox tenant_id repo = pending_at tenant_id (sorted_keys repo.outbox) repo.outbox

pub mark_published : ℕ → ℕ → EventRepository → Outcome EventRepository
mark_published message_id tenant_id repo = elim (fetch tenant_id message_id repo.outbox) [
  | none ↦ raise key_error
  | some message ↦ ok (record repo {
    outbox = put tenant_id message_id (record message { published = true }) repo.outbox;
  })
]

-- `receive_once`, by the fingerprint that is found.
pub receive_by : Option ℕ → OutboxMessage → ℕ → EventRepository → Outcome (Bool × EventRepository)
receive_by none message result_fingerprint repo = ok (
  true,
  record repo {
    inbox = put message.tenant_id message.idempotency_key result_fingerprint repo.inbox;
  },
)
receive_by (some previous) message result_fingerprint repo =
    if not (previous == result_fingerprint) then raise value_error else ok (false, repo)

pub receive_once : OutboxMessage → ℕ → EventRepository → Outcome (Bool × EventRepository)
unfolding receive_by
receive_once message result_fingerprint repo =
    receive_by (fetch message.tenant_id message.idempotency_key repo.inbox) message
      result_fingerprint repo

-- The loop of `rebuild`.
pub reduce_all {ℓ} : {S : Type ℓ} → (S → DurableEvent → S) → S → List DurableEvent → S
reduce_all reducer state [] = state
reduce_all reducer state (event ∷ events) = reduce_all reducer (reducer state event) events

pub rebuild {ℓ} : {S : Type ℓ} → ℕ → ℕ → (S → DurableEvent → S) → S → EventRepository → S
unfolding load reduce_all
rebuild aggregate_id tenant_id reducer initial repo =
    reduce_all reducer initial (load aggregate_id tenant_id repo)

-- `snapshot` copies the tables, and `restore` takes copies of tables: here both are the values.
pub snapshot : EventRepository → EventRepository
snapshot repo = repo

pub restore : EventRepository → EventRepository → EventRepository
restore state repo = state
