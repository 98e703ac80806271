-- ===== src/Persistence/Repository/Calls.antt =====
-- The calls of the repository in any order, and what they keep.
use dynamic_neural_computing.Prelude.{
  ℕ, suc, ◌≡◌, refl, sym, ap, ◌∙◌, Bool, true, false, ◌==◌, ◌&&◌, Option, none, some, List, [], ◌∷◌,
  ◌++◌, Table, fetch, put, fetch-put, or_else, Outcome, ok, raise, if◌then◌else◌, arith, Bool-cases,
  inl, inr, key_error, All,
}
use dynamic_neural_computing.Persistence.Repository.{
  DurableEvent, OutboxMessage, EventRepository, load, version_of, is_recorded, check_append, opened,
  record_event, finish_append, append, mark_published, receive_by, receive_once, restore,
}

pub data Call : Type 0 where
  appends : DurableEvent → (expected_version : ℕ) → List OutboxMessage → Call
  publishes : (message_id tenant_id : ℕ) → Call
  receives : OutboxMessage → (result_fingerprint : ℕ) → Call
  restores : EventRepository → Call

-- The repository that a call leaves; one that raises leaves it as it was, but for `append`.
unfoldable pub perform : Call → EventRepository → EventRepository
perform (appends event expected_version outbox) repo = (append event expected_version outbox repo).1
perform (publishes message_id tenant_id) repo = elim (mark_published message_id tenant_id repo) [
  | ok repo' ↦ repo'
  | raise e ↦ repo
]
perform (receives message result_fingerprint) repo =
    elim (receive_once message result_fingerprint repo) [
      | ok (first, repo') ↦ repo'
      | raise e ↦ repo
    ]
perform (restores state) repo = restore state repo

-- A call that is no restore, or one of a snapshot with the property.
abbrev pub Restores : (EventRepository → Type 0) → Call → Type 0
Restores P (restores state) = P state
Restores P _ = Unit

unfoldable pub run : List Call → EventRepository → EventRepository
unfolding perform
run [] repo = repo
run (c ∷ cs) repo = run cs (perform c repo)

-- What the checks of `append` let through.
pub check_append-eq-ok :
    (event : DurableEvent) (expected : ℕ) (outbox : List OutboxMessage) (current : ℕ)
    (repo : EventRepository) (b : Bool)
    → check_append event expected outbox current repo ≡ ok b
    → (current ≡ expected)
      × (event.aggregate_version ≡ suc current)
      × (is_recorded event repo ≡ false)
unfolding check_append
check_append-eq-ok event expected outbox current repo b e =
    (ground (arith, e), ground (arith, e), ground (arith, e))

-- Opening the list of an aggregate changes no list that is read.
pub load-opened :
    (event : DurableEvent) (a t : ℕ) (repo : EventRepository)
    → load a t (opened event repo) ≡ load a t repo
unfolding load opened
load-opened event a t repo = elim (Bool-cases (t == event.tenant_id && a == event.aggregate_id)) [
  | inl s ↦
      let here : fetch t a repo.events ≡ fetch event.tenant_id event.aggregate_id repo.events =
        ap (λ x. fetch x a repo.events) (ground (arith, s))
        ∙ ap (λ x. fetch event.tenant_id x repo.events) (ground (arith, s)) in
      ground (
        arith,
        here,
        fetch-put t a event.tenant_id event.aggregate_id
            (or_else (fetch event.tenant_id event.aggregate_id repo.events) []) repo.events,
      )
  | inr f ↦ ground (
    arith,
    fetch-put t a event.tenant_id event.aggregate_id
        (or_else (fetch event.tenant_id event.aggregate_id repo.events) []) repo.events,
  )
]

-- After the write, the list of the event's aggregate has one more event.
pub load-record_event :
    (event : DurableEvent) (outbox : List OutboxMessage) (a t : ℕ) (repo : EventRepository)
    → load a t (record_event event outbox repo) ≡ (
        if t == event.tenant_id && a == event.aggregate_id
        then load event.aggregate_id event.tenant_id repo ++ event ∷ []
        else load a t repo)
unfolding load record_event
load-record_event event outbox a t repo = ground (
  arith,
  fetch-put t a event.tenant_id event.aggregate_id
      (or_else (fetch event.tenant_id event.aggregate_id repo.events) [] ++ event ∷ []) repo.events,
)

-- What every write to the repository keeps, with what the code has tested before it.
pub record Keeps (P : EventRepository → Type 0) : Type 0 where
  pub on_open : (event : DurableEvent) (repo : EventRepository) → P repo → P (opened event repo)
  pub on_record :
      (event : DurableEvent) (outbox : List OutboxMessage) (repo : EventRepository)
      → event.aggregate_version ≡ suc (version_of (load event.aggregate_id event.tenant_id repo))
      → is_recorded event repo ≡ false
      → P repo
      → P (record_event event outbox repo)
  pub on_publish :
      (table : Table OutboxMessage) (repo : EventRepository)
      → P repo
      → P (record repo { outbox = table })
  pub on_receive :
      (message : OutboxMessage) (fingerprint : ℕ) (repo : EventRepository)
      → fetch message.tenant_id message.idempotency_key repo.inbox ≡ none
      → P repo
      → P (record repo {
        inbox = put message.tenant_id message.idempotency_key fingerprint repo.inbox;
      })

module _ (P : EventRepository → Type 0) where
  append-keeps :
      Keeps P
      → (event : DurableEvent) (expected : ℕ) (outbox : List OutboxMessage) (repo : EventRepository)
      → P repo
      → P (append event expected outbox repo).1
  unfolding append finish_append
  append-keeps k event expected outbox repo h =
      ended
        (check_append event expected outbox
          (version_of (load event.aggregate_id event.tenant_id repo)) (opened event repo))
        refl
    where
      ended :
          (checked : Outcome Bool)
          → check_append event expected outbox
              (version_of (load event.aggregate_id event.tenant_id repo))
              (opened event repo)
            ≡ checked
          → P (finish_append checked event outbox (opened event repo)).1
      ended (raise x) e = k.on_open event repo h
      ended (ok b) e =
          let (_, next, new) =
            check_append-eq-ok event expected outbox
              (version_of (load event.aggregate_id event.tenant_id repo)) (opened event repo) b e in
          k.on_record event outbox (opened event repo)
            (next
              ∙ ap (λ x. suc (version_of x))
                  (sym (load-opened event event.aggregate_id event.tenant_id repo)))
            new (k.on_open event repo h)

  publish-keeps :
      Keeps P → (m t : ℕ) (repo : EventRepository) → P repo → P (perform (publishes m t) repo)
  unfolding perform mark_published
  publish-keeps k m t repo h = ended (fetch t m repo.outbox)
    where
      ended :
          (o : Option OutboxMessage)
          → P
              (elim (elim o as (λ x. Outcome EventRepository) [
                | none ↦ raise key_error
                | some message ↦ ok (record repo {
                  outbox = put t m (record message { published = true }) repo.outbox;
                })
              ])
                as (λ x. EventRepository) [ ok repo' ↦ repo' | raise e ↦ repo ])
      ended none = h
      ended (some message) = k.on_publish _ repo h

  receive-keeps :
      Keeps P
      → (message : OutboxMessage) (fingerprint : ℕ) (repo : EventRepository) → P repo
      → P (perform (receives message fingerprint) repo)
  unfolding perform receive_once receive_by
  receive-keeps k message fingerprint repo h =
      ended (fetch message.tenant_id message.idempotency_key repo.inbox) refl
    where
      ended :
          (o : Option ℕ)
          → fetch message.tenant_id message.idempotency_key repo.inbox ≡ o
          → P (elim (receive_by o message fingerprint repo) as (λ x. EventRepository) [
            | ok (first, repo') ↦ repo'
            | raise e ↦ repo
          ])
      ended none e = k.on_receive message fingerprint repo e h
      ended (some previous) e = elim (Bool-cases (previous == fingerprint)) [
        | inl same ↦ rw same h
        | inr other ↦ rw other h
      ]

  pub perform-keeps :
      Keeps P → (c : Call) (repo : EventRepository) → Restores P c → P repo → P (perform c repo)
  unfolding perform restore
  perform-keeps k (appends event expected outbox) repo r h =
      append-keeps k event expected outbox repo h
  perform-keeps k (publishes m t) repo r h = publish-keeps k m t repo h
  perform-keeps k (receives message fingerprint) repo r h =
      receive-keeps k message fingerprint repo h
  perform-keeps k (restores state) repo r h = r

  pub run-keeps :
      Keeps P
      → (cs : List Call) (repo : EventRepository) → All (Restores P) cs
      → P repo
      → P (run cs repo)
  unfolding run
  run-keeps k [] repo rs h = h
  run-keeps k (c ∷ cs) repo rs h =
      run-keeps k cs (perform c repo) rs.1 (perform-keeps k c repo rs.0 h)
