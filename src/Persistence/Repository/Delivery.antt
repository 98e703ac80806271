-- ===== src/Persistence/Repository/Delivery.antt =====
-- The inbox: a message is taken once.
use dynamic_neural_computing.Prelude.{
  ℕ, ◌≡◌, sym, ap, ◌∙◌, true, false, ◌==◌, ◌&&◌, some, List, All, fetch, put, fetch-put,
  fetch-put_self, ok, raise, value_error, if◌then◌else◌, arith, Bool-cases, Option-cases, inl, inr,
}
use dynamic_neural_computing.Persistence.Repository.{
  OutboxMessage, EventRepository, opened, record_event, receive_by, receive_once,
}
use dynamic_neural_computing.Persistence.Repository.Calls.{Call, Restores, run, Keeps, run-keeps}

-- The inbox has the fingerprint under the tenant and the idempotency key.
abbrev IsReceived : ℕ → ℕ → ℕ → EventRepository → Type 0
IsReceived t k fingerprint repo = fetch t k repo.inbox ≡ some fingerprint

IsReceived-Keeps : (t k fingerprint : ℕ) → Keeps (IsReceived t k fingerprint)
unfolding opened record_event
IsReceived-Keeps t k fingerprint = record {
  on_open = λ event repo h. h;
  on_record = λ event outbox repo next new h. h;
  on_publish = λ table repo h. h;
  on_receive = λ message other repo first h.
      elim (Bool-cases (t == message.tenant_id && k == message.idempotency_key)) [
        | inl s ↦
            let same_t : message.tenant_id ≡ t = ground (arith, s) in
            let same_k : message.idempotency_key ≡ k = ground (arith, s) in
            let there : fetch message.tenant_id message.idempotency_key repo.inbox
                ≡ some fingerprint =
              ap (λ x. fetch x message.idempotency_key repo.inbox) same_t
              ∙ ap (λ x. fetch t x repo.inbox) same_k
              ∙ h in
            absurd (ground (arith, first, there))
        | inr f ↦
            ground (
              arith,
              h,
              f,
              fetch-put t k message.tenant_id message.idempotency_key other repo.inbox,
            )
      ];
}

receive_once-IsReceived :
    (message : OutboxMessage) (fingerprint : ℕ) (repo repo' : EventRepository)
    → receive_once message fingerprint repo ≡ ok (true, repo')
    → IsReceived message.tenant_id message.idempotency_key fingerprint repo'
unfolding receive_once receive_by
receive_once-IsReceived message fingerprint repo repo' e =
    elim (Option-cases (fetch message.tenant_id message.idempotency_key repo.inbox)) [
      | inr (previous, found) ↦ absurd (ground (arith, found, e))
      | inl first ↦
          let made : record repo {
            inbox = put message.tenant_id message.idempotency_key fingerprint repo.inbox;
          }
              ≡ repo' =
            ground (arith, first, e) in
          ap (λ x. fetch message.tenant_id message.idempotency_key x.inbox) (sym made)
          ∙ fetch-put_self message.tenant_id message.idempotency_key fingerprint repo.inbox
    ]

-- Once receive_once has taken a message, whatever calls of append, mark_published, receive_once and
-- restore follow, where the snapshots restored have its fingerprint in the inbox, a message of that
-- tenant with that idempotency key returns False and changes nothing where its fingerprint is the
-- same, and raises ValueError where it is another one.
pub receive_again :
    (message other : OutboxMessage) (fingerprint second : ℕ) (repo repo' : EventRepository)
    (after : List Call)
    → receive_once message fingerprint repo ≡ ok (true, repo')
    → All
        (Restores
          (λ state. fetch message.tenant_id message.idempotency_key state.inbox ≡ some fingerprint))
        after
    → other.tenant_id ≡ message.tenant_id
    → other.idempotency_key ≡ message.idempotency_key
    → receive_once other second (run after repo')
      ≡ (if fingerprint == second then ok (false, run after repo') else raise value_error)
unfolding receive_once receive_by
receive_again message other fingerprint second repo repo' after e rs same_t same_k =
    let t : ℕ = message.tenant_id in
    let k : ℕ = message.idempotency_key in
    let there : fetch t k (run after repo').inbox ≡ some fingerprint =
      run-keeps (IsReceived t k fingerprint) (IsReceived-Keeps t k fingerprint) after repo' rs
        (receive_once-IsReceived message fingerprint repo repo' e) in
    let found : fetch other.tenant_id other.idempotency_key (run after repo').inbox
        ≡ some fingerprint =
      ap (λ x. fetch x other.idempotency_key (run after repo').inbox) same_t
      ∙ ap (λ x. fetch t x (run after repo').inbox) same_k
      ∙ there in
    ground (arith, found)
