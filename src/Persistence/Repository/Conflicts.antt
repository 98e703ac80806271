-- ===== src/Persistence/Repository/Conflicts.antt =====
-- Optimistic concurrency: of two appends at one version, the second one is refused.
use dynamic_neural_computing.Prelude.{
  ℕ, All, suc, ◌≡◌, ◌≤◌, ◌≢◌, refl, ap, subst, ◌∙◌, Bool, true, ◌==◌, ◌&&◌, List, [], ◌∷◌, ◌++◌,
  length, length-append, Outcome, ok, raise, Exception, value_error, if◌then◌else◌, arith,
  Bool-cases, inl, inr, ==_iff,
}
use dynamic_neural_computing.Persistence.Repository.{
  DurableEvent, OutboxMessage, EventRepository, new_repository, load, version_of, check_append,
  opened, record_event, finish_append, append,
}
use dynamic_neural_computing.Persistence.Repository.Calls.{
  Call, Restores, run, appends, perform, perform-keeps, run-keeps, check_append-eq-ok, load-opened,
  load-record_event,
}
use dynamic_neural_computing.Persistence.Repository.Streams.{
  IsValid, IsValid-Keeps, run-IsValid, version_of-length,
}
use dynamic_neural_computing.Persistence.Repository.Growth.{Grows, run-Grows}

-- What an append does: it raises, and every list is read as before, or it adds its event at the
-- version after the expected one, and no other list changes.
pub data Appends (event : DurableEvent) (expected : ℕ) (repo : EventRepository)
    : Outcome Bool × EventRepository → Type 0 where
  refused :
      (e : Exception) (repo' : EventRepository)
      → ((a t : ℕ) → load a t repo' ≡ load a t repo)
      → repo'.outbox ≡ repo.outbox
      → repo'.inbox ≡ repo.inbox
      → Appends event expected repo (raise e, repo')
  added :
      (b : Bool) (repo' : EventRepository)
      → version_of (load event.aggregate_id event.tenant_id repo) ≡ expected
      → event.aggregate_version ≡ suc expected
      → ((a t : ℕ)
          → load a t repo' ≡ (
              if t == event.tenant_id && a == event.aggregate_id
              then load event.aggregate_id event.tenant_id repo ++ event ∷ []
              else load a t repo))
      → repo'.inbox ≡ repo.inbox
      → Appends event expected repo (ok b, repo')

pub append-Appends :
    (event : DurableEvent) (expected : ℕ) (outbox : List OutboxMessage) (repo : EventRepository)
    → Appends event expected repo (append event expected outbox repo)
unfolding append finish_append
append-Appends event expected outbox repo =
    ended (check_append event expected outbox current (opened event repo)) refl
  where
    current : ℕ
    current = version_of (load event.aggregate_id event.tenant_id repo)

    ended :
        (checked : Outcome Bool)
        → check_append event expected outbox current (opened event repo) ≡ checked
        → Appends event expected repo (finish_append checked event outbox (opened event repo))
    ended (raise x) e =
        refused x (opened event repo) (λ a t. load-opened event a t repo) (unfold opened in refl)
          (unfold opened in refl)
    ended (ok b) e =
        let (same, next, _) =
          check_append-eq-ok event expected outbox current (opened event repo) b e in
        added b (record_event event outbox (opened event repo)) same (next ∙ ap suc same)
          (λ a t.
            rw
              (
                load-record_event event outbox a t (opened event repo),
                load-opened event a t repo,
                load-opened event event.aggregate_id event.tenant_id repo,
              )
              refl)
          (unfold opened record_event in refl)

-- What a valid repository makes of an append below the version of its aggregate.
append_behind :
    (event : DurableEvent) (expected : ℕ) (outbox : List OutboxMessage) (repo : EventRepository)
    → (version_of (load event.aggregate_id event.tenant_id repo) ≢ expected)
    → (append event expected outbox repo).0 ≡ raise value_error
unfolding append finish_append check_append
append_behind event expected outbox repo behind =
    elim (Bool-cases (version_of (load event.aggregate_id event.tenant_id repo) == expected)) [
      | inl same ↦ absurd (behind ((==_iff _ expected).0 same))
      | inr other ↦ rw other refl
    ]

-- The version after an append that was made.
version_after :
    (before : List Call) (event : DurableEvent) (expected : ℕ) (outbox : List OutboxMessage)
    (repo' : EventRepository) (b : Bool)
    → All (Restores IsValid) before
    → append event expected outbox (run before new_repository) ≡ (ok b, repo')
    → length (load event.aggregate_id event.tenant_id repo') ≡ suc expected
version_after before event expected outbox repo' b rs e =
    by_cases (append event expected outbox r) (append-Appends event expected outbox r) e
  where
    r : EventRepository
    r = run before new_repository

    by_cases :
        (out : Outcome Bool × EventRepository)
        → Appends event expected r out
        → out ≡ (ok b, repo')
        → length (load event.aggregate_id event.tenant_id repo') ≡ suc expected
    by_cases out (refused x q same o i) f = absurd (ground (arith, ap (λ x. x.0) f))
    by_cases out (added c q version next lists i) f =
        let a : ℕ = event.aggregate_id in
        let t : ℕ = event.tenant_id in
        let same : q ≡ repo' = ap (λ x. x.1) f in
        let counted : version_of (load a t r) ≡ length (load a t r) =
          version_of-length a t (load a t r) ((run-IsValid before rs).streams a t) in
        let longer : load a t q ≡ load a t r ++ event ∷ [] = ground (arith, lists a t) in
        subst (λ x. length (load a t x) ≡ suc expected) same
          (omega
            (arith, ap length longer, length-append (load a t r) (event ∷ []), counted, version))

raised-lists :
    (event : DurableEvent) (expected : ℕ) (repo : EventRepository) (e : Exception)
    (out : Outcome Bool × EventRepository)
    → Appends event expected repo out
    → out.0 ≡ raise e
    → (a t : ℕ) → load a t out.1 ≡ load a t repo
raised-lists event expected repo e out (refused x q same o i) f = same
raised-lists event expected repo e out (added c q version next lists i) f =
    absurd (ground (arith, f))

-- After any calls of append, mark_published, receive_once and restore on a new repository, where
-- only valid snapshots are restored, an append succeeded; then, whatever of these calls follow,
-- where the snapshots restored are valid and their lists go on from those after that append, an
-- append to the same aggregate of the same tenant that expects the same or an older version raises
-- ValueError, and no list of events changes.
pub append_stale :
    (before after : List Call) (event other : DurableEvent) (expected stale : ℕ)
    (outbox outbox' : List OutboxMessage) (repo' : EventRepository)
    → All (Restores IsValid) before
    → append event expected outbox (run before new_repository) ≡ (ok true, repo')
    → All (Restores IsValid) after
    → All (Restores (Grows repo')) after
    → other.tenant_id ≡ event.tenant_id
    → other.aggregate_id ≡ event.aggregate_id
    → stale ≤ expected
    → ((append other stale outbox' (run after repo')).0 ≡ raise value_error)
      × ((a t : ℕ)
          → load a t (append other stale outbox' (run after repo')).1 ≡ load a t (run after repo'))
unfolding perform
append_stale before after event other expected stale outbox outbox' repo' rs e vs gs same_t same_a
      low =
    let a : ℕ = event.aggregate_id in
    let t : ℕ = event.tenant_id in
    let v' : IsValid repo' = subst IsValid (ap (λ x. x.1) e) (
      perform-keeps IsValid IsValid-Keeps (appends event expected outbox)
        (run before new_repository) tt (run-IsValid before rs)) in
    let v : IsValid (run after repo') = run-keeps IsValid IsValid-Keeps after repo' vs v' in
    let (more, grown) = run-Grows after repo' gs a t in
    let high : suc expected ≤ version_of (load a t (run after repo')) = omega (
      arith,
      version_of-length a t (load a t (run after repo')) (v.streams a t),
      ap length grown,
      length-append (load a t repo') more,
      version_after before event expected outbox repo' true rs e,
    ) in
    let refused_here : (append other stale outbox' (run after repo')).0 ≡ raise value_error =
      append_behind other stale outbox' (run after repo')
        (rw (same_t, same_a) (λ f. absurd (omega (arith, f, high, low)))) in
    (
      refused_here,
      raised-lists other stale (run after repo') value_error
          (append other stale outbox' (run after repo'))
          (append-Appends other stale outbox' (run after repo')) refused_here,
    )
