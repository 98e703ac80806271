-- ===== src/Persistence/Repository/Streams.antt =====
-- The event lists of the aggregates: numbered, only ever longer, and without a repeated event.
use dynamic_neural_computing.Prelude.{
  ℕ, All, suc, ◌+◌, ◌≡◌, ◌≤◌, refl, sym, ap, subst, ◌∙◌, Bool, false, ◌==◌, ◌&&◌, List, [], ◌∷◌,
  ◌++◌, Table, fetch, put, or_else, any, table_values, length, if◌then◌else◌, arith, Bool-cases,
  inl, inr,
}
use dynamic_neural_computing.Persistence.Repository.{
  DurableEvent, OutboxMessage, EventRepository, new_repository, load, version_of, is_recorded,
  opened, record_event,
}
use dynamic_neural_computing.Persistence.Repository.Calls.{
  Call, Restores, run, Keeps, run-keeps, load-opened, load-record_event,
}

-- Events of the tenant and the aggregate, at the versions that follow one another.
abbrev pub IsStream : ℕ → ℕ → ℕ → List DurableEvent → Type 0
IsStream a t version [] = Unit
IsStream a t version (event ∷ events) =
    (event.tenant_id ≡ t)
    × (event.aggregate_id ≡ a)
    × (event.aggregate_version ≡ suc version)
    × IsStream a t (suc version) events

abbrev count {ℓ} : {A : Type ℓ} → (A → Bool) → List A → ℕ
count p [] = 0
count p (x ∷ xs) = (if p x then 1 else 0) + count p xs

-- How many events pass a test, in all the lists.
abbrev pub total : (DurableEvent → Bool) → Table (List DurableEvent) → ℕ
total p [] = 0
total p ((key, events) ∷ table) = count p events + total p table

abbrev pub has_identity : ℕ → ℕ → DurableEvent → Bool
has_identity event_id tenant_id item = item.event_id == event_id && item.tenant_id == tenant_id

count-append {ℓ} :
    {A : Type ℓ} (p : A → Bool) (xs ys : List A) → count p (xs ++ ys) ≡ count p xs + count p ys
count-append p [] ys = omega arith
count-append p (x ∷ xs) ys = omega (arith, count-append p xs ys)

total-put :
    (p : DurableEvent → Bool) (t i : ℕ) (v : List DurableEvent) (d : Table (List DurableEvent))
    → total p (put t i v d) + count p (or_else (fetch t i d) []) ≡ total p d + count p v
total-put p t i v [] = omega arith
total-put p t i v (((u, j), w) ∷ d) = elim (Bool-cases (t == u && i == j)) [
  | inl s ↦ rw s (omega arith)
  | inr f ↦ rw f (omega (arith, total-put p t i v d))
]

any-count {ℓ} : {A : Type ℓ} (p : A → Bool) (xs : List A) → any p xs ≡ false → count p xs ≡ 0
any-count p [] h = refl
any-count p (x ∷ xs) h = ground (arith, any-count p xs, h)

any-total :
    (p : DurableEvent → Bool) (d : Table (List DurableEvent))
    → any (any p) (table_values d) ≡ false
    → total p d ≡ 0
any-total p [] h = refl
any-total p (((u, j), w) ∷ d) h = ground (arith, any-total p d, any-count p w, h)

-- The last version of a stream, counted from where it starts.
ending : ℕ → List DurableEvent → ℕ
ending n [] = n
ending n (event ∷ events) = ending event.aggregate_version events

ending-version_of : (events : List DurableEvent) → ending 0 events ≡ version_of events
unfolding ending
ending-version_of [] = refl
ending-version_of (x ∷ events) = later x events
  where
    later :
        (y : DurableEvent) (ys : List DurableEvent)
        → ending y.aggregate_version ys ≡ version_of (y ∷ ys)
    later y [] = refl
    later y (z ∷ ys) = later z ys

IsStream-append :
    (a t n : ℕ) (events : List DurableEvent) (event : DurableEvent)
    → IsStream a t n events
    → event.tenant_id ≡ t
    → event.aggregate_id ≡ a
    → event.aggregate_version ≡ suc (ending n events)
    → IsStream a t n (events ++ event ∷ [])
unfolding ending
IsStream-append a t n [] event h e f g = (e, f, g, tt)
IsStream-append a t n (x ∷ events) event h e f g =
    let (tenant, aggregate, version, rest) = h in
    (
      tenant,
      aggregate,
      version,
      IsStream-append a t (suc n) events event rest e f
          (g ∙ ap (λ m. suc (ending m events)) version),
    )

pub record IsValid (repo : EventRepository) : Type 0 where
  pub streams : (a t : ℕ) → IsStream a t 0 (load a t repo)
  pub unique : (event_id tenant_id : ℕ) → total (has_identity event_id tenant_id) repo.events ≤ 1

opened-IsValid :
    (event : DurableEvent) (repo : EventRepository) → IsValid repo → IsValid (opened event repo)
unfolding opened load
opened-IsValid event repo v = record {
  streams = λ a t. subst (IsStream a t 0) (sym (load-opened event a t repo)) (v.streams a t);
  unique = λ x u. omega (
    arith,
    v.unique x u,
    total-put (has_identity x u) event.tenant_id event.aggregate_id
        (or_else (fetch event.tenant_id event.aggregate_id repo.events) []) repo.events,
  );
}

record_event-IsValid :
    (event : DurableEvent) (outbox : List OutboxMessage) (repo : EventRepository)
    → event.aggregate_version ≡ suc (version_of (load event.aggregate_id event.tenant_id repo))
    → is_recorded event repo ≡ false
    → IsValid repo
    → IsValid (record_event event outbox repo)
unfolding record_event load is_recorded
record_event-IsValid event outbox repo next new v = record {
  streams = λ a t. elim (Bool-cases (t == event.tenant_id && a == event.aggregate_id)) [
    | inl s ↦
        let same_t : t ≡ event.tenant_id = ground (arith, s) in
        let same_a : a ≡ event.aggregate_id = ground (arith, s) in
        let old : List DurableEvent = load event.aggregate_id event.tenant_id repo in
        rw (load-record_event event outbox a t repo, s)
          (IsStream-append a t 0 old event
            (rw (same_t, same_a) (v.streams event.aggregate_id event.tenant_id)) (sym same_t)
            (sym same_a) (next ∙ ap suc (sym (ending-version_of old))))
    | inr f ↦ rw (load-record_event event outbox a t repo, f) (v.streams a t)
  ];
  unique = λ x u.
      let old : List DurableEvent = load event.aggregate_id event.tenant_id repo in
      let sum : total (has_identity x u)
            (put event.tenant_id event.aggregate_id (old ++ event ∷ []) repo.events)
          ≡ total (has_identity x u) repo.events + count (has_identity x u) (event ∷ []) =
        unfold load in
        omega (
          arith,
          count-append (has_identity x u) old (event ∷ []),
          total-put (has_identity x u) event.tenant_id event.aggregate_id (old ++ event ∷ [])
              repo.events,
        ) in
      elim (Bool-cases (has_identity x u event)) [
        | inl s ↦
            let same_x : event.event_id ≡ x = ground (arith, s) in
            let same_u : event.tenant_id ≡ u = ground (arith, s) in
            let fresh : total (has_identity x u) repo.events ≡ 0 =
              rw (sym same_x, sym same_u)
                (any-total (has_identity event.event_id event.tenant_id) repo.events new) in
            ground (arith, sum, s, fresh)
        | inr f ↦ ground (arith, sum, f, v.unique x u)
      ];
}

pub IsValid-Keeps : Keeps IsValid
unfolding load
IsValid-Keeps = record {
  on_open = opened-IsValid;
  on_record = record_event-IsValid;
  on_publish = λ table repo v. record { streams = v.streams; unique = v.unique };
  on_receive =
      λ message fingerprint repo first v. record { streams = v.streams; unique = v.unique };
}

new_repository-IsValid : IsValid new_repository
unfolding new_repository load
new_repository-IsValid = record { streams = λ a t. tt; unique = λ x u. omega arith }

pub run-IsValid :
    (calls : List Call) → All (Restores IsValid) calls → IsValid (run calls new_repository)
run-IsValid calls rs =
    run-keeps IsValid IsValid-Keeps calls new_repository rs new_repository-IsValid

ending-length :
    (a t n : ℕ) (events : List DurableEvent)
    → IsStream a t n events
    → ending n events ≡ n + length events
unfolding ending
ending-length a t n [] h = omega arith
ending-length a t n (x ∷ events) h =
    let (_, _, version, rest) = h in
    rw version (omega (arith, ending-length a t (suc n) events rest))

-- The version of a stream is the number of its events.
pub version_of-length :
    (a t : ℕ) (events : List DurableEvent)
    → IsStream a t 0 events
    → version_of events ≡ length events
version_of-length a t events h =
    omega (arith, ending-version_of events, ending-length a t 0 events h)
