-- ===== src/Persistence/Repository/Growth.antt =====
-- The event lists only grow, and `rebuild` may start from an older state.
use dynamic_neural_computing.Prelude.{
  ℕ, All, ◌≡◌, sym, ap, ◌∙◌, ◌==◌, ◌&&◌, List, [], ◌∷◌, ◌++◌, append_assoc, append-nil, arith,
  Bool-cases, inl, inr,
}
use dynamic_neural_computing.Persistence.Repository.{DurableEvent, EventRepository, load}
use dynamic_neural_computing.Persistence.Repository.Calls.{
  Call, Restores, run, Keeps, run-keeps, load-opened, load-record_event,
}

-- Every list of the repository goes on from the list that the older one has.
abbrev pub Grows : EventRepository → EventRepository → Type 0
Grows old repo = (a t : ℕ) → (more : List DurableEvent) × (load a t repo ≡ load a t old ++ more)

Grows-Keeps : (old : EventRepository) → Keeps (Grows old)
unfolding load
Grows-Keeps old = record {
  on_open = λ event repo h a t. let (more, e) = h a t in (more, load-opened event a t repo ∙ e);
  on_record = λ event outbox repo next new h a t.
      elim (Bool-cases (t == event.tenant_id && a == event.aggregate_id)) [
        | inl s ↦
            let (more, e) = h a t in
            let there : load event.aggregate_id event.tenant_id repo ≡ load a t old ++ more =
              ap (λ x. load x event.tenant_id repo) (ground (arith, s))
              ∙ ap (λ x. load a x repo) (ground (arith, s))
              ∙ e in
            (
              more ++ event ∷ [],
              rw (load-record_event event outbox a t repo, s, there)
                  (append_assoc (load a t old) more (event ∷ [])),
            )
        | inr f ↦ let (more, e) = h a t in (more, rw (load-record_event event outbox a t repo, f) e)
      ];
  on_publish = λ table repo h. h;
  on_receive = λ message fingerprint repo first h. h;
}

pub run-Grows :
    (calls : List Call) (old : EventRepository)
    → All (Restores (Grows old)) calls
    → Grows old (run calls old)
run-Grows calls old rs =
    run-keeps (Grows old) (Grows-Keeps old) calls old rs
      (λ a t. ([], sym (append-nil (load a t old))))
