-- ===== src/Enterprise/Audit.antt =====
-- `AuditLog` of src/dnc/enterprise/operations.py. Strings and payloads are numbers; what
-- `redact_telemetry` makes of a payload is a parameter, and copies are values.
use dynamic_neural_computing.Prelude.{
  ℕ, ◌≡◌, sym, ap, ◌∙◌, Bool, false, not, ◌==◌, ◌&&◌, ◌||◌, Option, none, some, List, [], ◌∷◌, ltb,
  leb, true, All, ◌⊎◌, ◌<◌, Table, fetch, holds, put, fetch-put, sorted, Outcome, ok, raise,
  value_error, if◌then◌else◌, arith, Bool-cases, inl, inr,
}

pub record AuditRecord : Type 0 where
  pub record_id : ℕ
  pub tenant_id : ℕ
  pub event : ℕ
  pub payload : ℕ
  pub created_at_ns : ℕ
  pub retain_until_ns : ℕ
  pub legal_hold : Bool

pub record AuditLog : Type 0 where
  pub records : Table AuditRecord

-- `AuditLog()`
unfoldable pub new_log : AuditLog
new_log = record { records = [] }

unfoldable pub append : (redact : ℕ → ℕ) → AuditRecord → AuditLog → Outcome AuditLog
append redact r log =
    if holds r.tenant_id r.record_id log.records
    then raise value_error
    else ok (record {
      records = put r.tenant_id r.record_id (record r { payload = redact r.payload }) log.records;
    })

-- The condition of `purge`.
abbrev pub is_due : ℕ → AuditRecord → Bool
is_due now r = not r.legal_hold && leb r.retain_until_ns now

-- The entries that the loop of `purge` leaves: each step takes away the entry that it reads.
abbrev pub kept : ℕ → Table AuditRecord → Table AuditRecord
kept now [] = []
kept now (((t, i), r) ∷ d) =
    let rest = kept now d in if is_due now r then rest else ((t, i), r) ∷ rest

abbrev pub removed : ℕ → Table AuditRecord → List ℕ
removed now [] = []
removed now (((t, i), r) ∷ d) =
    let rest = removed now d in if is_due now r then r.record_id ∷ rest else rest

pub purge : ℕ → AuditLog → List ℕ × AuditLog
purge now log = (sorted (removed now log.records), record { records = kept now log.records })

-- `sorted(self._records.items())`: the keys are distinct, so the records are never compared.
pub insert_entry : ℕ → ℕ → AuditRecord → Table AuditRecord → Table AuditRecord
insert_entry t i r [] = ((t, i), r) ∷ []
insert_entry t i r (((u, j), x) ∷ d) =
    let rest = ((u, j), x) ∷ insert_entry t i r d in
    if ltb t u || t == u && not (ltb j i) then ((t, i), r) ∷ ((u, j), x) ∷ d else rest

pub sorted_entries : Table AuditRecord → Table AuditRecord
unfolding insert_entry
sorted_entries [] = []
sorted_entries (((t, i), r) ∷ d) = insert_entry t i r (sorted_entries d)

abbrev pub of_tenant : ℕ → Table AuditRecord → List AuditRecord
of_tenant tenant_id [] = []
of_tenant tenant_id (((t, i), r) ∷ d) =
    let rest = of_tenant tenant_id d in if t == tenant_id then r ∷ rest else rest

pub records_of : ℕ → AuditLog → List AuditRecord
unfolding sorted_entries
records_of tenant_id log = of_tenant tenant_id (sorted_entries log.records)

pub restore : AuditLog → AuditLog → AuditLog
restore state log = state

pub data Call : Type 0 where
  appends : AuditRecord → Call
  purges : (now : ℕ) → Call

-- The log that a call leaves: where it raises, the log as it was.
abbrev pub left_by : Outcome AuditLog → AuditLog → AuditLog
left_by (ok log') log = log'
left_by (raise e) log = log

unfoldable pub perform : (redact : ℕ → ℕ) → Call → AuditLog → AuditLog
perform redact (appends r) log = left_by (append redact r log) log
perform redact (purges now) log = (purge now log).1

unfoldable pub run : (redact : ℕ → ℕ) → List Call → AuditLog → AuditLog
unfolding perform
run redact [] log = log
run redact (c ∷ cs) log = run redact cs (perform redact c log)

-- A call that is no purge, or a purge of a record under legal hold or before its retention ends.
abbrev pub Spares : AuditRecord → Call → Type 0
Spares r (appends x) = Unit
Spares r (purges now) = (r.legal_hold ≡ true) ⊎ (now < r.retain_until_ns)

Spares-is_due : (now : ℕ) (r : AuditRecord) → Spares r (purges now) → is_due now r ≡ false
Spares-is_due now r (inl held) = ground (arith, held)
Spares-is_due now r (inr early) = ground (arith, early)

fetch-kept :
    (now t i : ℕ) (r : AuditRecord) (d : Table AuditRecord)
    → fetch t i d ≡ some r
    → is_due now r ≡ false
    → fetch t i (kept now d) ≡ some r
fetch-kept now t i r [] e f = e
fetch-kept now t i r (((u, j), x) ∷ d) e f = elim (Bool-cases (t == u && i == j)) [
  | inl s ↦
      let met : some x ≡ some r = ground (arith, e, s) in
      let same : x ≡ r = ap {A = Option AuditRecord} (λ o. elim o [ none ↦ x | some y ↦ y ]) met in
      let stays : is_due now x ≡ false = ap (is_due now) same ∙ f in
      rw stays (ground (arith, s, met))
  | inr g ↦
      let rest : fetch t i (kept now d) ≡ some r =
        fetch-kept now t i r d (ground (arith, e, g)) f in
      elim (Bool-cases (is_due now x)) [
        | inl due ↦ rw due rest
        | inr stays ↦ rw stays (ground (arith, g, rest))
      ]
]

append-fetch :
    (redact : ℕ → ℕ) (t i : ℕ) (r x : AuditRecord) (log : AuditLog)
    → fetch t i log.records ≡ some r
    → fetch t i (left_by (append redact x log) log).records ≡ some r
unfolding append
append-fetch redact t i r x log e = elim (Bool-cases (holds x.tenant_id x.record_id log.records)) [
  | inl known ↦ rw known e
  | inr new ↦ elim (Bool-cases (t == x.tenant_id && i == x.record_id)) [
    | inl s ↦
        let here : fetch x.tenant_id x.record_id log.records ≡ some r =
          ap (λ y. fetch y x.record_id log.records) (sym (ground (arith, s)))
          ∙ ap (λ y. fetch t y log.records) (sym (ground (arith, s)))
          ∙ e in
        absurd (ground (arith, here, new))
    | inr g ↦ rw new (
        ground (
          arith,
          e,
          g,
          fetch-put t i x.tenant_id x.record_id (record x { payload = redact x.payload })
              log.records,
        ))
  ]
]

-- Whatever calls of append and purge follow, an audit record that is under legal hold, or whose
-- retention ends after the time of each of those purges, stays as it is, and an append under its
-- tenant and identity raises ValueError.
pub record_stays :
    (redact : ℕ → ℕ) (calls : List Call) (t i : ℕ) (r : AuditRecord) (log : AuditLog)
    → fetch t i log.records ≡ some r
    → All (Spares r) calls
    → (fetch t i (run redact calls log).records ≡ some r)
      × ((x : AuditRecord)
          → x.tenant_id ≡ t
          → x.record_id ≡ i
          → append redact x (run redact calls log) ≡ raise value_error)
unfolding run perform purge append
record_stays redact [] t i r log e f = (
  e,
  λ x same_t same_i.
      let here : fetch x.tenant_id x.record_id log.records ≡ some r =
        ap (λ y. fetch y x.record_id log.records) same_t
        ∙ ap (λ y. fetch t y log.records) same_i
        ∙ e in
      ground (arith, here),
)
record_stays redact (appends x ∷ cs) t i r log e f =
    record_stays redact cs t i r (left_by (append redact x log) log)
      (append-fetch redact t i r x log e) f.1
record_stays redact (purges now ∷ cs) t i r log e f =
    record_stays redact cs t i r (record { records = kept now log.records })
      (fetch-kept now t i r log.records e (Spares-is_due now r f.0)) f.1
