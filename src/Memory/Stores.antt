-- ===== src/Memory/Stores.antt =====
-- `MemoryStore` and `GovernedMemory` of src/dnc/memory/stores.py, with the records of
-- src/dnc/memory/contracts.py. Strings are numbers in their order; floats that are only compared
-- stand as their ranks. The values of an exact reranker and the number of words that a record shares
-- with the query are functions of the record.
pub mod Validity
pub mod Queries
pub mod Retrieval
pub mod Holds
pub mod Sweeps
pub mod Invalidation
mod Tests
use dynamic_neural_computing.Prelude.{
  ℕ, Bool, true, false, not, ◌==◌, ◌&&◌, ◌||◌, Option, none, some, List, [], ◌∷◌, ◌++◌, any, all,
  map, mem, filter, find?, ltb, leb, is_some, Dict, lookup, contains, insert, keys, values, sorted,
  Outcome, ok, raise, ◌>>=◌, value_error, key_error, permission_error, if◌then◌else◌,
}

pub data MemoryKind : Type 0 where
  working episodic semantic procedural calibration audit : MemoryKind

abbrev pub kind_code : MemoryKind → ℕ
kind_code working = 0
kind_code episodic = 1
kind_code semantic = 2
kind_code procedural = 3
kind_code calibration = 4
kind_code audit = 5

abbrev pub same_kind : MemoryKind → MemoryKind → Bool
same_kind a b = kind_code a == kind_code b

pub record MemoryRecord : Type 0 where
  pub record_id : ℕ
  pub kind : MemoryKind
  pub tenant_id : ℕ
  pub content : Option ℕ
  pub provenance : List ℕ
  pub security_labels : List ℕ
  pub trust : ℕ
  pub created_at_ns : ℕ
  pub expires_at_ns : Option ℕ
  pub legal_hold : Bool
  pub dependencies : List ℕ
  pub domain : ℕ
  pub model_fingerprint : Option ℕ
  pub policy_fingerprint : Option ℕ
  pub integrity_verified : Bool
  pub deleted : Bool
  pub metadata : ℕ

pub record MemoryStore : Type 0 where
  pub kind : MemoryKind
  pub records : Dict MemoryRecord

-- `MemoryStore(kind)`
pub new_store : MemoryKind → MemoryStore
new_store kind = record { kind = kind; records = [] }

pub put : MemoryRecord → MemoryStore → Outcome MemoryStore
put r store =
    if not (same_kind r.kind store.kind)
    then raise value_error
    else if contains r.record_id store.records
    then raise value_error
    else ok (record store { records = insert r.record_id r store.records })

pub get : ℕ → ℕ → MemoryStore → Option MemoryRecord
get record_id tenant_id store = elim (lookup record_id store.records) [
  | none ↦ none
  | some r ↦ if not (r.tenant_id == tenant_id) || r.deleted then none else some r
]

-- `replace(record, deleted=True, content=None)`
abbrev pub wiped : MemoryRecord → MemoryRecord
wiped r = record r { deleted = true; content = none }

pub delete : ℕ → ℕ → MemoryStore → Outcome MemoryStore
unfolding get
delete record_id tenant_id store = elim (get record_id tenant_id store) [
  | none ↦ raise key_error
  | some r ↦
      if r.legal_hold
      then raise permission_error
      else ok (record store { records = insert record_id (wiped r) store.records })
]

-- The arguments of `retrieve`.
pub record Query : Type 0 where
  pub tenant_id : ℕ
  pub allowed_labels : List ℕ
  pub now_ns : ℕ
  pub minimum_trust : ℕ
  pub domain : Option ℕ
  pub critical : Bool
  pub exact_reranker : Option (MemoryRecord → ℕ)
  -- `len(terms & set(str(record.content).casefold().split()))`
  pub lexical : MemoryRecord → ℕ

-- The condition of the comprehension.
pub is_candidate : Query → MemoryRecord → Bool
is_candidate query r =
    r.tenant_id == query.tenant_id
    && not r.deleted
    && all (λ label. mem label query.allowed_labels) r.security_labels
    && leb query.minimum_trust r.trust
    && elim r.expires_at_ns [ none ↦ true | some expiry ↦ ltb query.now_ns expiry ]
    && elim query.domain [ none ↦ true | some domain ↦ r.domain == domain ]
    && (not query.critical || r.integrity_verified)

abbrev pub exact_score : Query → MemoryRecord → ℕ
exact_score query r = elim query.exact_reranker [ none ↦ 0 | some rank ↦ rank r ]

-- `score(a) <= score(b)`, the comparison of the tuples.
pub comes_first : Query → MemoryRecord → MemoryRecord → Bool
comes_first query a b =
    ltb (exact_score query b) (exact_score query a)
    || exact_score query a == exact_score query b
      && (ltb b.trust a.trust
          || a.trust == b.trust
            && (ltb (query.lexical b) (query.lexical a)
                || query.lexical a == query.lexical b && leb a.record_id b.record_id))

pub insert_by_score : Query → MemoryRecord → List MemoryRecord → List MemoryRecord
unfolding comes_first
insert_by_score query r [] = r ∷ []
insert_by_score query r (x ∷ xs) =
    let rest = x ∷ insert_by_score query r xs in if comes_first query r x then r ∷ x ∷ xs else rest

-- `sorted(candidates, key=score)`
pub sort_by_score : Query → List MemoryRecord → List MemoryRecord
unfolding insert_by_score
sort_by_score query [] = []
sort_by_score query (r ∷ rs) = insert_by_score query r (sort_by_score query rs)

pub retrieve : Query → MemoryStore → Outcome (List MemoryRecord)
unfolding is_candidate sort_by_score
retrieve query store =
    if query.critical && not (is_some query.exact_reranker)
    then raise value_error
    else ok (sort_by_score query (filter (is_candidate query) (values store.records)))

-- The records under these keys.
abbrev pub records_at : List ℕ → Dict MemoryRecord → List MemoryRecord
records_at [] d = []
records_at (k ∷ ks) d =
    let rest = records_at ks d in elim (lookup k d) [ none ↦ rest | some r ↦ r ∷ rest ]

pub snapshot : MemoryStore → List MemoryRecord
snapshot store = records_at (sorted (keys store.records)) store.records

-- The stores of a `GovernedMemory`, in the order of the kinds.
abbrev pub all_kinds : List MemoryKind
all_kinds = working ∷ episodic ∷ semantic ∷ procedural ∷ calibration ∷ audit ∷ []

pub record GovernedMemory : Type 0 where
  pub stores : List MemoryStore

-- `GovernedMemory()`
pub new_memory : GovernedMemory
unfolding new_store
new_memory = record { stores = map new_store all_kinds }

-- `self._stores[kind]`
pub store : MemoryKind → GovernedMemory → Outcome MemoryStore
store kind memory = elim (find? (λ s. same_kind s.kind kind) memory.stores) [
  | none ↦ raise key_error
  | some s ↦ ok s
]

-- A store in the place of the one of its kind.
abbrev pub set_store : MemoryStore → List MemoryStore → List MemoryStore
set_store s [] = []
set_store s (x ∷ xs) =
    let rest = x ∷ set_store s xs in if same_kind x.kind s.kind then s ∷ xs else rest

-- `GovernedMemory.put`
pub put_record : MemoryRecord → GovernedMemory → Outcome GovernedMemory
unfolding store put
put_record r memory = store r.kind memory >>= λ s.
    put r s >>= λ s'. ok (record { stores = set_store s' memory.stores })

-- `set(record.dependencies) & changed_fingerprints`
abbrev pub depends_on : List ℕ → MemoryRecord → Bool
depends_on changed r = any (λ dependency. mem dependency changed) r.dependencies

abbrev pub is_stale : List ℕ → MemoryRecord → Bool
is_stale changed r = not r.deleted && depends_on changed r

-- The inner loop of `invalidate_dependencies`, over the snapshot of one store.
pub invalidate_records : List ℕ → List MemoryRecord → Dict MemoryRecord → List ℕ × Dict MemoryRecord
invalidate_records changed [] d = ([], d)
invalidate_records changed (r ∷ rs) d =
    let (ids, d') =
      invalidate_records changed rs
        (if is_stale changed r then insert r.record_id (wiped r) d else d) in
    (if is_stale changed r then r.record_id ∷ ids else ids, d')

-- The outer loop.
pub invalidate_stores : List ℕ → List MemoryStore → List ℕ × List MemoryStore
unfolding invalidate_records snapshot
invalidate_stores changed [] = ([], [])
invalidate_stores changed (s ∷ ss) =
    let (ids, d) = invalidate_records changed (snapshot s) s.records in
    let (more, ss') = invalidate_stores changed ss in (ids ++ more, record s { records = d } ∷ ss')

pub invalidate_dependencies : List ℕ → GovernedMemory → List ℕ × GovernedMemory
unfolding invalidate_stores
invalidate_dependencies changed memory =
    let (ids, stores) = invalidate_stores changed memory.stores in
    (sorted ids, record { stores = stores })

-- `GovernedMemory.snapshot`: the snapshots under the names of the kinds.
pub snapshot_all : GovernedMemory → List (MemoryKind × List MemoryRecord)
unfolding snapshot
snapshot_all memory = map (λ s. (s.kind, snapshot s)) memory.stores

-- `state.get(kind.value, ())`
abbrev pub records_of : MemoryKind → List (MemoryKind × List MemoryRecord) → List MemoryRecord
records_of kind [] = []
records_of kind ((k, rs) ∷ state) = if same_kind k kind then rs else records_of kind state

pub put_all : List MemoryRecord → MemoryStore → Outcome MemoryStore
unfolding put
put_all [] s = ok s
put_all (r ∷ rs) s = put r s >>= put_all rs

pub restore_kinds :
    List MemoryKind → List (MemoryKind × List MemoryRecord) → Outcome (List MemoryStore)
unfolding put_all new_store
restore_kinds [] state = ok []
restore_kinds (kind ∷ kinds) state = put_all (records_of kind state) (new_store kind) >>= λ s.
    restore_kinds kinds state >>= λ ss. ok (s ∷ ss)

-- `GovernedMemory.restore`, where the memory before is kept if it raises.
pub restore : List (MemoryKind × List MemoryRecord) → GovernedMemory → Outcome GovernedMemory
unfolding restore_kinds
restore state memory = restore_kinds all_kinds state >>= λ ss. ok (record { stores = ss })
