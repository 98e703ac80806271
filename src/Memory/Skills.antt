-- ===== src/Memory/Skills.antt =====
-- `SkillRegistry` and `induce_skill` of src/dnc/memory/skills.py, with the records of
-- src/dnc/memory/contracts.py. Strings are numbers; floats that are only compared stand as their
-- ranks, and the two rates that `promotable` compares with are parameters. The fingerprint of a
-- manifest is a field: the hash leaves out what the registry replaces.
mod Records
pub mod Active
pub mod Calls
pub mod Rollback
mod Tests
unfoldable pub use Records.*
use dynamic_neural_computing.Prelude.{
  ℕ, suc, Bool, true, false, not, ◌==◌, ◌&&◌, ◌||◌, Option, none, some, List, [], ◌∷◌, ◌++◌, any,
  all, map, mem, filter, ltb, leb, Dict, lookup, contains, insert, Table, fetch, holds, put,
  table_values, map_values, sorted, Outcome, ok, raise, ◌>>=◌, require, value_error, key_error,
  if◌then◌else◌,
}

pub record SkillRegistry : Type 0 where
  pub versions : Table SkillManifest
  pub evaluations : Dict SkillEvaluation
  pub disabled : List ℕ

-- `SkillRegistry()`
pub new_registry : SkillRegistry
new_registry = record { versions = []; evaluations = []; disabled = [] }

pub register : SkillManifest → SkillRegistry → Outcome SkillRegistry
register m reg =
    if holds m.skill_id m.version reg.versions
    then raise value_error
    else ok (record reg { versions = put m.skill_id m.version m reg.versions })

pub get : ℕ → ℕ → SkillRegistry → Option SkillManifest
get skill_id version reg = fetch skill_id version reg.versions

-- `_FORWARD.get(lifecycle)`
abbrev pub forward : SkillLifecycle → Option SkillLifecycle
forward draft = some sandboxed
forward sandboxed = some evaluated
forward evaluated = some shadow
forward shadow = some canary
forward canary = some active
forward _ = none

abbrev pub is_forward : SkillLifecycle → SkillLifecycle → Bool
is_forward old new = elim (forward old) [ none ↦ false | some next ↦ same_lifecycle next new ]

-- `{QUARANTINED, RETIRED, ROLLED_BACK}`
abbrev pub is_final : SkillLifecycle → Bool
is_final quarantined = true
is_final retired = true
is_final rolled_back = true
is_final _ = false

-- `{SHADOW, CANARY, ACTIVE}`
abbrev pub is_promoted : SkillLifecycle → Bool
is_promoted shadow = true
is_promoted canary = true
is_promoted active = true
is_promoted _ = false

-- The artifact that EVALUATED asks for.
pub with_evaluation : SkillLifecycle → SkillManifest → SkillRegistry → Outcome SkillManifest
with_evaluation new current reg =
    if same_lifecycle new evaluated
    then elim (lookup current.fingerprint reg.evaluations) [
      | none ↦ raise value_error
      | some e ↦ ok (record current { evaluation_artifact_ids = e.artifact_id ∷ [] })
    ]
    else ok current

-- `evaluation is not None and evaluation.promotable`
pub qualifies : Thresholds → SkillManifest → SkillRegistry → Bool
unfolding promotable
qualifies limits m reg = elim (lookup m.fingerprint reg.evaluations) [
  | none ↦ false
  | some e ↦ promotable limits e
]

-- The checks of `transition` to another lifecycle.
pub check_transition :
    Thresholds → SkillLifecycle → SkillManifest → SkillRegistry → Outcome SkillManifest
unfolding with_evaluation qualifies
check_transition limits new current reg =
    if not (is_final new) && not (is_forward current.lifecycle new)
    then raise value_error
    else with_evaluation new current reg >>= λ current'.
        if is_promoted new && not (qualifies limits current' reg)
        then raise value_error
        else ok current'

-- Another active version of the skill of the tenant.
abbrev pub is_rival : SkillManifest → SkillManifest → Bool
is_rival current other =
    other.skill_id == current.skill_id
    && other.tenant_id == current.tenant_id
    && not (other.version == current.version)
    && same_lifecycle other.lifecycle active

abbrev pub demote : SkillManifest → SkillManifest → SkillManifest
demote current other =
    if is_rival current other then record other { lifecycle = rolled_back } else other

-- The loop over the other versions. Each step writes under the key that it reads.
pub demote_rivals : SkillLifecycle → SkillManifest → SkillRegistry → SkillRegistry
demote_rivals new current reg =
    if same_lifecycle new active
    then record reg { versions = map_values (demote current) reg.versions }
    else reg

-- The writes of `transition`.
pub enter : ℕ → ℕ → SkillLifecycle → SkillManifest → SkillRegistry → SkillManifest × SkillRegistry
unfolding demote_rivals
enter skill_id version new current reg =
    let reg' : SkillRegistry = demote_rivals new current reg in
    let updated : SkillManifest = record current { lifecycle = new } in
    (updated, record reg' { versions = put skill_id version updated reg'.versions })

-- `_require`
pub require_version : ℕ → ℕ → SkillRegistry → Outcome SkillManifest
unfolding get
require_version skill_id version reg = require (get skill_id version reg)

pub transition :
    Thresholds → ℕ → ℕ → SkillLifecycle → SkillRegistry → Outcome (SkillManifest × SkillRegistry)
unfolding require_version check_transition enter
transition limits skill_id version new reg = require_version skill_id version reg >>= λ current.
    if same_lifecycle new current.lifecycle
    then ok (current, reg)
    else check_transition limits new current reg >>= λ current'.
        ok (enter skill_id version new current' reg)

pub record_evaluation : SkillEvaluation → SkillRegistry → Outcome SkillRegistry
record_evaluation e reg =
    if not (mem e.skill_fingerprint (map (λ m. m.fingerprint) (table_values reg.versions)))
    then raise key_error
    else ok (record reg { evaluations = insert e.skill_fingerprint e reg.evaluations })

-- `sorted(versions, key=lambda value: (value.skill_id, value.version))`
pub insert_manifest : SkillManifest → List SkillManifest → List SkillManifest
insert_manifest m [] = m ∷ []
insert_manifest m (x ∷ xs) =
    let rest = x ∷ insert_manifest m xs in
    if ltb m.skill_id x.skill_id || m.skill_id == x.skill_id && leb m.version x.version
    then m ∷ x ∷ xs
    else rest

pub sorted_manifests : List SkillManifest → List SkillManifest
unfolding insert_manifest
sorted_manifests [] = []
sorted_manifests (m ∷ ms) = insert_manifest m (sorted_manifests ms)

pub active_skills : ℕ → ℕ → List ℕ → SkillRegistry → List SkillManifest
unfolding sorted_manifests
active_skills tenant_id domain permissions reg =
    filter
      (λ m.
        same_lifecycle m.lifecycle active
        && not (mem m.skill_id reg.disabled)
        && m.tenant_id == tenant_id
        && mem domain m.domains
        && all (λ permission. mem permission permissions) m.permissions)
      (sorted_manifests (table_values reg.versions))

-- The condition of `invalidate`.
abbrev pub is_outdated : List ℕ → SkillManifest → Bool
is_outdated changed m =
    any (λ fingerprint. mem fingerprint changed) m.dependency_fingerprints
    && not (same_lifecycle m.lifecycle retired || same_lifecycle m.lifecycle rolled_back)

abbrev pub quarantine : List ℕ → SkillManifest → SkillManifest
quarantine changed m = if is_outdated changed m then record m { lifecycle = quarantined } else m

-- `invalidate`; `label` writes a skill and a version as one string.
pub invalidate : (ℕ → ℕ → ℕ) → List ℕ → SkillRegistry → List ℕ × SkillRegistry
invalidate label changed reg = (
  sorted (
      map (λ m. label m.skill_id m.version)
        (filter (is_outdated changed) (table_values reg.versions))),
  record reg { versions = map_values (quarantine changed) reg.versions },
)

-- The second half of `rollback`: the parent of the version that failed. An exception leaves what
-- the first half wrote.
pub restore_parent :
    Thresholds → ℕ → SkillManifest → SkillRegistry → Outcome SkillManifest × SkillRegistry
unfolding require_version qualifies
restore_parent limits skill_id failed reg = elim failed.parent_version [
  | none ↦ (ok failed, reg)
  | some parent_version ↦ elim (require_version skill_id parent_version reg) [
    | raise e ↦ (raise e, reg)
    | ok parent ↦ if not (qualifies limits parent reg) then (raise value_error, reg) else (
      ok failed,
      record reg {
        versions = put skill_id parent.version (record parent { lifecycle = active }) reg.versions;
      },
    )
  ]
]

pub rollback : Thresholds → ℕ → ℕ → SkillRegistry → Outcome SkillManifest × SkillRegistry
unfolding transition restore_parent
rollback limits skill_id version reg = elim (transition limits skill_id version rolled_back reg) [
  | raise e ↦ (raise e, reg)
  | ok (failed, reg') ↦ restore_parent limits skill_id failed reg'
]

-- `self._disabled.add(skill_id)`, where a skill that is there has a key.
pub disable : ℕ → SkillRegistry → Outcome SkillRegistry
disable skill_id reg =
    if not (any (λ (entry : (ℕ × ℕ) × SkillManifest). entry.0.0 == skill_id) reg.versions)
    then raise key_error
    else ok (record reg {
      disabled = if mem skill_id reg.disabled then reg.disabled else skill_id ∷ reg.disabled;
    })

abbrev pub is_positive : Episode → Bool
is_positive episode = episode.verified && not episode.negative && episode.gains

-- The manifest that `induce_skill` makes of the positive episodes.
pub induced :
    (fingerprint : SkillManifest → ℕ) (skill_id version name : ℕ)
    (procedure permissions domains : List ℕ) (first : Episode) (positive negative : List Episode)
    (dependencies : List ℕ)
    → SkillManifest
induced fingerprint skill_id version name procedure permissions domains first positive negative
      dependencies =
    let m : SkillManifest = record {
      skill_id = skill_id;
      version = version;
      tenant_id = first.tenant_id;
      name = name;
      procedure = procedure;
      permissions = permissions;
      domains = domains;
      source_episode_ids = map (λ (e : Episode). e.episode_id) positive;
      negative_episode_ids = map (λ (e : Episode). e.episode_id) negative;
      lifecycle = draft;
      dependency_fingerprints = dependencies;
      evaluation_artifact_ids = [];
      parent_version = none;
      fingerprint = 0;
    } in
    record m { fingerprint = fingerprint m }

-- `induce_skill`; a procedure that is empty is refused by the constructor of the manifest. The hash
-- is a parameter.
pub induce_skill :
    (fingerprint : SkillManifest → ℕ) (skill_id version name : ℕ)
    (procedure permissions domains : List ℕ) (episodes : List Episode) (dependencies : List ℕ)
    → Outcome SkillManifest
unfolding induced
induce_skill fingerprint skill_id version name procedure permissions domains episodes dependencies =
    elim (filter is_positive episodes) [
      | [] ↦ raise value_error
      | first ∷ positive ↦
          if not (all (λ (e : Episode). e.tenant_id == first.tenant_id) episodes)
          then raise value_error
          else elim procedure [
            | [] ↦ raise value_error
            | step ∷ steps ↦ ok (
                induced fingerprint skill_id version name (step ∷ steps) permissions domains first
                  (first ∷ positive) (filter (λ (e : Episode). e.verified && e.negative) episodes)
                  dependencies)
          ]
    ]

pub restore : SkillRegistry → SkillRegistry → SkillRegistry
restore state reg = state
