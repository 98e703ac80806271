-- ===== src/Memory/Skills/Tests.antt =====
-- Runs of the registry of skills.
use dynamic_neural_computing.Prelude.{ℕ, ◌≡◌, refl, true, some, List, [], ◌∷◌, fetch, ok, arith}
use dynamic_neural_computing.Memory.Skills.{
  draft, sandboxed, evaluated, shadow, canary, active, rolled_back, SkillManifest, SkillEvaluation,
  Thresholds, SkillRegistry, new_registry, promotable, register, get, require_version,
  with_evaluation, check_transition, qualifies, demote_rivals, enter, transition, record_evaluation,
  rollback,
}
use dynamic_neural_computing.Memory.Skills.Active.{IsValid}
use dynamic_neural_computing.Memory.Skills.Calls.{
  Call, registers, transitions, evaluates, perform, run, versions-IsValid,
}
use dynamic_neural_computing.Memory.Skills.Rollback.{rollback_two_active}

abbrev limits : Thresholds
limits = record { harm_limit = 5; detection_floor = 95 }

abbrev manifest : ℕ → SkillManifest
manifest version = record {
  skill_id = 1;
  version = version;
  tenant_id = 2;
  name = 3;
  procedure = 4 ∷ [];
  permissions = [];
  domains = [];
  source_episode_ids = 5 ∷ [];
  negative_episode_ids = [];
  lifecycle = draft;
  dependency_fingerprints = [];
  evaluation_artifact_ids = [];
  parent_version = some 1;
  fingerprint = version;
}

abbrev evaluation : ℕ → SkillEvaluation
evaluation version = record {
  artifact_id = 6;
  skill_fingerprint = version;
  held_out_tasks = 1;
  baseline_success = 50;
  skill_success = 60;
  harmful_transfer_rate = 0;
  poisoning_detection_rate = 99;
  permission_violations = 0;
}

-- A version goes through every step up to ACTIVE.
abbrev activates : ℕ → List Call → List Call
activates v rest =
    registers (manifest v)
    ∷ evaluates (evaluation v)
    ∷ transitions 1 v sandboxed
    ∷ transitions 1 v evaluated
    ∷ transitions 1 v shadow
    ∷ transitions 1 v canary
    ∷ transitions 1 v active
    ∷ rest

-- Version 3 is active in place of version 1, and version 2 is new.
abbrev calls : List Call
calls = activates 1 (activates 3 (registers (manifest 2) ∷ []))

versions-IsValid_example : IsValid (run limits calls new_registry).versions
versions-IsValid_example =
    versions-IsValid limits calls refl
      (tt, (tt, (tt, (tt, (tt, (tt, (tt, (tt, (tt, (tt, (tt, (tt, (tt, (tt, (tt, tt)))))))))))))))

abbrev three_versions : SkillRegistry
three_versions = run limits calls new_registry

abbrev first_version : SkillManifest
first_version = record (manifest 1) { lifecycle = rolled_back; evaluation_artifact_ids = 6 ∷ [] }

abbrev third_version : SkillManifest
third_version = record (manifest 3) { lifecycle = active; evaluation_artifact_ids = 6 ∷ [] }

first_there : fetch 1 1 three_versions.versions ≡ some first_version
unfolding new_registry register get require_version with_evaluation check_transition qualifies
    promotable demote_rivals enter transition record_evaluation perform run
first_there = refl

second_there : fetch 1 2 three_versions.versions ≡ some (manifest 2)
unfolding new_registry register get require_version with_evaluation check_transition qualifies
    promotable demote_rivals enter transition record_evaluation perform run
second_there = refl

third_there : fetch 1 3 three_versions.versions ≡ some third_version
unfolding new_registry register get require_version with_evaluation check_transition qualifies
    promotable demote_rivals enter transition record_evaluation perform run
third_there = refl

first_qualifies : qualifies limits first_version three_versions ≡ true
unfolding new_registry register get require_version with_evaluation check_transition qualifies
    promotable demote_rivals enter transition record_evaluation perform run
first_qualifies = refl

-- After the rollback of version 2 both version 1 and version 3 are active.
rollback_two_active_example :
    (reg' : SkillRegistry) × (rollback limits 1 2 three_versions
      ≡ (ok (record (manifest 2) { lifecycle = rolled_back }), reg'))
    × (fetch 1 1 reg'.versions ≡ some (record first_version { lifecycle = active }))
    × (fetch 1 3 reg'.versions ≡ some third_version)
rollback_two_active_example =
    rollback_two_active limits 1 2 1 3 (manifest 2) first_version third_version three_versions
      versions-IsValid_example second_there refl refl first_there first_qualifies third_there
      (omega arith, omega arith, omega arith)
