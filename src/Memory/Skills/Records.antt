-- ===== src/Memory/Skills/Records.antt =====
-- The records of src/dnc/memory/contracts.py that are about skills.
use dynamic_neural_computing.Prelude.{ℕ, Bool, ◌==◌, ◌&&◌, Option, List, ltb, leb}

pub data SkillLifecycle : Type 0 where
  draft sandboxed evaluated shadow canary active quarantined retired rolled_back : SkillLifecycle

abbrev pub lifecycle_code : SkillLifecycle → ℕ
lifecycle_code draft = 0
lifecycle_code sandboxed = 1
lifecycle_code evaluated = 2
lifecycle_code shadow = 3
lifecycle_code canary = 4
lifecycle_code active = 5
lifecycle_code quarantined = 6
lifecycle_code retired = 7
lifecycle_code rolled_back = 8

abbrev pub same_lifecycle : SkillLifecycle → SkillLifecycle → Bool
same_lifecycle a b = lifecycle_code a == lifecycle_code b

pub record Episode : Type 0 where
  pub episode_id : ℕ
  pub tenant_id : ℕ
  pub task_fingerprint : ℕ
  pub actions : List ℕ
  -- `outcome > 0`
  pub gains : Bool
  pub verified : Bool
  pub evidence_ids : List ℕ
  pub negative : Bool

pub record SkillManifest : Type 0 where
  pub skill_id : ℕ
  pub version : ℕ
  pub tenant_id : ℕ
  pub name : ℕ
  pub procedure : List ℕ
  pub permissions : List ℕ
  pub domains : List ℕ
  pub source_episode_ids : List ℕ
  pub negative_episode_ids : List ℕ
  pub lifecycle : SkillLifecycle
  pub dependency_fingerprints : List ℕ
  pub evaluation_artifact_ids : List ℕ
  pub parent_version : Option ℕ
  pub fingerprint : ℕ

pub record SkillEvaluation : Type 0 where
  pub artifact_id : ℕ
  pub skill_fingerprint : ℕ
  pub held_out_tasks : ℕ
  pub baseline_success : ℕ
  pub skill_success : ℕ
  pub harmful_transfer_rate : ℕ
  pub poisoning_detection_rate : ℕ
  pub permission_violations : ℕ

-- The ranks of 0.05 and 0.95.
pub record Thresholds : Type 0 where
  pub harm_limit : ℕ
  pub detection_floor : ℕ

unfoldable pub promotable : Thresholds → SkillEvaluation → Bool
promotable limits e =
    ltb 0 e.held_out_tasks
    && ltb e.baseline_success e.skill_success
    && leb e.harmful_transfer_rate limits.harm_limit
    && leb limits.detection_floor e.poisoning_detection_rate
    && e.permission_violations == 0
