-- ===== src/Memory/Skills/Rollback.antt =====
-- `rollback` activates the parent of a version without a look at the other versions.
use dynamic_neural_computing.Prelude.{
  ℕ, ◌≡◌, ◌≢◌, ◌∙◌, true, false, some, Table, fetch, put, fetch-put, ok, arith,
}
use dynamic_neural_computing.Memory.Skills.{
  active, rolled_back, same_lifecycle, SkillManifest, Thresholds, SkillRegistry, get,
  require_version, with_evaluation, check_transition, qualifies, demote_rivals, enter, transition,
  restore_parent, rollback,
}
use dynamic_neural_computing.Memory.Skills.Active.{IsValid}

-- The first half of a rollback.
rolled : ℕ → ℕ → SkillManifest → SkillRegistry → SkillRegistry
rolled s v m reg = record reg {
  versions = put s v (record m { lifecycle = rolled_back }) reg.versions;
}

transition-rolled :
    (limits : Thresholds) (s v : ℕ) (m : SkillManifest) (reg : SkillRegistry)
    → fetch s v reg.versions ≡ some m
    → same_lifecycle rolled_back m.lifecycle ≡ false
    → transition limits s v rolled_back reg
      ≡ ok (record m { lifecycle = rolled_back }, rolled s v m reg)
unfolding transition require_version get check_transition with_evaluation enter demote_rivals rolled
transition-rolled limits s v m reg found lives = ground (arith, found, lives)

-- In a registry with valid versions, a rollback of a version that was not rolled back before and
-- whose parent qualifies returns it rolled back, makes the parent active, and leaves every third
-- version of the skill as it was, so also one that is active.
pub rollback_two_active :
    (limits : Thresholds) (s v p w : ℕ) (m parent other : SkillManifest) (reg : SkillRegistry)
    → IsValid reg.versions
    → fetch s v reg.versions ≡ some m
    → same_lifecycle rolled_back m.lifecycle ≡ false
    → m.parent_version ≡ some p
    → fetch s p reg.versions ≡ some parent
    → qualifies limits parent reg ≡ true
    → fetch s w reg.versions ≡ some other
    → (p ≢ v) × (w ≢ v) × (w ≢ p)
    → (reg' : SkillRegistry) × (rollback limits s v reg
        ≡ (ok (record m { lifecycle = rolled_back }), reg'))
      × (fetch s p reg'.versions ≡ some (record parent { lifecycle = active }))
      × (fetch s w reg'.versions ≡ some other)
unfolding rolled
rollback_two_active limits s v p w m parent other reg k found lives from there fits beside apart =
    let (p_v, w_v, w_p) = apart in
    let reg1 : SkillRegistry = rolled s v m reg in
    let parent1 : fetch s p reg1.versions ≡ some parent =
      ground (
        arith,
        there,
        p_v,
        fetch-put s p s v (record m { lifecycle = rolled_back }) reg.versions,
      ) in
    let other1 : fetch s w reg1.versions ≡ some other =
      ground (
        arith,
        beside,
        w_v,
        fetch-put s w s v (record m { lifecycle = rolled_back }) reg.versions,
      ) in
    let own : parent.version ≡ p = (k.keyed s p parent there).1 in
    let after : Table SkillManifest =
      put s parent.version (record parent { lifecycle = active }) reg1.versions in
    let failed : SkillManifest = record m { lifecycle = rolled_back } in
    let begun : rollback limits s v reg ≡ restore_parent limits s failed reg1 =
      unfold rollback in ground (arith, transition-rolled limits s v m reg found lives) in
    let fits1 : qualifies limits parent reg1 ≡ true = unfold qualifies in fits in
    let ended : restore_parent limits s failed reg1
        ≡ (ok failed, record reg1 { versions = after }) =
      unfold restore_parent require_version get in ground (arith, from, parent1, fits1) in
    (
      record reg1 { versions = after },
      begun ∙ ended,
      ground (
        arith,
        own,
        fetch-put s p s parent.version (record parent { lifecycle = active }) reg1.versions,
      ),
      ground (
        arith,
        own,
        other1,
        w_p,
        fetch-put s w s parent.version (record parent { lifecycle = active }) reg1.versions,
      ),
    )
