-- ===== src/Memory/Skills/Calls.antt =====
-- The calls of the registry but for `rollback`, in any order.
use dynamic_neural_computing.Prelude.{
  ℕ, ◌≡◌, ◌⊎◌, refl, sym, ap, subst, ◌∙◌, Bool, true, false, not, ◌&&◌, some, List, [], ◌∷◌, all,
  lookup, fetch, holds, Outcome, ok, raise, ◌>>=◌, >>=-eq-ok, if◌then◌else◌, arith, Bool-cases,
  Option-cases, inl, inr, value_error, All,
}
use dynamic_neural_computing.Memory.Skills.{
  SkillLifecycle, evaluated, same_lifecycle, SkillManifest, SkillEvaluation, Thresholds,
  SkillRegistry, new_registry, register, get, require_version, with_evaluation, check_transition,
  qualifies, is_final, is_forward, is_promoted, enter, transition, record_evaluation, quarantine,
  invalidate, disable, restore,
}
use dynamic_neural_computing.Memory.Skills.Active.{
  is_active, IsValid, put-IsValid, map-IsValid, quarantine-IsTame, enter-IsValid,
}

pub data Call : Type 0 where
  registers : SkillManifest → Call
  transitions : (skill_id version : ℕ) → SkillLifecycle → Call
  evaluates : SkillEvaluation → Call
  invalidates : List ℕ → Call
  disables : (skill_id : ℕ) → Call
  restores : SkillRegistry → Call

-- The registry that a call leaves: where it raises, the registry as it was.
abbrev pub left_by : Outcome SkillRegistry → SkillRegistry → SkillRegistry
left_by (ok reg') reg = reg'
left_by (raise e) reg = reg

abbrev pub second_of : Outcome (SkillManifest × SkillRegistry) → Outcome SkillRegistry
second_of (ok (m, reg')) = ok reg'
second_of (raise e) = raise e

unfoldable pub perform : Thresholds → Call → SkillRegistry → SkillRegistry
perform limits (registers m) reg = left_by (register m reg) reg
perform limits (transitions s v new) reg = left_by (second_of (transition limits s v new reg)) reg
perform limits (evaluates e) reg = left_by (record_evaluation e reg) reg
perform limits (invalidates changed) reg = (invalidate (λ s v. s) changed reg).1
perform limits (disables s) reg = left_by (disable s reg) reg
perform limits (restores state) reg = restore state reg

unfoldable pub run : Thresholds → List Call → SkillRegistry → SkillRegistry
unfolding perform
run limits [] reg = reg
run limits (c ∷ cs) reg = run limits cs (perform limits c reg)

-- A registration of a manifest that is not active, or another call.
abbrev pub is_plain : Call → Bool
is_plain (registers m) = not (is_active m)
is_plain _ = true

-- A call that is no restore, or one of a snapshot whose versions are valid.
abbrev pub RestoresValid : Call → Type 0
RestoresValid (restores state) = IsValid state.versions
RestoresValid _ = Unit

left_by-IsValid :
    (out : Outcome SkillRegistry) (reg : SkillRegistry)
    → ((reg' : SkillRegistry) → out ≡ ok reg' → IsValid reg'.versions)
    → IsValid reg.versions
    → IsValid (left_by out reg).versions
left_by-IsValid (ok reg') reg h k = h reg' refl
left_by-IsValid (raise e) reg h k = k

register-IsValid :
    (m : SkillManifest) (reg : SkillRegistry)
    → is_active m ≡ false
    → IsValid reg.versions
    → IsValid (left_by (register m reg) reg).versions
unfolding register
register-IsValid m reg idle k = elim (Bool-cases (holds m.skill_id m.version reg.versions)) [
  | inl known ↦ rw known k
  | inr new ↦ rw new (
      put-IsValid m.skill_id m.version m reg.versions refl refl
        (λ act. absurd (ground (arith, idle, act))) k)
]

with_evaluation-eq-ok :
    (new : SkillLifecycle) (m x : SkillManifest) (reg : SkillRegistry)
    → with_evaluation new m reg ≡ ok x
    → (x.skill_id ≡ m.skill_id) × (x.version ≡ m.version)
unfolding with_evaluation
with_evaluation-eq-ok new m x reg e = elim (Bool-cases (same_lifecycle new evaluated)) [
  | inr other ↦
      let met : ok m ≡ ok x = ground (arith, e, other) in
      let same : m ≡ x =
        ap {A = Outcome SkillManifest} (λ o. elim o [ ok y ↦ y | raise z ↦ m ]) met in
      (ap (λ y. y.skill_id) (sym same), ap (λ y. y.version) (sym same))
  | inl asked ↦ elim (Option-cases (lookup m.fingerprint reg.evaluations)) [
    | inl missing ↦ absurd (ground (arith, e, asked, missing))
    | inr (v, found) ↦
        let met : ok (record m { evaluation_artifact_ids = v.artifact_id ∷ [] }) ≡ ok x =
          ground (arith, e, asked, found) in
        let same : record m { evaluation_artifact_ids = v.artifact_id ∷ [] } ≡ x =
          ap {A = Outcome SkillManifest}
            (λ o. elim o [
              | ok y ↦ y
              | raise z ↦ record m { evaluation_artifact_ids = v.artifact_id ∷ [] }
            ])
            met in
        (ap (λ y. y.skill_id) (sym same), ap (λ y. y.version) (sym same))
  ]
]

-- The checks of a transition keep the identity of the manifest.
check_transition-eq-ok :
    (limits : Thresholds) (new : SkillLifecycle) (m m' : SkillManifest) (reg : SkillRegistry)
    → check_transition limits new m reg ≡ ok m'
    → (m'.skill_id ≡ m.skill_id)
      × (m'.version ≡ m.version)
      × (is_promoted new ≡ true → qualifies limits m' reg ≡ true)
unfolding check_transition
check_transition-eq-ok limits new m m' reg e =
    elim (Bool-cases (not (is_final new) && not (is_forward m.lifecycle new))) [
      | inl stuck ↦ absurd (ground (arith, e, stuck))
      | inr goes ↦
          let (x, first, rest) =
            >>=-eq-ok (with_evaluation new m reg)
              (λ x.
                if is_promoted new && not (qualifies limits x reg) then raise value_error else ok x)
              (rw goes at e) in
          let same_x : x ≡ m' =
            let met : ok x ≡ ok m' = ground (arith, rest) in
            ap {A = Outcome SkillManifest} (λ o. elim o [ ok y ↦ y | raise z ↦ x ]) met in
          let fits : is_promoted new ≡ true → qualifies limits x reg ≡ true = λ p.
            elim (Bool-cases (qualifies limits x reg)) [
              | inl q ↦ q
              | inr q ↦ absurd (ground (arith, rest, p, q))
            ] in
          let (own_s, own_v) = with_evaluation-eq-ok new m x reg first in
          (
            ap (λ y. y.skill_id) (sym same_x) ∙ own_s,
            ap (λ y. y.version) (sym same_x) ∙ own_v,
            λ p. ap (λ y. qualifies limits y reg) (sym same_x) ∙ fits p,
          )
    ]

-- A transition that succeeds: it was there already, or it passed the checks and was entered.
pub transition-eq-ok :
    (limits : Thresholds) (s v : ℕ) (new : SkillLifecycle) (reg : SkillRegistry)
    (r : SkillManifest × SkillRegistry)
    → transition limits s v new reg ≡ ok r
    → (m : SkillManifest) × (fetch s v reg.versions ≡ some m)
      × ((same_lifecycle new m.lifecycle ≡ true) × ((m, reg) ≡ r)
          ⊎ (m' : SkillManifest) × (check_transition limits new m reg ≡ ok m')
            × (enter s v new m' reg ≡ r))
unfolding transition require_version get
transition-eq-ok limits s v new reg r e = elim (Option-cases (fetch s v reg.versions)) [
  | inl missing ↦ absurd (ground (arith, e, missing))
  | inr (m, found) ↦ elim (Bool-cases (same_lifecycle new m.lifecycle)) [
    | inl stays ↦
        let met : ok (m, reg) ≡ ok r = ground (arith, e, found, stays) in
        (
          m,
          found,
          inl (
            stays,
            ap {A = Outcome (SkillManifest × SkillRegistry)}
                (λ o. elim o [ ok y ↦ y | raise z ↦ (m, reg) ]) met,
          ),
        )
    | inr goes ↦
        let rest : (check_transition limits new m reg >>= λ m'. ok (enter s v new m' reg)) ≡ ok r =
          ground (arith, e, found, goes) in
        let (m', first, made) =
          >>=-eq-ok (check_transition limits new m reg) (λ x. ok (enter s v new x reg)) rest in
        (
          m,
          found,
          inr (
            m',
            first,
            ap {A = Outcome (SkillManifest × SkillRegistry)}
                (λ o. elim o [ ok y ↦ y | raise z ↦ enter s v new m' reg ]) made,
          ),
        )
  ]
]

transition-IsValid :
    (limits : Thresholds) (s v : ℕ) (new : SkillLifecycle) (reg : SkillRegistry)
    (r : SkillManifest × SkillRegistry)
    → transition limits s v new reg ≡ ok r
    → IsValid reg.versions
    → IsValid r.1.versions
transition-IsValid limits s v new reg r e k =
    let (m, found, ways) = transition-eq-ok limits s v new reg r e in
    elim ways [
      | inl (_, same) ↦ subst (λ (x : SkillManifest × SkillRegistry). IsValid x.1.versions) same k
      | inr (m', checked, made) ↦
          let (own_s, own_v, _) = check_transition-eq-ok limits new m m' reg checked in
          let (key_s, key_v) = k.keyed s v m found in
          subst (λ (x : SkillManifest × SkillRegistry). IsValid x.1.versions) made
            (enter-IsValid s v new m' reg (own_s ∙ key_s) (own_v ∙ key_v) k)
    ]

perform-IsValid :
    (limits : Thresholds) (c : Call) (reg : SkillRegistry)
    → is_plain c ≡ true
    → RestoresValid c
    → IsValid reg.versions
    → IsValid (perform limits c reg).versions
unfolding perform
perform-IsValid limits (registers m) reg plain r k =
    register-IsValid m reg (ground (arith, plain)) k
perform-IsValid limits (transitions s v new) reg plain r k =
    by_cases (transition limits s v new reg) refl
  where
    by_cases :
        (out : Outcome (SkillManifest × SkillRegistry))
        → transition limits s v new reg ≡ out
        → IsValid (left_by (second_of out) reg).versions
    by_cases (ok (m, reg')) e = transition-IsValid limits s v new reg (m, reg') e k
    by_cases (raise x) e = k
perform-IsValid limits (evaluates e) reg plain r k =
    left_by-IsValid (record_evaluation e reg) reg
      (λ reg' made.
        unfold record_evaluation in
        let same : reg.versions ≡ reg'.versions = ground (arith, made) in subst IsValid same k)
      k
perform-IsValid limits (invalidates changed) reg plain r k =
    unfold invalidate in map-IsValid (quarantine changed) reg.versions (quarantine-IsTame changed) k
perform-IsValid limits (disables s) reg plain r k =
    left_by-IsValid (disable s reg) reg
      (λ reg' made.
        unfold disable in
        let same : reg.versions ≡ reg'.versions = ground (arith, made) in subst IsValid same k)
      k
perform-IsValid limits (restores state) reg plain r k = unfold restore in r

run-IsValid_from :
    (limits : Thresholds) (cs : List Call) (reg : SkillRegistry)
    → all is_plain cs ≡ true
    → All RestoresValid cs
    → IsValid reg.versions
    → IsValid (run limits cs reg).versions
unfolding run
run-IsValid_from limits [] reg plain rs k = k
run-IsValid_from limits (c ∷ cs) reg plain rs k =
    run-IsValid_from limits cs (perform limits c reg) (ground (arith, plain)) rs.1
      (perform-IsValid limits c reg (ground (arith, plain)) rs.0 k)

-- After any calls of register, transition, record_evaluation, invalidate, disable and restore on a
-- new registry that register no active manifest and restore only snapshots of which the same holds,
-- every manifest stands under its skill and version, and at most one version of a skill is active
-- for a tenant.
pub versions-IsValid :
    (limits : Thresholds) (calls : List Call)
    → all is_plain calls ≡ true
    → All RestoresValid calls
    → IsValid (run limits calls new_registry).versions
unfolding new_registry
versions-IsValid limits calls plain rs =
    run-IsValid_from limits calls new_registry plain rs (record {
      keyed = λ s v m e. absurd (ground (arith, e));
      one_active = λ s v w a b e f g h i. absurd (ground (arith, e));
    })
