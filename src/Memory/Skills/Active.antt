-- ===== src/Memory/Skills/Active.antt =====
-- At most one version of a skill is active for a tenant, as long as nothing is rolled back.
use dynamic_neural_computing.Prelude.{
  ℕ, ◌≡◌, sym, ap, ◌∙◌, Bool, true, Option, none, some, List, Table, fetch, put, map_values,
  fetch-map_values, put_cases, arith, Bool-cases, Option-cases, inl, inr,
}
use dynamic_neural_computing.Memory.Skills.{
  SkillLifecycle, active, same_lifecycle, SkillManifest, SkillRegistry, is_rival, demote,
  demote_rivals, enter, is_outdated, quarantine,
}

abbrev pub is_active : SkillManifest → Bool
is_active m = same_lifecycle m.lifecycle active

-- Manifests stand under their skill and version, and of two active versions of a skill of a tenant
-- none is another one.
pub record IsValid (d : Table SkillManifest) : Type 0 where
  pub keyed :
      (s v : ℕ) (m : SkillManifest) → fetch s v d ≡ some m → (m.skill_id ≡ s) × (m.version ≡ v)
  pub one_active :
      (s v w : ℕ) (a b : SkillManifest)
      → fetch s v d ≡ some a
      → fetch s w d ≡ some b
      → is_active a ≡ true
      → is_active b ≡ true
      → a.tenant_id ≡ b.tenant_id
      → v ≡ w

pub put-IsValid :
    (s v : ℕ) (m : SkillManifest) (d : Table SkillManifest)
    → m.skill_id ≡ s
    → m.version ≡ v
    → (is_active m ≡ true
        → (w : ℕ) (b : SkillManifest) → fetch s w d ≡ some b
        → is_active b ≡ true
        → m.tenant_id ≡ b.tenant_id
        → v ≡ w)
    → IsValid d
    → IsValid (put s v m d)
put-IsValid s v m d own_s own_v alone k = record {
  keyed = λ t x y e. elim (put_cases t x s v m y d e) [
    | inl (here, there, new) ↦ (
      ap (λ z. z.skill_id) (sym new) ∙ own_s ∙ sym here,
      ap (λ z. z.version) (sym new) ∙ own_v ∙ sym there,
    )
    | inr old ↦ k.keyed t x y old
  ];
  one_active = λ t x y a b e f act_a act_b same. elim (put_cases t x s v m a d e) [
    | inl (here, there, new) ↦ elim (put_cases t y s v m b d f) [
      | inl (_, there', _) ↦ there ∙ sym there'
      | inr old ↦
          there
          ∙ alone (ap is_active new ∙ act_a) y b (ap (λ z. fetch z y d) (sym here) ∙ old) act_b
              (ap (λ z. z.tenant_id) new ∙ same)
    ]
    | inr old ↦ elim (put_cases t y s v m b d f) [
      | inl (here, there, new) ↦ sym (
          there
          ∙ alone (ap is_active new ∙ act_b) x a (ap (λ z. fetch z x d) (sym here) ∙ old) act_a
              (ap (λ z. z.tenant_id) new ∙ sym same))
      | inr old' ↦ k.one_active t x y a b old old' act_a act_b same
    ]
  ];
}

-- What a replacement of values gives was made of a value that was there.
map_cases :
    (s v : ℕ) (f : SkillManifest → SkillManifest) (a : SkillManifest) (d : Table SkillManifest)
    → fetch s v (map_values f d) ≡ some a
    → (x : SkillManifest) × (fetch s v d ≡ some x) × (f x ≡ a)
map_cases s v f a d e = elim (Option-cases (fetch s v d)) [
  | inl missing ↦ absurd (ground (arith, e, missing, fetch-map_values s v f d))
  | inr (x, found) ↦
      let met : some (f x) ≡ some a = ground (arith, e, found, fetch-map_values s v f d) in
      (x, found, ap {A = Option SkillManifest} (λ o. elim o [ none ↦ f x | some y ↦ y ]) met)
]

-- A replacement that keeps the identity of a manifest and makes none active.
abbrev pub IsTame : (SkillManifest → SkillManifest) → Type 0
IsTame f =
    (m : SkillManifest)
    → ((f m).skill_id ≡ m.skill_id)
      × ((f m).version ≡ m.version)
      × ((f m).tenant_id ≡ m.tenant_id)
      × (is_active (f m) ≡ true → is_active m ≡ true)

pub map-IsValid :
    (f : SkillManifest → SkillManifest) (d : Table SkillManifest)
    → IsTame f
    → IsValid d
    → IsValid (map_values f d)
map-IsValid f d tame k = record {
  keyed = λ s v m e.
      let (x, found, made) = map_cases s v f m d e in
      let (same_s, same_v, _, _) = tame x in
      let (own_s, own_v) = k.keyed s v x found in
      (
        ap (λ z. z.skill_id) (sym made) ∙ same_s ∙ own_s,
        ap (λ z. z.version) (sym made) ∙ same_v ∙ own_v,
      );
  one_active = λ s v w a b e g act_a act_b same.
      let (x, found_x, made_a) = map_cases s v f a d e in
      let (y, found_y, made_b) = map_cases s w f b d g in
      let (_, _, tenant_x, active_x) = tame x in
      let (_, _, tenant_y, active_y) = tame y in
      k.one_active s v w x y found_x found_y (active_x (ap is_active made_a ∙ act_a))
        (active_y (ap is_active made_b ∙ act_b))
        (sym tenant_x
          ∙ ap (λ z. z.tenant_id) made_a
          ∙ same
          ∙ ap (λ z. z.tenant_id) (sym made_b)
          ∙ tenant_y);
}

pub demote-IsTame : (current : SkillManifest) → IsTame (demote current)
demote-IsTame current m = elim (Bool-cases (is_rival current m)) [
  | inl t ↦ (ground (arith, t), ground (arith, t), ground (arith, t), λ h. ground (arith, t, h))
  | inr f ↦ (ground (arith, f), ground (arith, f), ground (arith, f), λ h. ground (arith, f, h))
]

pub quarantine-IsTame : (changed : List ℕ) → IsTame (quarantine changed)
quarantine-IsTame changed m = elim (Bool-cases (is_outdated changed m)) [
  | inl t ↦ (ground (arith, t), ground (arith, t), ground (arith, t), λ h. ground (arith, t, h))
  | inr f ↦ (ground (arith, f), ground (arith, f), ground (arith, f), λ h. ground (arith, f, h))
]

-- Once its rivals are demoted, a version is the only active one.
demoted_alone :
    (s v w : ℕ) (current b : SkillManifest) (d : Table SkillManifest)
    → current.skill_id ≡ s
    → current.version ≡ v
    → IsValid d
    → fetch s w (map_values (demote current) d) ≡ some b
    → is_active b ≡ true
    → current.tenant_id ≡ b.tenant_id
    → v ≡ w
demoted_alone s v w current b d own_s own_v k e act same =
    let (x, found, made) = map_cases s w (demote current) b d e in
    let (x_s, x_v) = k.keyed s w x found in
    let (_, _, tenant_x, _) = demote-IsTame current x in
    elim (Bool-cases (is_rival current x)) [
      | inl t ↦ absurd (ground (arith, t, ap is_active made, act))
      | inr f ↦
          let tenant : x.tenant_id ≡ current.tenant_id =
            sym tenant_x ∙ ap (λ z. z.tenant_id) made ∙ sym same in
          let (_, _, _, active_x) = demote-IsTame current x in
          let act_x : is_active x ≡ true = active_x (ap is_active made ∙ act) in
          ground (arith, f, tenant, act_x, x_s, x_v, own_s, own_v)
    ]

pub enter-IsValid :
    (s v : ℕ) (new : SkillLifecycle) (current : SkillManifest) (reg : SkillRegistry)
    → current.skill_id ≡ s
    → current.version ≡ v
    → IsValid reg.versions
    → IsValid (enter s v new current reg).1.versions
unfolding enter demote_rivals
enter-IsValid s v new current reg own_s own_v k = elim (Bool-cases (same_lifecycle new active)) [
  | inl t ↦ rw t (
      put-IsValid s v (record current { lifecycle = new })
        (map_values (demote current) reg.versions) own_s own_v
        (λ _ w b e act same. demoted_alone s v w current b reg.versions own_s own_v k e act same)
        (map-IsValid (demote current) reg.versions (demote-IsTame current) k))
  | inr f ↦ rw f (
      put-IsValid s v (record current { lifecycle = new }) reg.versions own_s own_v
        (λ act. absurd (ground (arith, f, act))) k)
]
