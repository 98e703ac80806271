-- ===== src/Ir/Validator/Context.antt =====
-- `DNCIRValidator.validate_execution_context` of src/dnc/ir/validator.py: what a unit demands of the
-- context in which it runs. A trust zone that is given is not the empty string.
use dynamic_neural_computing.Prelude.{
  ℕ, ◌≡◌, refl, ap, subst, Bool, true, false, not, ◌==◌, ◌&&◌, Option, none, some, List, [], ◌∷◌,
  ◌++◌, Dict, lookup, mem, all, ltb, length, arith, Bool-cases, inl, inr, all_at, ◌⊎◌, ◌≤◌,
}
use dynamic_neural_computing.Ir.Enums.{isolation_rank}
use dynamic_neural_computing.Ir.Contracts.{ComputationalUnit, ExecutionContext, nonempty}
use dynamic_neural_computing.Ir.Graph.{StructuralGraph}
use dynamic_neural_computing.Ir.Errors.{
  ValidationError, ValidationResult, ErrorCode, about_unit, error_if, ctx_tenant_mismatch,
  ctx_permission_missing, ctx_isolation_insufficient, ctx_region_denied, ctx_device_denied,
  ctx_runtime_denied, ctx_capability_missing, ctx_trust_zone_denied, ctx_unit_trust_zone_mismatch,
  ctx_residency_denied, ctx_confidential_compute_required,
}

-- `xs <= ys` of sets
abbrev pub covered : List ℕ → List ℕ → Bool
covered xs ys = all (λ x. mem x ys) xs

-- `x in xs`, where `x` may be None
abbrev pub listed_in : Option ℕ → List ℕ → Bool
listed_in none xs = false
listed_in (some x) xs = mem x xs

-- `bool(xs) and x not in xs`
abbrev pub denied : Option ℕ → List ℕ → Bool
denied x xs = nonempty xs && not (listed_in x xs)

-- `a is not None and a != b`
abbrev pub differs : Option ℕ → ℕ → Bool
differs none b = false
differs (some a) b = not (a == b)

-- `bool(a) and b != a`
abbrev pub zone_differs : Option ℕ → Option ℕ → Bool
zone_differs none b = false
zone_differs (some a) none = true
zone_differs (some a) (some b) = not (b == a)

-- The body of the loop over the units.
pub context_errors : ExecutionContext → ℕ → ComputationalUnit → List ValidationError
context_errors context i u =
    let s = u.contract.security in
    let p = u.contract.placement in
    let about = about_unit i in
    error_if (differs s.tenant_id context.tenant_id) ctx_tenant_mismatch about
    ++ error_if (not (covered s.required_permissions context.permissions)) ctx_permission_missing
        about
    ++ error_if
        (ltb (isolation_rank context.isolation_grade)
          (isolation_rank u.contract.side_effects.minimum_isolation))
        ctx_isolation_insufficient about
    ++ error_if (denied context.region p.allowed_regions) ctx_region_denied about
    ++ error_if (denied context.device p.allowed_devices) ctx_device_denied about
    ++ error_if (denied context.runtime p.allowed_runtimes) ctx_runtime_denied about
    ++ error_if (not (covered p.required_capabilities context.capabilities)) ctx_capability_missing
        about
    ++ error_if (denied context.trust_zone s.accepted_trust_zones) ctx_trust_zone_denied about
    ++ error_if (zone_differs s.trust_zone context.trust_zone) ctx_unit_trust_zone_mismatch about
    ++ error_if (denied context.region s.allowed_residencies) ctx_residency_denied about
    ++ error_if (s.confidential_compute_required && not context.confidential_compute)
        ctx_confidential_compute_required about

pub all_context_errors : ExecutionContext → Dict ComputationalUnit → List ValidationError
unfolding context_errors
all_context_errors context [] = []
all_context_errors context ((i, u) ∷ units) =
    context_errors context i u ++ all_context_errors context units

unfoldable pub validate_execution_context : StructuralGraph → ExecutionContext → ValidationResult
unfolding all_context_errors
validate_execution_context g context =
    let errors = all_context_errors context g.units in
    record { is_valid = length errors == 0; errors = errors; warnings = [] }

-- Either any value will do, or there is one and it is among those listed.
abbrev pub IsAllowed : Option ℕ → List ℕ → Type 0
IsAllowed x xs = (xs ≡ []) ⊎ (a : ℕ) × (x ≡ some a) × (mem a xs ≡ true)

-- The context meets what the unit demands.
pub record Admits (context : ExecutionContext) (u : ComputationalUnit) : Type 0 where
  pub tenant : (a : ℕ) → u.contract.security.tenant_id ≡ some a → a ≡ context.tenant_id
  pub permitted :
      (a : ℕ)
      → mem a u.contract.security.required_permissions ≡ true
      → mem a context.permissions ≡ true
  pub isolated :
      isolation_rank u.contract.side_effects.minimum_isolation
      ≤ isolation_rank context.isolation_grade
  pub in_region : IsAllowed context.region u.contract.placement.allowed_regions
  pub on_device : IsAllowed context.device u.contract.placement.allowed_devices
  pub on_runtime : IsAllowed context.runtime u.contract.placement.allowed_runtimes
  pub capable :
      (a : ℕ)
      → mem a u.contract.placement.required_capabilities ≡ true
      → mem a context.capabilities ≡ true
  pub zone_accepted : IsAllowed context.trust_zone u.contract.security.accepted_trust_zones
  pub same_zone : (a : ℕ) → u.contract.security.trust_zone ≡ some a → context.trust_zone ≡ some a
  pub resident : IsAllowed context.region u.contract.security.allowed_residencies
  pub confidential :
      u.contract.security.confidential_compute_required ≡ true → context.confidential_compute ≡ true

denied-IsAllowed : (x : Option ℕ) (xs : List ℕ) → denied x xs ≡ false → IsAllowed x xs
denied-IsAllowed x [] h = inl refl
denied-IsAllowed none (y ∷ ys) h = absurd (ground (arith, h))
denied-IsAllowed (some a) (y ∷ ys) h = inr (a, refl, ground (arith, h))

differs-at : (o : Option ℕ) (b : ℕ) → differs o b ≡ false → (a : ℕ) → o ≡ some a → a ≡ b
differs-at o b h a e = ground (arith, rw e at h)

zone_differs-at : (o p : Option ℕ) → zone_differs o p ≡ false → (a : ℕ) → o ≡ some a → p ≡ some a
zone_differs-at none p h a e = absurd (ground (arith, e))
zone_differs-at (some x) none h a e = absurd (ground (arith, h))
zone_differs-at (some x) (some y) h a e = ground (arith, h, e)

covered-at :
    (xs ys : List ℕ) → not (covered xs ys) ≡ false → (a : ℕ) → mem a xs ≡ true → mem a ys ≡ true
covered-at xs ys h a m = all_at (λ x. mem x ys) xs a (ground (arith, h)) m

error_if-nil : (b : Bool) (c : ErrorCode) (i : ℕ) → error_if b c (about_unit i) ≡ [] → b ≡ false
error_if-nil b c i h = ground arith

append-nil_left : (xs ys : List ValidationError) → xs ++ ys ≡ [] → (xs ≡ []) × (ys ≡ [])
append-nil_left [] ys h = (refl, h)
append-nil_left (x ∷ xs) ys h = absurd (ground (arith, h))

context_errors-Admits :
    (context : ExecutionContext) (i : ℕ) (u : ComputationalUnit)
    → context_errors context i u ≡ []
    → Admits context u
unfolding context_errors
context_errors-Admits context i u h =
    let (h10, k) = append-nil_left _ _ h in
    let (h9, j) = append-nil_left _ _ h10 in
    let (h8, r) = append-nil_left _ _ h9 in
    let (h7, q) = append-nil_left _ _ h8 in
    let (h6, p) = append-nil_left _ _ h7 in
    let (h5, f) = append-nil_left _ _ h6 in
    let (h4, e) = append-nil_left _ _ h5 in
    let (h3, d) = append-nil_left _ _ h4 in
    let (h2, c) = append-nil_left _ _ h3 in
    let (a, b) = append-nil_left _ _ h2 in
    record {
      tenant = differs-at _ _ (error_if-nil _ _ i a);
      permitted = covered-at _ _ (error_if-nil _ _ i b);
      isolated = not_less _ _ (error_if-nil _ _ i c);
      in_region = denied-IsAllowed _ _ (error_if-nil _ _ i d);
      on_device = denied-IsAllowed _ _ (error_if-nil _ _ i e);
      on_runtime = denied-IsAllowed _ _ (error_if-nil _ _ i f);
      capable = covered-at _ _ (error_if-nil _ _ i p);
      zone_accepted = denied-IsAllowed _ _ (error_if-nil _ _ i q);
      same_zone = zone_differs-at _ _ (error_if-nil _ _ i r);
      resident = denied-IsAllowed _ _ (error_if-nil _ _ i j);
      confidential = implied _ _ (error_if-nil _ _ i k);
    }
  where
    not_less : (x y : ℕ) → ltb x y ≡ false → y ≤ x
    not_less x y e = ground (arith, e)

    implied : (b d : Bool) → (b && not d) ≡ false → b ≡ true → d ≡ true
    implied b d e t = ground (arith, e, t)

all_context_errors-Admits :
    (context : ExecutionContext) (units : Dict ComputationalUnit) (i : ℕ) (u : ComputationalUnit)
    → all_context_errors context units ≡ []
    → lookup i units ≡ some u
    → Admits context u
unfolding all_context_errors
all_context_errors-Admits context [] i u h found = absurd (ground (arith, found))
all_context_errors-Admits context ((j, w) ∷ units) i u h found =
    let (first, rest) =
      append-nil_left (context_errors context j w) (all_context_errors context units) h in
    elim (Bool-cases (i == j)) [
      | inl e ↦
          let met : some w ≡ some u = ground (arith, found, e) in
          let same : w ≡ u = ap (λ o. elim o [ none ↦ w | some y ↦ y ]) met in
          subst (Admits context) same (context_errors-Admits context j w first)
      | inr e ↦ all_context_errors-Admits context units i u rest (ground (arith, found, e))
    ]

-- A context that validates meets the demands of every unit of the graph: its tenant and its trust
-- zone are those of the unit, if it has them, its permissions and capabilities include those
-- required and its isolation is as high, its region, device, runtime and trust zone are among those
-- listed where any are, and it computes confidentially if the unit asks for that.
pub validate_execution_context-Admits :
    (g : StructuralGraph) (context : ExecutionContext) (i : ℕ) (u : ComputationalUnit)
    → (validate_execution_context g context).is_valid ≡ true
    → lookup i g.units ≡ some u
    → Admits context u
unfolding validate_execution_context
validate_execution_context-Admits g context i u h found =
    all_context_errors-Admits context g.units i u
      (length-nil (all_context_errors context g.units) h) found
  where
    length-nil : (xs : List ValidationError) → (length xs == 0) ≡ true → xs ≡ []
    length-nil [] e = refl
    length-nil (x ∷ xs) e = absurd (ground (arith, e))
