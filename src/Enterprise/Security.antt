-- ===== src/Enterprise/Security.antt =====
-- `EnterpriseAuthorizer` and `KillSwitches` of src/dnc/enterprise/security.py. The attributes of an
-- identity are a dict of numbers; the role `approver` is a parameter.
use dynamic_neural_computing.Prelude.{
  ℕ, ◌≡◌, ◌≤◌, ◌<◌, ◌≢◌, ◌↔◌, refl, sym, ap, subst, ◌∙◌, ==_iff, Option-cases, All, Bool, true,
  false, not, ◌==◌, ◌&&◌, ◌||◌, Option, none, some, List, [], ◌∷◌, ◌++◌, mem, all, any, ltb, leb,
  Dict, lookup, arith, Bool-cases, inl, inr, all_at, all_of_mem,
}

pub record WorkloadIdentity : Type 0 where
  pub subject : ℕ
  pub tenant_id : ℕ
  pub roles : List ℕ
  pub attributes : Dict ℕ
  pub issued_at_ns : ℕ
  pub expires_at_ns : ℕ
  pub credential_ref : ℕ

pub valid_at : ℕ → WorkloadIdentity → Bool
valid_at now identity = leb identity.issued_at_ns now && ltb now identity.expires_at_ns

pub record AuthorizationRequest : Type 0 where
  pub tenant_id : ℕ
  pub action : ℕ
  pub resource : ℕ
  pub required_roles : List ℕ
  pub required_attributes : Dict ℕ
  pub high_impact : Bool

pub record Approval : Type 0 where
  pub approval_id : ℕ
  pub tenant_id : ℕ
  pub action : ℕ
  pub resource : ℕ
  pub approver_subject : ℕ
  pub expires_at_ns : ℕ
  pub approver_roles : List ℕ

pub data Reason : Type 0 where
  identity_expired tenant_mismatch role_missing attribute_mismatch : Reason
  independent_approval_required : Reason

-- `identity.attributes.get(key) != value`
abbrev pub differs : Dict ℕ → ℕ × ℕ → Bool
differs attributes (k, v) = elim (lookup k attributes) [ none ↦ true | some w ↦ not (w == v) ]

-- The condition on the approval of a request with high impact.
pub approved_by :
    (approver now : ℕ) → WorkloadIdentity → AuthorizationRequest → Option Approval → Bool
approved_by approver now identity request none = false
approved_by approver now identity request (some approval) =
    approval.tenant_id == request.tenant_id
    && approval.action == request.action
    && approval.resource == request.resource
    && not (approval.approver_subject == identity.subject)
    && mem approver approval.approver_roles
    && ltb now approval.expires_at_ns

abbrev pub reason_if : Bool → Reason → List Reason
reason_if true reason = reason ∷ []
reason_if false reason = []

pub reasons :
    (approver now : ℕ) → WorkloadIdentity → AuthorizationRequest → Option Approval → List Reason
unfolding valid_at approved_by
reasons approver now identity request approval =
    reason_if (not (valid_at now identity)) identity_expired
    ++ (reason_if (not (identity.tenant_id == request.tenant_id)) tenant_mismatch
        ++ (reason_if (not (all (λ role. mem role identity.roles) request.required_roles))
              role_missing
            ++ (reason_if (any (differs identity.attributes) request.required_attributes)
                  attribute_mismatch
                ++ reason_if
                    (request.high_impact
                      && not (approved_by approver now identity request approval))
                    independent_approval_required)))

abbrev pub is_empty {ℓ} : {A : Type ℓ} → List A → Bool
is_empty [] = true
is_empty (x ∷ xs) = false

pub authorize :
    (approver now : ℕ)
    → WorkloadIdentity
    → AuthorizationRequest
    → Option Approval
    → Bool × List Reason
unfolding reasons
authorize approver now identity request approval =
    let found : List Reason = reasons approver now identity request approval in
    (is_empty found, found)

pub record KillSwitches : Type 0 where
  pub global_disabled : Bool
  pub tenants : List ℕ
  pub capabilities : List ℕ
  pub models : List ℕ
  pub skills : List ℕ
  pub actions : List ℕ

pub permitted : (tenant_id capability_id model_id skill_id action_type : ℕ) → KillSwitches → Bool
permitted tenant_id capability_id model_id skill_id action_type k = not (
    k.global_disabled
    || mem tenant_id k.tenants
    || mem capability_id k.capabilities
    || mem model_id k.models
    || mem skill_id k.skills
    || mem action_type k.actions)

-- Snapshots are copies, and sets are values.
pub snapshot : KillSwitches → KillSwitches
snapshot k = k

pub restore : KillSwitches → KillSwitches → KillSwitches
restore state k = state

-- An approval of this request by another subject who may approve, in time.
abbrev pub IsIndependent :
    (approver now : ℕ) → WorkloadIdentity → AuthorizationRequest → Approval → Type 0
IsIndependent approver now identity request approval =
    (approval.tenant_id ≡ request.tenant_id)
    × (approval.action ≡ request.action)
    × (approval.resource ≡ request.resource)
    × (approval.approver_subject ≢ identity.subject)
    × (mem approver approval.approver_roles ≡ true)
    × (now < approval.expires_at_ns)

-- What an authorized request has.
pub record IsAuthorized (approver now : ℕ) (identity : WorkloadIdentity)
    (request : AuthorizationRequest) (approval : Option Approval) : Type 0 where
  pub issued : identity.issued_at_ns ≤ now
  pub current : now < identity.expires_at_ns
  pub same_tenant : identity.tenant_id ≡ request.tenant_id
  pub roles_held :
      (role : ℕ) → mem role request.required_roles ≡ true → mem role identity.roles ≡ true
  pub attributes_held :
      All
        (λ (entry : ℕ × ℕ). lookup entry.0 identity.attributes ≡ some entry.1)
        request.required_attributes
  pub approved :
      request.high_impact ≡ true
      → (a : Approval) × (approval ≡ some a) × IsIndependent approver now identity request a

held_attributes :
    (held required : Dict ℕ)
    → any (differs held) required ≡ false
    → All (λ (entry : ℕ × ℕ). lookup entry.0 held ≡ some entry.1) required
held_attributes held [] h = tt
held_attributes held ((k, v) ∷ d) h = elim (Option-cases (lookup k held)) [
  | inl missing ↦ absurd (ground (arith, h, missing))
  | inr (w, found) ↦
      let same : (w == v) ≡ true = ground (arith, h, found) in
      (found ∙ ap some ((==_iff w v).0 same), held_attributes held d (ground (arith, h)))
]

no_difference :
    (held required : Dict ℕ)
    → All (λ (entry : ℕ × ℕ). lookup entry.0 held ≡ some entry.1) required
    → any (differs held) required ≡ false
no_difference held [] h = refl
no_difference held ((k, v) ∷ d) h = ground (arith, h.0, no_difference held d h.1)

approved_by_iff :
    (approver now : ℕ) (identity : WorkloadIdentity) (request : AuthorizationRequest)
    (approval : Option Approval)
    → (approved_by approver now identity request approval ≡ true)
      ↔ ((a : Approval) × (approval ≡ some a) × IsIndependent approver now identity request a)
unfolding approved_by
approved_by_iff approver now identity request none =
    (λ h. absurd (ground (arith, h)), λ (a, e, _). absurd (ground (arith, e)))
approved_by_iff approver now identity request (some a) = (
  λ h. (
    a,
    refl,
    (
      ground (arith, h),
      ground (arith, h),
      ground (arith, h),
      λ e. ground (arith, h, e),
      ground (arith, h),
      ground (arith, h),
    ),
  ),
  λ (b, e, independent).
      let same : a ≡ b = ap {A = Option Approval} (λ o. elim o [ none ↦ a | some y ↦ y ]) e in
      let (tenant, action, resource, other, role, time) =
        subst (IsIndependent approver now identity request) (sym same) independent in
      ground (arith, tenant, action, resource, other, role, time),
)

-- A request is authorized exactly where the identity is issued and not expired, is of the tenant,
-- holds every required role and attribute, and, for a request with high impact, an approval of that
-- request by another subject with the role of an approver has not expired.
pub authorize_iff :
    (approver now : ℕ) (identity : WorkloadIdentity) (request : AuthorizationRequest)
    (approval : Option Approval)
    → ((authorize approver now identity request approval).0 ≡ true)
      ↔ IsAuthorized approver now identity request approval
unfolding authorize reasons
authorize_iff approver now identity request approval = (
  λ h.
      let valid : valid_at now identity ≡ true = ground (arith, h) in
      let roles : all (λ role. mem role identity.roles) request.required_roles ≡ true =
        ground (arith, h) in
      let attributes : any (differs identity.attributes) request.required_attributes ≡ false =
        ground (arith, h) in
      record {
        issued = unfold valid_at in ground (arith, valid);
        current = unfold valid_at in ground (arith, valid);
        same_tenant = ground (arith, h);
        roles_held =
            λ role m. all_at (λ x. mem x identity.roles) request.required_roles role roles m;
        attributes_held =
            held_attributes identity.attributes request.required_attributes attributes;
        approved = λ high.
            (approved_by_iff approver now identity request approval).0 (ground (arith, h, high));
      },
  λ r.
      let valid : valid_at now identity ≡ true =
        unfold valid_at in ground (arith, r.issued, r.current) in
      let roles : all (λ role. mem role identity.roles) request.required_roles ≡ true =
        all_of_mem (λ x. mem x identity.roles) request.required_roles r.roles_held in
      let attributes : any (differs identity.attributes) request.required_attributes ≡ false =
        no_difference identity.attributes request.required_attributes r.attributes_held in
      let approved : (request.high_impact
            && not (approved_by approver now identity request approval))
          ≡ false =
        elim (Bool-cases request.high_impact) [
          | inl high ↦ ground (
            arith,
            high,
            (approved_by_iff approver now identity request approval).1 (r.approved high),
          )
          | inr low ↦ ground (arith, low)
        ] in
      ground (arith, valid, roles, attributes, approved, r.same_tenant),
)
