-- ===== src/Ir/Identity/Permanence.antt =====
-- Retired identities are never used again.
use dynamic_neural_computing.Prelude.{
  ℕ, ◌==◌, ◌≡◌, refl, ◌∙◌, ap, true, false, not, mem, mem-filter, ok, raise, value_error, arith,
  Bool-cases, inl, inr, ==_iff,
}
use dynamic_neural_computing.Ir.Identity.{
  IdentityRegistry, register_unit, retire_unit, is_active, is_retired,
}

-- A call that succeeds.
pub data Step (r : IdentityRegistry) : IdentityRegistry → Type 0 where
  register : {s : IdentityRegistry} (u : ℕ) → register_unit u r ≡ ok s → Step r s
  retire : (u : ℕ) → Step r (retire_unit u r)

pub data Reach (r : IdentityRegistry) : IdentityRegistry → Type 0 where
  here : Reach r r
  next : {s t : IdentityRegistry} → Reach r s → Step s t → Reach r t

register_unit-is_retired :
    (u v : ℕ) (r s : IdentityRegistry) → register_unit u r ≡ ok s → is_retired v s ≡ is_retired v r
unfolding register_unit is_retired
register_unit-is_retired u v r s e = ground arith

retire_unit-is_retired :
    (u v : ℕ) (r : IdentityRegistry) → is_retired v r ≡ true → is_retired v (retire_unit u r) ≡ true
unfolding retire_unit is_retired
retire_unit-is_retired u v r h = ground arith

-- Whatever calls follow, a retired unit stays retired and cannot be registered.
pub Reach-is_retired :
    {r s : IdentityRegistry} (v : ℕ) → is_retired v r ≡ true → Reach r s → is_retired v s ≡ true
Reach-is_retired v h here = h
Reach-is_retired v h (next {s = s} {t = t} way (register u e)) =
    register_unit-is_retired u v s t e ∙ Reach-is_retired v h way
Reach-is_retired v h (next {s = s} way (retire u)) =
    retire_unit-is_retired u v s (Reach-is_retired v h way)

-- Whatever calls follow, a retired unit cannot be registered in the identity registry.
pub register_unit_refused :
    {r s : IdentityRegistry} (v : ℕ)
    → is_retired v r ≡ true
    → Reach r s
    → register_unit v s ≡ raise value_error
unfolding register_unit is_retired
register_unit_refused v h way = rw (Reach-is_retired v h way) refl

-- No unit is active and retired at once.
unfoldable pub IsSeparate : IdentityRegistry → Type 0
IsSeparate r = (v : ℕ) → is_active v r ≡ true → is_retired v r ≡ false

Step-IsSeparate : {r s : IdentityRegistry} → Step r s → IsSeparate r → IsSeparate s
unfolding IsSeparate is_active is_retired register_unit retire_unit
Step-IsSeparate {r} {s} (register u e) h v m = elim (Bool-cases (v == u)) [
  | inl same ↦
      let named : v ≡ u = (==_iff v u).0 same in
      ground (arith, ap (λ w. mem w r.retired_units) named)
  | inr other ↦ ground (arith, h v)
]
Step-IsSeparate {r} (retire u) h v m =
    ground (arith, h v, mem-filter (λ w. not (w == u)) v r.active_units)

-- From a registry in which no unit is active and retired at once, any calls lead to such a
-- registry.
pub Reach-IsSeparate : {r s : IdentityRegistry} → IsSeparate r → Reach r s → IsSeparate s
Reach-IsSeparate h here = h
Reach-IsSeparate h (next way step) = Step-IsSeparate step (Reach-IsSeparate h way)
