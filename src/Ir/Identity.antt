-- ===== src/Ir/Identity.antt =====
-- `GraphVersion` and `IdentityRegistry` of src/dnc/ir/identity.py. Identifiers are strings that are
-- only compared, and here numbers; the sets of the registry are lists.
pub mod Permanence
use dynamic_neural_computing.Prelude.{
  ℕ, suc, ◌==◌, Bool, true, false, not, ◌&&◌, List, [], ◌∷◌, mem, filter, Outcome, ok, raise,
  value_error, if◌then◌else◌,
}

pub record GraphVersion : Type 0 where
  pub major : ℕ
  pub minor : ℕ
  pub patch : ℕ
  pub sequence : ℕ

unfoldable pub next_sequence : GraphVersion → GraphVersion
next_sequence v = record v { sequence = suc v.sequence }

-- The `==` of the dataclass.
abbrev pub same_version : GraphVersion → GraphVersion → Bool
same_version v w =
    v.major == w.major && v.minor == w.minor && v.patch == w.patch && v.sequence == w.sequence

pub record IdentityRegistry : Type 0 where
  pub active_units : List ℕ
  pub retired_units : List ℕ

pub register_unit : ℕ → IdentityRegistry → Outcome IdentityRegistry
register_unit u r =
    if mem u r.retired_units
    then raise value_error
    else if mem u r.active_units
    then raise value_error
    else ok (record r { active_units = u ∷ r.active_units })

pub retire_unit : ℕ → IdentityRegistry → IdentityRegistry
retire_unit u r =
    if mem u r.active_units
    then record r {
      active_units = filter (λ v. not (v == u)) r.active_units;
      retired_units = u ∷ r.retired_units;
    }
    else r

pub is_active : ℕ → IdentityRegistry → Bool
is_active u r = mem u r.active_units

pub is_retired : ℕ → IdentityRegistry → Bool
is_retired u r = mem u r.retired_units
