-- ===== src/Prelude/Tables.antt =====
-- A Python dict keyed by pairs of identifiers, such as a tenant and a record.
use Prim.Native.Nat.{ℕ}
use mathlib.Core.Path.{◌≡◌, refl, ap}
use mathlib.Core.Logic.{◌⊎◌, inl, inr}
use mathlib.Core.Bool.{Bool, ◌&&◌}
use mathlib.Core.Option.{Option, none, some}
use mathlib.Core.List.{List, [], ◌∷◌}
use native.Mathlib.Omega.{arith}
use dynamic_neural_computing.Prelude.Tests.{◌==◌, if◌then◌else◌, is_some, Bool-cases}

abbrev pub Table {ℓ} : Type ℓ → Type ℓ
Table V = List ((ℕ × ℕ) × V)

module _ {ℓ} {V : Type ℓ} where
  -- `d.get((t, i))`
  abbrev pub fetch : ℕ → ℕ → Table V → Option V
  fetch t i [] = none
  fetch t i (((u, j), v) ∷ d) = if t == u && i == j then some v else fetch t i d

  -- `(t, i) in d`
  abbrev pub holds : ℕ → ℕ → Table V → Bool
  holds t i d = is_some (fetch t i d)

  -- `d[(t, i)] = v`
  abbrev pub put : ℕ → ℕ → V → Table V → Table V
  put t i v [] = ((t, i), v) ∷ []
  put t i v (((u, j), w) ∷ d) =
      let rest = ((u, j), w) ∷ put t i v d in if t == u && i == j then ((t, i), v) ∷ d else rest

  abbrev pub table_values : Table V → List V
  table_values [] = []
  table_values (((u, j), w) ∷ d) = w ∷ table_values d

  -- Every value is replaced, and the keys stay.
  abbrev pub map_values : (V → V) → Table V → Table V
  map_values f [] = []
  map_values f (((u, j), w) ∷ d) = ((u, j), f w) ∷ map_values f d

module _ {ℓ} {V : Type ℓ} where
  pub fetch-put :
      (t i u j : ℕ) (v : V) (d : Table V)
      → fetch t i (put u j v d) ≡ (if t == u && i == j then some v else fetch t i d)
  fetch-put t i u j v [] = refl
  fetch-put t i u j v (((a, b), w) ∷ d) = ground (arith, fetch-put t i u j v d)

  pub fetch-put_self : (t i : ℕ) (v : V) (d : Table V) → fetch t i (put t i v d) ≡ some v
  fetch-put_self t i v d = ground (arith, fetch-put t i t i v d)

  -- What a table holds after a write is what was written or was there before.
  pub put_cases :
      (t i u j : ℕ) (v w : V) (d : Table V)
      → fetch t i (put u j v d) ≡ some w
      → (t ≡ u) × (i ≡ j) × (v ≡ w) ⊎ (fetch t i d ≡ some w)
  put_cases t i u j v w d e = elim (Bool-cases (t == u && i == j)) [
    | inl s ↦
        let met : some v ≡ some w = ground (arith, fetch-put t i u j v d, s, e) in
        inl (
          ground (arith, s),
          ground (arith, s),
          ap {A = Option V} (λ o. elim o [ none ↦ v | some x ↦ x ]) met,
        )
    | inr f ↦ inr (ground (arith, fetch-put t i u j v d, f, e))
  ]

  pub fetch-map_values :
      (t i : ℕ) (f : V → V) (d : Table V)
      → fetch t i (map_values f d) ≡ elim (fetch t i d) [ none ↦ none | some v ↦ some (f v) ]
  fetch-map_values t i f [] = refl
  fetch-map_values t i f (((u, j), w) ∷ d) = ground (arith, fetch-map_values t i f d)
