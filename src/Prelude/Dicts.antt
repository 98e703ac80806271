-- ===== src/Prelude/Dicts.antt =====
-- A Python dict keyed by identifiers: an association list in insertion order.
use Prim.Native.Nat.{ℕ}
use mathlib.Core.Path.{◌≡◌, refl, sym, ap, ◌∙◌}
use mathlib.Core.Logic.{◌≢◌, ◌⊎◌, inl, inr}
use mathlib.Core.Bool.{Bool, true, false, not, ◌&&◌, ◌||◌}
use mathlib.Core.Option.{Option, none, some}
use mathlib.Core.List.{List, [], ◌∷◌, ◌++◌}
use native.Mathlib.Omega.{arith}
use dynamic_neural_computing.Prelude.Tests.{
  ◌==◌, if◌then◌else◌, is_some, Option-cases, Bool-cases, ==_iff,
}
use dynamic_neural_computing.Prelude.Members.{mem, IsNodup}

abbrev pub Dict {ℓ} : Type ℓ → Type ℓ
Dict V = List (ℕ × V)

module _ {ℓ} {V : Type ℓ} where
  -- `d.get(k)`
  abbrev pub lookup : ℕ → Dict V → Option V
  lookup k [] = none
  lookup k ((j, v) ∷ d) = if k == j then some v else lookup k d

  -- `k in d`
  abbrev pub contains : ℕ → Dict V → Bool
  contains k d = is_some (lookup k d)

  -- `d[k] = v`: a key that is there keeps its place, a new one comes last.
  abbrev pub insert : ℕ → V → Dict V → Dict V
  insert k v [] = (k, v) ∷ []
  insert k v ((j, w) ∷ d) = let rest = (j, w) ∷ insert k v d in if k == j then (k, v) ∷ d else rest

  -- `d.pop(k, None)`
  abbrev pub erase : ℕ → Dict V → Dict V
  erase k [] = []
  erase k ((j, w) ∷ d) = let rest = (j, w) ∷ erase k d in if k == j then d else rest

  abbrev pub keys : Dict V → List ℕ
  keys [] = []
  keys ((j, w) ∷ d) = j ∷ keys d

  abbrev pub values : Dict V → List V
  values [] = []
  values ((j, w) ∷ d) = w ∷ values d

module _ {ℓ} {V : Type ℓ} where
  pub lookup-insert :
      (j k : ℕ) (v : V) (d : Dict V)
      → lookup j (insert k v d) ≡ (if j == k then some v else lookup j d)
  lookup-insert j k v [] = refl
  lookup-insert j k v ((i, w) ∷ d) = ground (arith, lookup-insert j k v d)

  pub lookup-insert_self : (k : ℕ) (v : V) (d : Dict V) → lookup k (insert k v d) ≡ some v
  lookup-insert_self k v d = ground (arith, lookup-insert k k v d)

  pub lookup-insert_ne :
      (j k : ℕ) (v : V) (d : Dict V) → j ≢ k → lookup j (insert k v d) ≡ lookup j d
  lookup-insert_ne j k v d ne = ground (arith, lookup-insert j k v d)

  pub contains-eq-mem : (k : ℕ) (d : Dict V) → contains k d ≡ mem k (keys d)
  contains-eq-mem k [] = refl
  contains-eq-mem k ((j, w) ∷ d) = ground (arith, contains-eq-mem k d)

  pub lookup_of_mem : (k : ℕ) (d : Dict V) → mem k (keys d) ≡ true → (v : V) × (lookup k d ≡ some v)
  lookup_of_mem k d h = elim (Option-cases (lookup k d)) [
    | inl e ↦ absurd (ground (arith, contains-eq-mem k d))
    | inr found ↦ found
  ]

  -- Writing to a key that is there leaves the list of keys as it is.
  pub keys-insert_old :
      (k : ℕ) (v : V) (d : Dict V) → mem k (keys d) ≡ true → keys (insert k v d) ≡ keys d
  keys-insert_old k v [] h = ground arith
  keys-insert_old k v ((j, w) ∷ d) h = ground (arith, keys-insert_old k v d)

  pub keys-insert_new :
      (k : ℕ) (v : V) (d : Dict V) → mem k (keys d) ≡ false → keys (insert k v d) ≡ keys d ++ k ∷ []
  keys-insert_new k v [] h = refl
  keys-insert_new k v ((j, w) ∷ d) h = ground (arith, keys-insert_new k v d)

  pub lookup-erase_ne : (j k : ℕ) (d : Dict V) → j ≢ k → lookup j (erase k d) ≡ lookup j d
  lookup-erase_ne j k [] ne = refl
  lookup-erase_ne j k ((i, w) ∷ d) ne = ground (arith, lookup-erase_ne j k d ne)

  pub lookup-absent : (k : ℕ) (d : Dict V) → mem k (keys d) ≡ false → lookup k d ≡ none
  lookup-absent k [] h = refl
  lookup-absent k ((j, w) ∷ d) h = ground (arith, lookup-absent k d)

  pub lookup-erase_self : (k : ℕ) (d : Dict V) → IsNodup (keys d) → lookup k (erase k d) ≡ none
  lookup-erase_self k [] h = refl
  lookup-erase_self k ((j, w) ∷ d) h = ground (arith, lookup-erase_self k d h.1, lookup-absent k d)

  pub mem-erase : (j k : ℕ) (d : Dict V) → mem j (keys d) ≡ false → mem j (keys (erase k d)) ≡ false
  mem-erase j k [] h = refl
  mem-erase j k ((i, w) ∷ d) h = ground (arith, mem-erase j k d)

  pub IsNodup-erase : (k : ℕ) (d : Dict V) → IsNodup (keys d) → IsNodup (keys (erase k d))
  IsNodup-erase k [] h = h
  IsNodup-erase k ((j, w) ∷ d) h =
      ground (arith, IsNodup-erase k d h.1, mem-erase j k d h.0, h.0, h.1)

  pub lookup-erase :
      (j k : ℕ) (d : Dict V)
      → IsNodup (keys d)
      → lookup j (erase k d) ≡ (if j == k then none else lookup j d)
  lookup-erase j k [] h = ground arith
  lookup-erase j k ((i, w) ∷ d) h = ground (arith, lookup-erase j k d h.1, lookup-absent i d h.0)

  pub mem-keys-insert :
      (j k : ℕ) (v : V) (d : Dict V) → mem j (keys (insert k v d)) ≡ (j == k || mem j (keys d))
  mem-keys-insert j k v [] = refl
  mem-keys-insert j k v ((i, w) ∷ d) = ground (arith, mem-keys-insert j k v d)

  pub IsNodup-insert :
      (k : ℕ) (v : V) (d : Dict V) → IsNodup (keys d) → IsNodup (keys (insert k v d))
  IsNodup-insert k v [] h = ground arith
  IsNodup-insert k v ((i, w) ∷ d) h =
      ground (arith, IsNodup-insert k v d h.1, mem-keys-insert i k v d, h.0, h.1)

  pub mem-keys-erase :
      (j k : ℕ) (d : Dict V)
      → IsNodup (keys d)
      → mem j (keys (erase k d)) ≡ (not (j == k) && mem j (keys d))
  mem-keys-erase j k d h =
      sym (contains-eq-mem j (erase k d))
      ∙ ground (arith, lookup-erase j k d h, contains-eq-mem j d)

  -- What a dict holds after a write is what was written or was there before.
  pub insert_cases :
      (j k : ℕ) (v w : V) (d : Dict V)
      → lookup j (insert k v d) ≡ some w
      → (j ≡ k) × (v ≡ w) ⊎ (lookup j d ≡ some w)
  insert_cases j k v w d e = elim (Bool-cases (j == k)) [
    | inl t ↦
        let met : some v ≡ some w = ground (arith, lookup-insert j k v d) in
        inl ((==_iff j k).0 t, ap {A = Option V} (λ o. elim o [ none ↦ v | some x ↦ x ]) met)
    | inr f ↦ inr (ground (arith, lookup-insert j k v d))
  ]

  pub before_erase :
      (j k : ℕ) (w : V) (d : Dict V)
      → IsNodup (keys d)
      → lookup j (erase k d) ≡ some w
      → lookup j d ≡ some w
  before_erase j k w d h e = ground (arith, lookup-erase j k d h)

  -- A key that two dicts share stays shared when the first one is written there.
  pub contains-insert_shared {κ} :
      {U : Type κ} (k : ℕ) (v : V) (d : Dict V) (e : Dict U)
      → contains k e ≡ true
      → ((j : ℕ) → contains j d ≡ contains j e)
      → (j : ℕ) → contains j (insert k v d) ≡ contains j e
  contains-insert_shared k v d e there h j = elim (Bool-cases (j == k)) [
    | inl t ↦
        let same : j ≡ k = (==_iff j k).0 t in
        ground (arith, lookup-insert j k v d, ap (λ i. contains i e) same)
    | inr f ↦ ground (arith, lookup-insert j k v d, h j)
  ]
