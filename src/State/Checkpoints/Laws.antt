-- ===== src/State/Checkpoints/Laws.antt =====
-- INV-STATE-3 and what the record of checkpoints returns.
use mathlib.Core.List.{reverse-append}
use dynamic_neural_computing.Prelude.{
  ℕ, ◌≤◌, ◌<◌, ℤ, pos, negsuc, ◌≡◌, refl, ap, ◌∙◌, Bool, true, false, Option, none, some, List, [],
  ◌∷◌, ◌++◌, length, length-append, get_last?-append, Dict, lookup, all, not, ◌&&◌,
  invalid_checkpoint, Option-cases, ok, raise, arith, Bool-cases, inl, inr, if◌then◌else◌, ltb,
}
use dynamic_neural_computing.State.Checkpoints.{
  Checkpoint, CheckpointRecord, is_negative, same_step, check_components, validate, evict, add,
  latest, get, size, key_w, key_m, key_c, key_h,
}

same_step_refl : (a : ℤ) → same_step a a ≡ true
same_step_refl (pos n) = ground arith
same_step_refl (negsuc n) = ground arith

abbrev is_present {ℓ} : {S : Type ℓ} → Option (Option S) → Bool
is_present (some (some c)) = true
is_present _ = false

module _ {S : Type 0} where
  -- The snapshot is there, no component is missing or None, and the step is not negative.
  abbrev pub is_complete : Checkpoint S → Bool
  is_complete ck = elim ck.es_snapshot [
    | none ↦ false
    | some d ↦
        not (is_negative ck.step_index)
        && all (λ k. is_present (lookup k d)) (key_w ∷ key_m ∷ key_c ∷ key_h ∷ [])
  ]

  check_components-eq :
      (ks : List ℕ) (d : Dict (Option S))
      → check_components ks d
        ≡ (if all (λ k. is_present (lookup k d)) ks then ok tt else raise invalid_checkpoint)
  unfolding check_components
  check_components-eq [] d = refl
  check_components-eq (k ∷ ks) d = ground (arith, check_components-eq ks d)

  -- Validate accepts exactly the complete checkpoints, and only marks them.
  pub validate-eq :
      (ck : Checkpoint S)
      → validate ck
        ≡ (if is_complete ck then ok (record ck { is_valid = true }) else raise invalid_checkpoint)
  unfolding validate
  validate-eq ck = elim (Option-cases ck.es_snapshot) [
    | inl e ↦ ground arith
    | inr (d, e) ↦ ground (arith, check_components-eq (key_w ∷ key_m ∷ key_c ∷ key_h ∷ []) d)
  ]

  -- What is left of a list that ends in a new checkpoint ends in it too.
  evict-snoc :
      (bound : ℕ) (cs : List (Checkpoint S)) (ck : Checkpoint S)
      → 0 < bound
      → length cs ≤ bound
      → (kept : List (Checkpoint S)) × (evict bound (cs ++ ck ∷ []) ≡ kept ++ ck ∷ [])
        × (length kept < bound)
  unfolding evict
  evict-snoc bound [] ck positive within = ([], ground arith, positive)
  evict-snoc bound (c ∷ cs) ck positive within =
      elim (Bool-cases (ltb bound (length (c ∷ cs ++ ck ∷ [])))) [
        | inl full ↦ (cs, rw full refl, omega arith)
        | inr room ↦ (c ∷ cs, rw room refl, ground (arith, length-append cs (ck ∷ [])))
      ]

  -- A valid checkpoint is added to a record within its positive bound, the record stays within it,
  -- and the new checkpoint is both the latest and the one that is found for its step.
  pub add_lem :
      (ck : Checkpoint S) (r : CheckpointRecord S)
      → ck.is_valid ≡ true
      → 0 < r.max_checkpoints
      → size r ≤ r.max_checkpoints
      → (after : CheckpointRecord S) × (add ck r ≡ ok after)
        × (size after ≤ after.max_checkpoints)
        × (latest after ≡ some ck)
        × (get ck.step_index after ≡ some ck)
  unfolding add latest get size
  add_lem ck r valid positive within =
      let (kept, e, short) = evict-snoc r.max_checkpoints r.checkpoints ck positive within in
      (
        record r { checkpoints = kept ++ ck ∷ [] },
        ap
              (λ b.
                if not b
                then raise invalid_checkpoint
                else ok
                    (record r { checkpoints = evict r.max_checkpoints (r.checkpoints ++ ck ∷ []) }))
              valid
            ∙ ap (λ cs. ok (record r { checkpoints = cs })) e,
        omega (arith, length-append kept (ck ∷ [])),
        get_last?-append kept ck,
        rw (reverse-append kept (ck ∷ [])) (rw (same_step_refl ck.step_index) refl),
      )

  -- A checkpoint that was not validated is refused.
  pub add_invalid :
      (ck : Checkpoint S) (r : CheckpointRecord S)
      → ck.is_valid ≡ false
      → add ck r ≡ raise invalid_checkpoint
  unfolding add
  add_invalid ck r h = rw h refl
