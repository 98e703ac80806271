-- ===== src/Scheduler/Kahn.antt =====
-- The loop of Kahn's algorithm: its invariant, and that it ends within its fuel.
use dynamic_neural_computing.Prelude.{
  ℕ, zero, suc, ◌-◌, ◌<◌, ◌==◌, ◌≡◌, refl, ◌∙◌, sym, ap, true, false, ◌||◌, some, List, [], ◌∷◌,
  ◌++◌, append_assoc, Dict, lookup, insert, mem, IsNodup, filter, if◌then◌else◌, arith, Bool-cases,
  ==_iff, append-nil, inl, inr, ℤ, pos, ok, lookup-insert,
}
use dynamic_neural_computing.Scheduler.{Graph, relax}
use dynamic_neural_computing.Scheduler.Degrees.{edge}

-- Each node of the list has all of its predecessors in `seen` or before it in the list.
abbrev pub IsOrdered : Graph → List ℕ → List ℕ → Type 0
IsOrdered g seen [] = Unit
IsOrdered g seen (v ∷ vs) =
    ((u : ℕ) → edge g u v ≡ true → mem u seen ≡ true) × IsOrdered g (v ∷ seen) vs

pub IsOrdered-snoc :
    (g : Graph) (seen xs : List ℕ) (n : ℕ)
    → IsOrdered g seen xs
    → ((u : ℕ) → edge g u n ≡ true → (mem u seen || mem u xs) ≡ true)
    → IsOrdered g seen (xs ++ n ∷ [])
IsOrdered-snoc g seen [] n h p = ((λ u e. ground (arith, p u e)), tt)
IsOrdered-snoc g seen (x ∷ xs) n h p =
    (h.0, IsOrdered-snoc g (x ∷ seen) xs n h.1 (λ u e. ground (arith, p u e)))

-- The in-degrees with one taken off that of each of `vs`, where they are `c`.
pub lower : (ℕ → ℕ) → List ℕ → Dict ℤ → Dict ℤ
lower c [] d = d
lower c (v ∷ vs) d = lower c vs (insert v (pos (c v - 1)) d)

pub lookup-lower :
    (c : ℕ → ℕ) (vs : List ℕ) (d : Dict ℤ) (n : ℕ)
    → lookup n (lower c vs d) ≡ (if mem n vs then some (pos (c n - 1)) else lookup n d)
unfolding lower
lookup-lower c [] d n = refl
lookup-lower c (v ∷ vs) d n = elim (Bool-cases (n == v)) [
  | inl e ↦
      let same : n ≡ v = (==_iff n v).0 e in
      ground (
        arith,
        lookup-lower c vs (insert v (pos (c v - 1)) d) n,
        lookup-insert n v (pos (c v - 1)) d,
        ap c same,
      )
  | inr e ↦
      ground (
        arith,
        lookup-lower c vs (insert v (pos (c v - 1)) d) n,
        lookup-insert n v (pos (c v - 1)) d,
      )
]

relax_step :
    (v : ℕ) (vs : List ℕ) (d : Dict ℤ) (queue : List ℕ) (k : ℕ)
    → lookup v d ≡ some (pos (suc k))
    → relax (v ∷ vs) d queue
      ≡ relax vs (insert v (pos k) d) (if k == 0 then queue ++ v ∷ [] else queue)
unfolding relax
relax_step v vs d queue zero e = rw e
relax_step v vs d queue (suc k) e = let z : (suc k == 0) ≡ false = ground arith in rw e (rw z refl)

-- The degrees of `vs` are `c`, and positive.
abbrev pub Counted : (ℕ → ℕ) → List ℕ → Dict ℤ → Type 0
Counted c vs d = (v : ℕ) → mem v vs ≡ true → (lookup v d ≡ some (pos (c v))) × (0 < c v)

Counted-tail :
    (c : ℕ → ℕ) (v : ℕ) (vs : List ℕ) (d : Dict ℤ) (k : ℤ)
    → mem v vs ≡ false
    → Counted c (v ∷ vs) d
    → Counted c vs (insert v k d)
Counted-tail c v vs d k out h w m = elim (Bool-cases (w == v)) [
  | inl e ↦ let same : w ≡ v = (==_iff w v).0 e in absurd (ground arith)
  | inr e ↦
      let (found, positive) = h w (ground arith) in
      (ground (arith, lookup-insert w v k d), positive)
]

queue_step :
    (queue vs : List ℕ) (v k : ℕ) (c : ℕ → ℕ)
    → c v ≡ suc k
    → (if k == 0 then queue ++ v ∷ [] else queue) ++ filter (λ w. c w == 1) vs
      ≡ queue ++ filter (λ w. c w == 1) (v ∷ vs)
queue_step queue vs v zero c e = rw e (append_assoc queue (v ∷ []) (filter (λ w. c w == 1) vs))
queue_step queue vs v (suc k) c e =
    let z : (suc k == 0) ≡ false = ground arith in
    let o : (c v == 1) ≡ false = ground arith in rw z (rw o refl)

-- The inner loop takes one off the in-degree of each neighbour, and queues those that reach zero.
pub relax_lem :
    (vs : List ℕ) (d : Dict ℤ) (queue : List ℕ) (c : ℕ → ℕ)
    → IsNodup vs
    → Counted c vs d
    → relax vs d queue ≡ ok (lower c vs d, queue ++ filter (λ v. c v == 1) vs)
unfolding lower
relax_lem [] d queue c nd h = unfold relax in ap (λ q. ok (d, q)) (sym (append-nil queue))
relax_lem (v ∷ vs) d queue c nd h =
    let (found, positive) = h v (ground arith) in
    let e : c v ≡ suc (c v - 1) = omega arith in
    relax_step v vs d queue (c v - 1) (found ∙ ap (λ k. some (pos k)) e)
    ∙ relax_lem vs (insert v (pos (c v - 1)) d) _ c nd.1 (Counted-tail c v vs d _ nd.0 h)
    ∙ ap (λ q. ok (lower c vs (insert v (pos (c v - 1)) d), q))
        (queue_step queue vs v (c v - 1) c e)
