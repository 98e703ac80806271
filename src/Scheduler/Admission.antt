-- ===== src/Scheduler/Admission.antt =====
-- Which graphs `set_graph` accepts: those whose edges join known nodes and go round no cycle.
use dynamic_neural_computing.Prelude.{
  ℕ, suc, ◌<◌, ◌==◌, ◌≡◌, refl, ◌∙◌, sym, ap, ◌⊎◌, ◌↔◌, Bool, true, ◌||◌, List, [], ◌∷◌, mem, keys,
  if◌then◌else◌, arith, Bool-cases, inl, inr, ok, raise, dag_cycle, contains-eq-mem,
}
use dynamic_neural_computing.Scheduler.{
  Graph, Scheduler, add_edge, add_edges, link, finish_graph, check_cycle, set_graph, has_cycle,
  compute_order,
}
use dynamic_neural_computing.Scheduler.Degrees.{edge}
use dynamic_neural_computing.Scheduler.Building.{IsValid}
use dynamic_neural_computing.Scheduler.Loading.{
  Built, add_edge-Built, add_edges-Built, listed, unlinked, unlinked-IsValid, mem-keys-unlinked,
  succs-unlinked,
}
use dynamic_neural_computing.Scheduler.Kahn.{IsOrdered}
use dynamic_neural_computing.Scheduler.Order.{
  IsTopological, compute_order-IsTopological, compute_order_of_rank, has_cycle_agrees,
}

-- The place of a node in a list.
pub index_of : ℕ → List ℕ → ℕ
index_of u [] = 0
index_of u (x ∷ xs) = if u == x then 0 else suc (index_of u xs)

index_of-lt :
    (g : Graph) (seen xs : List ℕ) (u v : ℕ)
    → IsOrdered g seen xs
    → edge g u v ≡ true
    → mem v xs ≡ true
    → (mem u seen ≡ true) ⊎ (index_of u xs < index_of v xs)
unfolding index_of
index_of-lt g seen [] u v h e m = absurd (ground arith)
index_of-lt g seen (x ∷ xs) u v h e m = ground (arith, h.0 u, index_of-lt g (x ∷ seen) xs u v h.1)

-- The nodes can be ranked so that every edge goes up: there is no cycle.
abbrev pub Ranks : Graph → (ℕ → ℕ) → Type 0
Ranks g rank = (u v : ℕ) → edge g u v ≡ true → rank u < rank v

pub Ranks-index_of :
    (g : Graph) (order : List ℕ) (u v : ℕ)
    → IsTopological g order
    → edge g u v ≡ true
    → mem v (keys g) ≡ true
    → index_of u order < index_of v order
Ranks-index_of g order u v topo e m =
    elim (index_of-lt g [] order u v topo.ordered e (topo.same_nodes v ∙ m)) [
      | inl h ↦ absurd (ground arith)
      | inr h ↦ h
    ]

-- A path of one edge or more, along the edges for which `e` is true.
pub data Walk (e : ℕ → ℕ → Bool) (u : ℕ) : ℕ → Type 0 where
  step : {v : ℕ} → e u v ≡ true → Walk e u v
  more : {v w : ℕ} → Walk e u v → e v w ≡ true → Walk e u w

Walk-lt : (g : Graph) (rank : ℕ → ℕ) {u v : ℕ} → Ranks g rank → Walk (edge g) u v → rank u < rank v
Walk-lt g rank r (step e) = r _ _ e
Walk-lt g rank r (more {v = v} {w = w} p e) = omega (arith, Walk-lt g rank r p, r v w e)

Walk-map :
    (e f : ℕ → ℕ → Bool) {u v : ℕ}
    → ((u v : ℕ) → e u v ≡ true → f u v ≡ true)
    → Walk e u v
    → Walk f u v
Walk-map e f h (step p) = step (h _ _ p)
Walk-map e f h (more w p) = more (Walk-map e f h w) (h _ _ p)

module _ (s : Scheduler) (valid : IsValid s) where
  -- A valid scheduler has a dispatch order exactly where the nodes can be ranked so that every edge
  -- goes up.
  pub compute_order_iff :
      ((order : List ℕ) × (compute_order s ≡ ok order)) ↔ ((rank : ℕ → ℕ) × Ranks s.graph rank)
  compute_order_iff = (
    (λ (order, e).
        let topo = compute_order-IsTopological s valid order e in
        (
          (λ n. index_of n order),
          λ u v h. Ranks-index_of s.graph order u v topo h (valid.closed u v h),
        )),
    (λ (rank, r). (compute_order_of_rank s valid rank r).1),
  )

  -- On a valid scheduler whose graph has a closed walk _has_cycle returns True.
  pub has_cycle-Walk : (u : ℕ) → Walk (edge s.graph) u u → has_cycle s ≡ ok true
  has_cycle-Walk u w = elim (has_cycle_agrees s valid) [
    | inl (yes_cycle, _) ↦ yes_cycle
    | inr (_, (order, e)) ↦
        let (rank, r) = compute_order_iff.0 (order, e) in
        absurd (omega (arith, Walk-lt s.graph rank r w))
  ]

-- Every end of an edge is in `nodes`.
abbrev pub Known : List ℕ → List (ℕ × ℕ) → Type 0
Known nodes [] = Unit
Known nodes ((u, v) ∷ es) = (mem u nodes ≡ true) × (mem v nodes ≡ true) × Known nodes es

add_edge_total :
    (u v : ℕ) (s : Scheduler)
    → mem u (keys s.graph) ≡ true
    → mem v (keys s.graph) ≡ true
    → (after : Scheduler) × (add_edge u v s ≡ ok after)
unfolding add_edge
add_edge_total u v s hu hv = elim (Bool-cases (edge s.graph u v)) [
  | inl old ↦ (s, ground (arith, contains-eq-mem u s.graph, contains-eq-mem v s.graph))
  | inr new ↦ (link u v s, ground (arith, contains-eq-mem u s.graph, contains-eq-mem v s.graph))
]

-- Between nodes that are there every edge is accepted.
add_edges_total :
    (nodes : List ℕ) (es : List (ℕ × ℕ)) (s : Scheduler)
    → IsValid s
    → ((n : ℕ) → mem n (keys s.graph) ≡ mem n nodes)
    → Known nodes es
    → (after : Scheduler) × (add_edges es s ≡ (ok tt, after))
unfolding add_edges
add_edges_total nodes [] s valid same known = (s, refl)
add_edges_total nodes ((u, v) ∷ es) s valid same known =
    let (middle, added) = add_edge_total u v s (same u ∙ known.0) (same v ∙ known.1) in
    let built = add_edge-Built u v s middle valid added in
    let (after, rest) =
      add_edges_total nodes es middle built.valid (λ n. ap (mem n) built.nodes ∙ same n) known.2 in
    (after, rw (added, add_edges) rest)

-- The loaded scheduler, before the test for a cycle.
module _ (nodes : List ℕ) (edges : List (ℕ × ℕ)) (s : Scheduler) (known : Known nodes edges) where
  loaded : (after : Scheduler) × (add_edges edges (unlinked nodes s) ≡ (ok tt, after))
  loaded =
      add_edges_total nodes edges (unlinked nodes s) (unlinked-IsValid nodes s)
        (mem-keys-unlinked nodes) known

  loaded-Built : Built (unlinked nodes s) edges loaded.0
  loaded-Built =
      add_edges-Built edges (unlinked nodes s) loaded.0 (unlinked-IsValid nodes s) loaded.1

  edge-loaded : (u v : ℕ) → edge loaded.0.graph u v ≡ listed u v edges
  edge-loaded u v =
      loaded-Built.edges u v ∙ ap (λ b. b || listed u v edges) (ap (mem v) (succs-unlinked nodes u))

  -- Edges between known nodes that can be ranked are accepted by set_graph.
  pub set_graph_accepts :
      (rank : ℕ → ℕ)
      → ((u v : ℕ) → listed u v edges ≡ true → rank u < rank v)
      → (after : Scheduler) × (set_graph nodes edges s ≡ (ok tt, after))
  unfolding set_graph finish_graph check_cycle
  set_graph_accepts rank ranked =
      let (clear, _) =
        compute_order_of_rank loaded.0 loaded-Built.valid rank
          λ u v e. ranked u v (sym (edge-loaded u v) ∙ e) in
      (loaded.0, rw loaded.1 (rw clear refl))

  -- Edges between known nodes that close a walk are refused by set_graph with DAGCycle, and the
  -- graph is dropped.
  pub set_graph_refuses :
      (u : ℕ)
      → Walk (λ u v. listed u v edges) u u
      → ((set_graph nodes edges s).0 ≡ raise dag_cycle)
        × ((set_graph nodes edges s).1.graph ≡ [])
        × ((set_graph nodes edges s).1.in_degree ≡ [])
  unfolding set_graph finish_graph check_cycle
  set_graph_refuses u w =
      let cycle : has_cycle loaded.0 ≡ ok true = has_cycle-Walk loaded.0 loaded-Built.valid u (
        Walk-map (λ u v. listed u v edges) (edge loaded.0.graph) (λ x y e. edge-loaded x y ∙ e)
          w) in
      rw loaded.1 (rw cycle (refl, refl, refl))
