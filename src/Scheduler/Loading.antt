-- ===== src/Scheduler/Loading.antt =====
-- What `set_graph` builds from its nodes and edges.
use dynamic_neural_computing.Prelude.{
  ℕ, ◌==◌, ◌≡◌, refl, ◌∙◌, ap, subst, ◌⊎◌, Bool, true, false, ◌&&◌, ◌||◌, some, List, [], ◌∷◌, ◌++◌,
  Dict, lookup, insert, keys, mem, IsNodup, IsNodup-snoc, if◌then◌else◌, arith, Bool-cases, inl,
  inr, pos, Outcome, ok, raise, Outcome-cases, lookup-insert, contains-eq-mem, keys-insert_old,
  keys-insert_new,
}
use dynamic_neural_computing.Scheduler.{
  Scheduler, succs, fill, finish_graph, link, add_edge, add_edges, check_cycle, set_graph,
  has_cycle,
}
use dynamic_neural_computing.Scheduler.Degrees.{edge, waiting_of_placed}
use dynamic_neural_computing.Scheduler.Building.{IsValid, edge-link, keys-link, link-IsValid}

module _ {ℓ} {V : Type ℓ} where
  keys-insert :
      (k : ℕ) (v : V) (d : Dict V)
      → keys (insert k v d) ≡ (if mem k (keys d) then keys d else keys d ++ k ∷ [])
  keys-insert k v d = elim (Bool-cases (mem k (keys d))) [
    | inl old ↦ rw old (keys-insert_old k v d old)
    | inr new ↦ rw new (keys-insert_new k v d new)
  ]

  pub lookup-fill :
      (v : V) (ns : List ℕ) (d : Dict V) (n : ℕ)
      → lookup n (fill v ns d) ≡ (if mem n ns then some v else lookup n d)
  unfolding fill
  lookup-fill v [] d n = refl
  lookup-fill v (m ∷ ns) d n =
      ground (arith, lookup-fill v ns (insert m v d) n, lookup-insert n m v d)

  IsNodup-fill :
      (v : V) (ns : List ℕ) (d : Dict V) → IsNodup (keys d) → IsNodup (keys (fill v ns d))
  unfolding fill
  IsNodup-fill v [] d h = h
  IsNodup-fill v (m ∷ ns) d h = IsNodup-fill v ns (insert m v d) (
      rw (keys-insert m v d) (elim (Bool-cases (mem m (keys d))) [
        | inl e ↦ rw e h
        | inr e ↦ rw e (IsNodup-snoc (keys d) m h e)
      ]))

-- The keys do not depend on the values.
keys-fill {ℓ κ} :
    {V : Type ℓ} {W : Type κ} (v : V) (w : W) (ns : List ℕ) (d : Dict V) (d' : Dict W)
    → keys d ≡ keys d'
    → keys (fill v ns d) ≡ keys (fill w ns d')
unfolding fill
keys-fill v w [] d d' h = h
keys-fill v w (m ∷ ns) d d' h =
    keys-fill v w ns (insert m v d) (insert m w d')
      (rw (keys-insert m v d, keys-insert m w d', h) refl)

-- What `set_graph` starts with.
abbrev pub unlinked : List ℕ → Scheduler → Scheduler
unlinked nodes s = record s {
  graph = fill [] nodes [];
  reversed = fill [] nodes [];
  in_degree = fill (pos 0) nodes [];
}

pub succs-unlinked : (nodes : List ℕ) (u : ℕ) → succs (fill [] nodes []) u ≡ []
succs-unlinked nodes u = ground (arith, lookup-fill {V = List ℕ} [] nodes [] u)

pub mem-keys-unlinked :
    (nodes : List ℕ) (n : ℕ) → mem n (keys (fill {V = List ℕ} [] nodes [])) ≡ mem n nodes
mem-keys-unlinked nodes n = ground (
  arith,
  contains-eq-mem n (fill {V = List ℕ} [] nodes []),
  lookup-fill {V = List ℕ} [] nodes [] n,
)

pub unlinked-IsValid : (nodes : List ℕ) (s : Scheduler) → IsValid (unlinked nodes s)
unlinked-IsValid nodes s = record {
  distinct = IsNodup-fill [] nodes [] tt;
  same_keys = keys-fill (pos 0) [] nodes [] [] refl;
  reversed_keys = refl;
  succs_distinct = λ u. rw (succs-unlinked nodes u) tt;
  closed = λ u v e. ground (arith, succs-unlinked nodes u);
  degrees = λ n m. ground (
    arith,
    mem-keys-unlinked nodes n,
    lookup-fill (pos 0) nodes [] n,
    waiting_of_placed (fill [] nodes []) [] n (IsNodup-fill [] nodes [] tt)
        (λ u _ e. ground (arith, succs-unlinked nodes u)),
  );
  mirrored = λ u v. ground (arith, succs-unlinked nodes u, succs-unlinked nodes v);
}

-- `(u, v)` is in the list of edges.
abbrev pub listed : ℕ → ℕ → List (ℕ × ℕ) → Bool
listed u v [] = false
listed u v ((up, down) ∷ es) = (u == up && v == down) || listed u v es

-- What the loop over `edges` makes of a valid scheduler.
pub record Built (s : Scheduler) (es : List (ℕ × ℕ)) (after : Scheduler) : Type 0 where
  pub valid : IsValid after
  pub nodes : keys after.graph ≡ keys s.graph
  pub edges : (u v : ℕ) → edge after.graph u v ≡ (edge s.graph u v || listed u v es)

-- The two ways in which an edge is accepted.
add_edge_cases :
    (up down : ℕ) (s after : Scheduler)
    → add_edge up down s ≡ ok after
    → (mem up (keys s.graph) ≡ true)
      × (mem down (keys s.graph) ≡ true)
      × ((edge s.graph up down ≡ true) × (s ≡ after)
          ⊎ (edge s.graph up down ≡ false) × (link up down s ≡ after))
unfolding add_edge
add_edge_cases up down s after e =
    ground (arith, contains-eq-mem up s.graph, contains-eq-mem down s.graph)

pub add_edge-Built :
    (up down : ℕ) (s after : Scheduler)
    → IsValid s
    → add_edge up down s ≡ ok after
    → Built s ((up, down) ∷ []) after
add_edge-Built up down s after valid e =
    let (has_up, has_down, way) = add_edge_cases up down s after e in
    elim way [
      | inl (old, same) ↦
          subst (Built s ((up, down) ∷ [])) same
            (record { valid = valid; nodes = refl; edges = λ u v. ground arith })
      | inr (new, same) ↦ subst (Built s ((up, down) ∷ [])) same (record {
        valid = link-IsValid up down s valid has_up has_down new;
        nodes = keys-link up down s valid has_up has_down new;
        edges = λ u v. ground (arith, edge-link up down s valid has_up has_down new u v);
      })
    ]

pub add_edges-Built :
    (es : List (ℕ × ℕ)) (s after : Scheduler)
    → IsValid s
    → add_edges es s ≡ (ok tt, after)
    → Built s es after
unfolding add_edges
add_edges-Built [] s after valid e =
    subst (Built s []) (ap (λ r. r.1) e)
      (record { valid = valid; nodes = refl; edges = λ u v. ground arith })
add_edges-Built ((up, down) ∷ es) s after valid e = elim (Outcome-cases (add_edge up down s)) [
  | inl (middle, added) ↦
      let one = add_edge-Built up down s middle valid added in
      let rest = add_edges-Built es middle after one.valid (rw (added, add_edges) at e) in
      record {
        valid = rest.valid;
        nodes = rest.nodes ∙ one.nodes;
        edges = λ u v. ground (arith, one.edges u v, rest.edges u v);
      }
  | inr (x, failed) ↦ absurd (ground arith)
]

-- A graph that `set_graph` accepts is valid, has no cycle by `_has_cycle`, and has exactly the
-- nodes and the edges that were given.
pub record Accepted (nodes : List ℕ) (edges : List (ℕ × ℕ)) (s : Scheduler) : Type 0 where
  pub valid : IsValid s
  pub same_nodes : (n : ℕ) → mem n (keys s.graph) ≡ mem n nodes
  pub same_edges : (u v : ℕ) → edge s.graph u v ≡ listed u v edges
  pub acyclic : has_cycle s ≡ ok false

check_cycle-eq-ok :
    (r : Outcome Bool) (s after : Scheduler)
    → check_cycle r s ≡ (ok tt, after)
    → (r ≡ ok false) × (s ≡ after)
unfolding check_cycle
check_cycle-eq-ok (ok true) s after e = absurd (ground arith)
check_cycle-eq-ok (ok false) s after e = (refl, ap (λ r. r.1) e)
check_cycle-eq-ok (raise x) s after e = absurd (ground arith)

pub finish_graph-eq-ok :
    (built : Outcome (Unit {0}) × Scheduler) (after : Scheduler)
    → finish_graph built ≡ (ok tt, after)
    → (built ≡ (ok tt, after)) × (has_cycle after ≡ ok false)
unfolding finish_graph
finish_graph-eq-ok (ok done, s) after e =
    let (acyclic, same) = check_cycle-eq-ok (has_cycle s) s after e in
    (ap (λ x. (ok tt, x)) same, subst (λ x. has_cycle x ≡ ok false) same acyclic)
finish_graph-eq-ok (raise x, s) after e = absurd (ground arith)

-- A graph that set_graph accepts is loaded as a valid scheduler with exactly the given nodes and
-- edges, in which no cycle is found.
pub set_graph-Accepted :
    (nodes : List ℕ) (edges : List (ℕ × ℕ)) (s after : Scheduler)
    → set_graph nodes edges s ≡ (ok tt, after)
    → Accepted nodes edges after
unfolding set_graph
set_graph-Accepted nodes edges s after e =
    let start = unlinked nodes s in
    let (linked, acyclic) = finish_graph-eq-ok (add_edges edges start) after e in
    let built = add_edges-Built edges start after (unlinked-IsValid nodes s) linked in
    record {
      valid = built.valid;
      same_nodes = λ n. rw built.nodes (mem-keys-unlinked nodes n);
      same_edges = λ u v. ground (arith, built.edges u v, succs-unlinked nodes u);
      acyclic = acyclic;
    }
