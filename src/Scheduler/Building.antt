-- ===== src/Scheduler/Building.antt =====
-- The invariant of a scheduler's graph, and that a new edge keeps it.
use dynamic_neural_computing.Prelude.{
  ℕ, ◌==◌, ◌≡◌, ◌∙◌, sym, true, false, ◌&&◌, ◌||◌, some, List, [], ◌∷◌, ◌++◌, lookup, insert, keys,
  mem, mem-snoc, IsNodup, IsNodup-snoc, or_else, if◌then◌else◌, arith, Bool-cases, inl, inr, pos,
  suc_ℤ, lookup-insert, keys-insert_old, lookup_of_mem, lookup-absent,
}
use dynamic_neural_computing.Scheduler.{Graph, Scheduler, succs, link}
use dynamic_neural_computing.Scheduler.Degrees.{edge, waiting, waiting-insert}

pub record IsValid (s : Scheduler) : Type 0 where
  pub distinct : IsNodup (keys s.graph)
  pub same_keys : keys s.in_degree ≡ keys s.graph
  pub reversed_keys : keys s.reversed ≡ keys s.graph
  pub succs_distinct : (u : ℕ) → IsNodup (succs s.graph u)
  pub closed : (u v : ℕ) → edge s.graph u v ≡ true → mem v (keys s.graph) ≡ true
  pub degrees :
      (n : ℕ)
      → mem n (keys s.graph) ≡ true
      → lookup n s.in_degree ≡ some (pos (waiting s.graph [] n))
  pub mirrored : (u v : ℕ) → mem u (succs s.reversed v) ≡ edge s.graph u v

pub succs-insert :
    (g : Graph) (u w : ℕ) (vs : List ℕ)
    → succs (insert u vs g) w ≡ (if w == u then vs else succs g w)
succs-insert g u w vs = ground (arith, lookup-insert w u vs g)

-- A node with a successor is a node of the graph.
pub mem-keys_of_edge : (g : Graph) (u v : ℕ) → edge g u v ≡ true → mem u (keys g) ≡ true
mem-keys_of_edge g u v e = elim (Bool-cases (mem u (keys g))) [
  | inl there ↦ there
  | inr absent ↦ ground (arith, lookup-absent u g absent)
]

lookup-succs : (g : Graph) (u : ℕ) → mem u (keys g) ≡ true → lookup u g ≡ some (succs g u)
lookup-succs g u m = let (vs, e) = lookup_of_mem u g m in ground arith

module _ (up down : ℕ) (s : Scheduler) (valid : IsValid s) (has_up : mem up (keys s.graph) ≡ true)
    (has_down : mem down (keys s.graph) ≡ true) (new : edge s.graph up down ≡ false) where
  -- The new edge is added and no other one.
  pub edge-link :
      (u v : ℕ) → edge (link up down s).graph u v ≡ (edge s.graph u v || (u == up && v == down))
  unfolding link
  edge-link u v = ground (
    arith,
    succs-insert s.graph up u (succs s.graph up ++ down ∷ []),
    mem-snoc v (succs s.graph up) down,
  )

  pub keys-link : keys (link up down s).graph ≡ keys s.graph
  unfolding link
  keys-link = keys-insert_old up (succs s.graph up ++ down ∷ []) s.graph has_up

  keys_degree : keys (link up down s).in_degree ≡ keys s.in_degree
  unfolding link
  keys_degree = keys-insert_old down _ s.in_degree (rw valid.same_keys has_down)

  keys_reversed : keys (link up down s).reversed ≡ keys s.reversed
  unfolding link
  keys_reversed = keys-insert_old down _ s.reversed (rw valid.reversed_keys has_down)

  succs_distinct-link : (u : ℕ) → IsNodup (succs (link up down s).graph u)
  unfolding link
  succs_distinct-link u =
      rw (succs-insert s.graph up u (succs s.graph up ++ down ∷ [])) (elim (Bool-cases (u == up)) [
        | inl e ↦ rw e (IsNodup-snoc (succs s.graph up) down (valid.succs_distinct up) new)
        | inr e ↦ rw e (valid.succs_distinct u)
      ])

  degrees-link :
      (n : ℕ)
      → mem n (keys s.graph) ≡ true
      → lookup n (link up down s).in_degree ≡ some (pos (waiting (link up down s).graph [] n))
  unfolding link
  degrees-link n m = ground (
    arith,
    valid.degrees n m,
    valid.degrees down has_down,
    lookup-insert n down (suc_ℤ (or_else (lookup down s.in_degree) (pos 0))) s.in_degree,
    waiting-insert s.graph up down n (succs s.graph up) (lookup-succs s.graph up has_up) new,
  )

  mirrored-link :
      (u v : ℕ) → mem u (succs (link up down s).reversed v) ≡ edge (link up down s).graph u v
  unfolding link
  mirrored-link u v = ground (
    arith,
    valid.mirrored u v,
    succs-insert s.graph up u (succs s.graph up ++ down ∷ []),
    succs-insert s.reversed down v (succs s.reversed down ++ up ∷ []),
    mem-snoc v (succs s.graph up) down,
    mem-snoc u (succs s.reversed down) up,
  )

  pub link-IsValid : IsValid (link up down s)
  link-IsValid = record {
    distinct = rw keys-link valid.distinct;
    same_keys = keys_degree ∙ valid.same_keys ∙ sym keys-link;
    reversed_keys = keys_reversed ∙ valid.reversed_keys ∙ sym keys-link;
    succs_distinct = succs_distinct-link;
    closed = λ u v e. rw keys-link (ground (arith, edge-link u v, valid.closed u v));
    degrees = λ n m. degrees-link n (rw keys-link at m);
    mirrored = mirrored-link;
  }
