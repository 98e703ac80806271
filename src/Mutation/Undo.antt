-- ===== src/Mutation/Undo.antt =====
-- What `rollback` of src/dnc/mutation/engine.py gives back after one operation.
use mathlib.Core.List.{Perm}
use mathlib.Core.List.Perm
use dynamic_neural_computing.Prelude.{
  ℕ, ◌≡◌, refl, ap, ◌∙◌, Bool, true, false, not, Option, none, some, ◌==◌, ◌++◌, ◌∷◌, [], List,
  Bool-cases, inl, inr, lookup, mem, filter, any, arith, insert, erase, lookup-insert,
  lookup-erase_ne, lookup-erase_self, ==_iff, Dict, ok, contains,
}
use dynamic_neural_computing.Ir.Enums.{EdgeType}
use dynamic_neural_computing.Ir.Identity.{next_sequence}
use dynamic_neural_computing.Ir.Contracts.{ComputationalUnit}
use dynamic_neural_computing.Ir.Graph.{
  Edge, StructuralGraph, add_unit, remove_unit, add_edge, remove_edge, edge_matches, touches,
}
use dynamic_neural_computing.Mutation.{
  Connection, adding, removing, validate, apply_valid, apply_operation, apply_disconnect,
  apply_connect, rollback, undo_all, undo_one, pop_all, sorted_set,
}
use dynamic_neural_computing.Mutation.Apply.{
  IsValid, mem-sorted_set, apply_remove_found, apply_add_fresh,
}

-- The edges that a test leaves, with those that it takes put last, are the edges in another order.
module _ {ℓ} {A : Type ℓ} where
  Perm_middle : (x : A) (xs ys : List A) → Perm (xs ++ x ∷ ys) (x ∷ (xs ++ ys))
  Perm_middle x [] ys = Perm.refl (x ∷ ys)
  Perm_middle x (z ∷ xs) ys =
      Perm.trans (Perm.cons z (Perm_middle x xs ys)) (Perm.swap x z (xs ++ ys))

  filter-Perm : (p : A → Bool) (xs : List A) → Perm (filter (λ x. not (p x)) xs ++ filter p xs) xs
  filter-Perm p [] = Perm.nil
  filter-Perm p (x ∷ xs) = elim (Bool-cases (p x)) [
    | inl e ↦ rw e (
        Perm.trans (Perm_middle x (filter (λ y. not (p y)) xs) (filter p xs))
          (Perm.cons x (filter-Perm p xs)))
    | inr e ↦ rw e (Perm.cons x (filter-Perm p xs))
  ]

  filter_none : (p : A → Bool) (xs : List A) → any p xs ≡ false → filter (λ x. not (p x)) xs ≡ xs
  filter_none p [] h = refl
  filter_none p (x ∷ xs) h = ground (arith, filter_none p xs)

  filter-append_one :
      (p : A → Bool) (xs : List A) (x : A)
      → p x ≡ true
      → filter (λ y. not (p y)) (xs ++ x ∷ []) ≡ filter (λ y. not (p y)) xs
  filter-append_one p [] x h = ground arith
  filter-append_one p (y ∷ ys) x h = ground (arith, filter-append_one p ys x h)

-- What a rollback gives back of a graph: the units by their identities, and the edges but for
-- their order.
pub record Restores (g h : StructuralGraph) : Type 0 where
  pub same_units : (j : ℕ) → lookup j h.units ≡ lookup j g.units
  pub same_edges : Perm h.edges g.edges
  pub newer : h.version ≡ next_sequence (next_sequence g.version)

insert-erase :
    (j i : ℕ) (u : ComputationalUnit) (d : Dict ComputationalUnit)
    → lookup i d ≡ some u
    → lookup j (insert i u (erase i d)) ≡ lookup j d
insert-erase j i u d e = elim (Bool-cases (j == i)) [
  | inl t ↦
      let same : j ≡ i = (==_iff j i).0 t in
      let here : lookup j d ≡ some u = ap (λ x. lookup x d) same ∙ e in
      ground (arith, lookup-insert j i u (erase i d), here)
  | inr f ↦ ground (arith, lookup-insert j i u (erase i d), lookup-erase_ne j i d (ground arith))
]

erase-insert_new :
    (i : ℕ) (u : ComputationalUnit) (d : Dict ComputationalUnit)
    → contains i d ≡ false
    → erase i (insert i u d) ≡ d
erase-insert_new i u [] h = ground arith
erase-insert_new i u ((j, w) ∷ d) h = ground (arith, erase-insert_new i u d)

remove_unit_found :
    (i : ℕ) (g : StructuralGraph)
    → contains i g.units ≡ true
    → remove_unit i g
      ≡ ok (record g { units = erase i g.units; edges = filter (λ e. not (touches i e)) g.edges })
unfolding remove_unit
remove_unit_found i g h = ground arith

add_unit_fresh :
    (i : ℕ) (u : ComputationalUnit) (g : StructuralGraph)
    → u.unit_id ≡ i
    → lookup i g.units ≡ none
    → add_unit u g ≡ ok (record g { units = insert i u g.units })
unfolding add_unit
add_unit_fresh i u g e h = ground arith

-- A rollback of one ADD_UNIT of a new identity, in a graph without edges at it, gives the graph
-- back with the version two further.
pub rollback_add :
    (g : StructuralGraph) (u : ComputationalUnit)
    → mem u.unit_id g.retired_unit_ids ≡ false
    → contains u.unit_id g.units ≡ false
    → any (touches u.unit_id) g.edges ≡ false
    → rollback
        (apply_operation g (adding (some u))).graph
        (apply_operation g (adding (some u))).undo
      ≡ ok (record g { version = next_sequence (next_sequence g.version) })
unfolding rollback undo_all undo_one pop_all apply_operation apply_valid validate remove_unit
rollback_add g u free absent clear =
    let i : ℕ = u.unit_id in
    let wider : StructuralGraph = record g {
      version = next_sequence g.version;
      units = insert i u g.units;
    } in
    let here : contains i wider.units ≡ true = ground (arith, lookup-insert i i u g.units) in
    rw
      (
        apply_add_fresh u g free absent,
        remove_unit_found i wider here,
        erase-insert_new i u g.units absent,
        filter_none (touches i) g.edges clear,
      )
      refl

-- A rollback of one REMOVE_UNIT that succeeded on a valid graph gives back the units by their
-- identities and the edges but for their order, and leaves the identity retired.
pub rollback_remove :
    (g : StructuralGraph) (i : ℕ) (u : ComputationalUnit)
    → IsValid g
    → lookup i g.units ≡ some u
    → (h : StructuralGraph) × (rollback
          (apply_operation g (removing (some i))).graph
          (apply_operation g (removing (some i))).undo
        ≡ ok h)
      × Restores g h
      × (mem i h.retired_unit_ids ≡ true)
unfolding rollback undo_all undo_one pop_all apply_operation apply_valid validate
rollback_remove g i u v found =
    let left : StructuralGraph = record g {
      version = next_sequence g.version;
      units = erase i g.units;
      edges = filter (λ e. not (touches i e)) g.edges;
      retired_unit_ids = sorted_set (i ∷ g.retired_unit_ids);
    } in
    (
      record left {
        version = next_sequence left.version;
        units = insert i u left.units;
        edges = left.edges ++ filter (touches i) g.edges;
      },
      rw
          (
            apply_remove_found i u g found,
            add_unit_fresh i u left (v.named i u found) (lookup-erase_self i g.units v.distinct),
          )
          refl,
      record {
        same_units = λ j. insert-erase j i u g.units found;
        same_edges = filter-Perm (touches i) g.edges;
        newer = refl;
      },
      ground (arith, mem-sorted_set i (i ∷ g.retired_unit_ids)),
    )

-- A rollback of one DISCONNECT_UNITS gives back the units and, but for their order, the edges.
pub rollback_disconnect :
    (g : StructuralGraph) (s t : ℕ) (c : Connection)
    → (h : StructuralGraph) × (rollback
          (apply_disconnect s t c g).graph
          (apply_disconnect s t c g).undo
        ≡ ok h)
      × Restores g h
unfolding rollback undo_all undo_one pop_all apply_disconnect
rollback_disconnect g s t c = (
  _,
  refl,
  record {
    same_units = λ j. refl;
    same_edges = filter-Perm (edge_matches s t c.edge_type c.source_port c.target_port) g.edges;
    newer = refl;
  },
)

edge_matches_self :
    (s t : ℕ) (k : EdgeType) (m : ℕ) (p q : Option ℕ)
    → edge_matches s t (some k) p q (record {
      source = s;
      target = t;
      edge_type = k;
      metadata = m;
      source_port = p;
      target_port = q;
    })
      ≡ true
unfolding edge_matches
edge_matches_self s t k m none none = ground arith
edge_matches_self s t k m none (some q) = ground arith
edge_matches_self s t k m (some p) none = ground arith
edge_matches_self s t k m (some p) (some q) = ground arith

-- A rollback of one CONNECT_UNITS, in a graph where no edge fits what it connects, gives the graph
-- back with the version two further.
pub rollback_connect :
    (g : StructuralGraph) (s t : ℕ) (k : EdgeType) (c : Connection)
    → any (edge_matches s t (some k) c.source_port c.target_port) g.edges ≡ false
    → rollback (apply_connect s t k c g).graph (apply_connect s t k c g).undo
      ≡ ok (record g { version = next_sequence (next_sequence g.version) })
unfolding rollback undo_all undo_one pop_all apply_connect add_edge remove_edge
rollback_connect g s t k c clear =
    let fits : Edge → Bool = edge_matches s t (some k) c.source_port c.target_port in
    rw
      (
        filter-append_one fits g.edges
            (record {
              source = s;
              target = t;
              edge_type = k;
              metadata = c.metadata;
              source_port = c.source_port;
              target_port = c.target_port;
            })
            (edge_matches_self s t k c.metadata c.source_port c.target_port),
        filter_none fits g.edges clear,
      )
      refl
