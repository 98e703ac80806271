-- ===== src/Mutation/Apply.antt =====
-- What `apply_operation` leaves behind, by how it ends, and the identities that it keeps apart.
use dynamic_neural_computing.Prelude.{
  ℕ, ◌==◌, ◌≡◌, refl, ap, ◌∙◌, sym, Bool, true, false, not, ◌||◌, Option, none, some, List, [], ◌∷◌,
  length, lookup, contains, insert, erase, keys, mem, IsNodup, IsNodup-snoc, contains-eq-mem,
  lookup-insert, lookup-erase_ne, lookup-erase_self, IsNodup-erase, keys-insert_new, filter, arith,
  if◌then◌else◌, Bool-cases, Option-cases, inl, inr, ==_iff, Dict,
}
use dynamic_neural_computing.Ir.Enums.{EdgeType}
use dynamic_neural_computing.Ir.Identity.{next_sequence}
use dynamic_neural_computing.Ir.Contracts.{ComputationalUnit}
use dynamic_neural_computing.Ir.Graph.{StructuralGraph, add_unit, remove_unit, add_edge, touches}
use dynamic_neural_computing.Mutation.{
  Connection, IrOperation, undo_add, restore_unit, adding, removing, connecting, disconnecting,
  rewiring, Applied, invalid_parameters, failed, succeeded, validate, apply_valid, apply_operation,
  apply_add, apply_remove, connect_with, disconnect_with, rewire_with, insert_sorted, sorted_set,
}

-- What a call leaves: after a failure the graph as it was and nothing to undo, after a success the
-- next version and one inverse.
abbrev pub Leaves : StructuralGraph → Applied → Type 0
Leaves g a = elim a.success [
  | true ↦ (a.graph.version ≡ next_sequence g.version) × (length a.undo ≡ 1)
  | false ↦ (a.graph ≡ g) × (a.undo ≡ [])
]

apply_add-Leaves : (u : ComputationalUnit) (g : StructuralGraph) → Leaves g (apply_add u g)
unfolding apply_add add_unit
apply_add-Leaves u g = ground arith

apply_remove-Leaves : (i : ℕ) (g : StructuralGraph) → Leaves g (apply_remove i g)
unfolding apply_remove remove_unit
apply_remove-Leaves i g = ground arith

connect_with-Leaves :
    (s t : Option ℕ) (k : Option EdgeType) (c : Connection) (g : StructuralGraph)
    → Leaves g (connect_with s t k c g)
unfolding connect_with add_edge
connect_with-Leaves (some s) (some t) (some k) c g = (refl, refl)
connect_with-Leaves _ _ _ c g = (refl, refl)

disconnect_with-Leaves :
    (s t : Option ℕ) (c : Connection) (g : StructuralGraph) → Leaves g (disconnect_with s t c g)
unfolding disconnect_with
disconnect_with-Leaves (some s) (some t) c g = (refl, refl)
disconnect_with-Leaves _ _ c g = (refl, refl)

rewire_with-Leaves : (a b c d : Option ℕ) (g : StructuralGraph) → Leaves g (rewire_with a b c d g)
unfolding rewire_with
rewire_with-Leaves (some a) (some b) (some c) (some d) g = ground arith
rewire_with-Leaves _ _ _ _ g = (refl, refl)

apply_valid-Leaves : (g : StructuralGraph) (op : IrOperation) → Leaves g (apply_valid g op)
unfolding apply_valid
apply_valid-Leaves g (adding (some u)) = apply_add-Leaves u g
apply_valid-Leaves g (removing (some i)) = apply_remove-Leaves i g
apply_valid-Leaves g (connecting c) = connect_with-Leaves c.source c.target c.edge_type c g
apply_valid-Leaves g (disconnecting c) = disconnect_with-Leaves c.source c.target c g
apply_valid-Leaves g (rewiring r) =
    rewire_with-Leaves r.old_source r.old_target r.new_source r.new_target g
apply_valid-Leaves g _ = (refl, refl)

guarded-Leaves :
    (g : StructuralGraph) (b : Bool) (a : Applied)
    → Leaves g a
    → Leaves g (if b then a else failed invalid_parameters g)
guarded-Leaves g true a l = l
guarded-Leaves g false a l = (refl, refl)

-- Every call of apply_operation is atomic: it fails, leaves the graph as it was and records nothing
-- to undo, or it succeeds, moves to the next version and records one inverse.
pub apply_operation-Leaves :
    (g : StructuralGraph) (op : IrOperation) → Leaves g (apply_operation g op)
unfolding apply_operation
apply_operation-Leaves g op =
    guarded-Leaves g (validate op) (apply_valid g op) (apply_valid-Leaves g op)

mem-insert_sorted : (x y : ℕ) (ys : List ℕ) → mem x (insert_sorted y ys) ≡ (x == y || mem x ys)
unfolding insert_sorted
mem-insert_sorted x y [] = refl
mem-insert_sorted x y (z ∷ ys) = ground (arith, mem-insert_sorted x y ys)

pub mem-sorted_set : (x : ℕ) (ys : List ℕ) → mem x (sorted_set ys) ≡ mem x ys
unfolding sorted_set
mem-sorted_set x [] = refl
mem-sorted_set x (y ∷ ys) =
    mem-insert_sorted x y (sorted_set ys) ∙ ap (λ b. x == y || b) (mem-sorted_set x ys)

-- The keys of the units are their identities, no key stands twice, and no unit has a retired
-- identity.
pub record IsValid (g : StructuralGraph) : Type 0 where
  pub distinct : IsNodup (keys g.units)
  pub named : (i : ℕ) (u : ComputationalUnit) → lookup i g.units ≡ some u → u.unit_id ≡ i
  pub unused : (i : ℕ) → mem i g.retired_unit_ids ≡ true → lookup i g.units ≡ none

-- Other edges and another version keep the invariant.
IsValid-same :
    (g h : StructuralGraph)
    → h.units ≡ g.units
    → h.retired_unit_ids ≡ g.retired_unit_ids
    → IsValid g
    → IsValid h
IsValid-same g h eu er v = record {
  distinct = rw eu v.distinct;
  named = rw eu v.named;
  unused = rw eu (rw er v.unused);
}

pub apply_add_fresh :
    (u : ComputationalUnit) (g : StructuralGraph)
    → mem u.unit_id g.retired_unit_ids ≡ false
    → contains u.unit_id g.units ≡ false
    → apply_add u g
      ≡ succeeded (undo_add u.unit_id) (record g { units = insert u.unit_id u g.units })
unfolding apply_add add_unit
apply_add_fresh u g free absent = ground arith

apply_add_refused :
    (u : ComputationalUnit) (g : StructuralGraph)
    → (mem u.unit_id g.retired_unit_ids || contains u.unit_id g.units) ≡ true
    → (apply_add u g).graph ≡ g
unfolding apply_add add_unit
apply_add_refused u g h = ground arith

pub apply_remove_missing :
    (i : ℕ) (g : StructuralGraph) → lookup i g.units ≡ none → (apply_remove i g).graph ≡ g
unfolding apply_remove
apply_remove_missing i g h = ground arith

pub apply_remove_found :
    (i : ℕ) (u : ComputationalUnit) (g : StructuralGraph)
    → lookup i g.units ≡ some u
    → apply_remove i g
      ≡ succeeded (restore_unit u (filter (touches i) g.edges)) (record g {
        units = erase i g.units;
        edges = filter (λ e. not (touches i e)) g.edges;
        retired_unit_ids = sorted_set (i ∷ g.retired_unit_ids);
      })
unfolding apply_remove remove_unit
apply_remove_found i u g h = ground arith

pub insert-named :
    (i : ℕ) (u w : ComputationalUnit) (d : Dict ComputationalUnit)
    → (lookup i d ≡ some w → w.unit_id ≡ i)
    → lookup i (insert u.unit_id u d) ≡ some w
    → w.unit_id ≡ i
insert-named i u w d h e = elim (Bool-cases (i == u.unit_id)) [
  | inr ne ↦ h (ground (arith, lookup-insert i u.unit_id u d))
  | inl eq ↦
      let same : i ≡ u.unit_id = (==_iff i u.unit_id).0 eq in
      let met : some u ≡ some w = ground (arith, lookup-insert i u.unit_id u d) in
      ap (λ x. elim x [ none ↦ i | some y ↦ y.unit_id ]) (sym met) ∙ sym same
]

some_before_erase :
    (j i : ℕ) (w : ComputationalUnit) (d : Dict ComputationalUnit)
    → IsNodup (keys d)
    → lookup j (erase i d) ≡ some w
    → lookup j d ≡ some w
some_before_erase j i w d h f = elim (Bool-cases (j == i)) [
  | inr ne ↦ ground (arith, lookup-erase_ne j i d (ground arith))
  | inl eq ↦
      let same : j ≡ i = (==_iff j i).0 eq in
      absurd (ground (arith, lookup-erase_self i d h, ap (λ x. lookup x (erase i d)) same))
]

insert-IsValid :
    (u : ComputationalUnit) (g : StructuralGraph)
    → mem u.unit_id g.retired_unit_ids ≡ false
    → contains u.unit_id g.units ≡ false
    → IsValid g
    → IsValid (record g { units = insert u.unit_id u g.units })
insert-IsValid u g free absent v =
    let outside : mem u.unit_id (keys g.units) ≡ false =
      sym (contains-eq-mem u.unit_id g.units) ∙ absent in
    record {
      distinct =
          rw (keys-insert_new u.unit_id u g.units outside)
            (IsNodup-snoc (keys g.units) u.unit_id v.distinct outside);
      named = λ i w e. insert-named i u w g.units (v.named i w) e;
      unused = λ i r. ground (arith, lookup-insert i u.unit_id u g.units, v.unused i r);
    }

erase-IsValid :
    (i : ℕ) (g : StructuralGraph)
    → IsValid g
    → IsValid (record g {
      units = erase i g.units;
      retired_unit_ids = sorted_set (i ∷ g.retired_unit_ids);
    })
erase-IsValid i g v = record {
  distinct = IsNodup-erase i g.units v.distinct;
  named = λ j w f. v.named j w (some_before_erase j i w g.units v.distinct f);
  unused = λ j r. elim (Bool-cases (j == i)) [
    | inr e ↦
        lookup-erase_ne j i g.units (ground arith)
        ∙ v.unused j (ground (arith, mem-sorted_set j (i ∷ g.retired_unit_ids)))
    | inl e ↦
        let same : j ≡ i = (==_iff j i).0 e in
        ap (λ x. lookup x (erase i g.units)) same ∙ lookup-erase_self i g.units v.distinct
  ];
}

apply_add-IsValid :
    (u : ComputationalUnit) (g : StructuralGraph) → IsValid g → IsValid (apply_add u g).graph
apply_add-IsValid u g v =
    elim (Bool-cases (mem u.unit_id g.retired_unit_ids || contains u.unit_id g.units)) [
      | inl e ↦ rw (apply_add_refused u g e) v
      | inr e ↦
          let free : mem u.unit_id g.retired_unit_ids ≡ false = ground arith in
          let absent : contains u.unit_id g.units ≡ false = ground arith in
          rw (apply_add_fresh u g free absent) (
            IsValid-same (record g { units = insert u.unit_id u g.units }) _ refl refl
              (insert-IsValid u g free absent v))
    ]

apply_remove-IsValid : (i : ℕ) (g : StructuralGraph) → IsValid g → IsValid (apply_remove i g).graph
apply_remove-IsValid i g v = elim (Option-cases (lookup i g.units)) [
  | inl e ↦ rw (apply_remove_missing i g e) v
  | inr (u, e) ↦ rw (apply_remove_found i u g e) (
      IsValid-same
        (record g {
          units = erase i g.units;
          retired_unit_ids = sorted_set (i ∷ g.retired_unit_ids);
        })
        _ refl refl (erase-IsValid i g v))
]

connect_with-IsValid :
    (s t : Option ℕ) (k : Option EdgeType) (c : Connection) (g : StructuralGraph)
    → IsValid g
    → IsValid (connect_with s t k c g).graph
unfolding connect_with add_edge
connect_with-IsValid (some s) (some t) (some k) c g v = IsValid-same g _ refl refl v
connect_with-IsValid _ _ _ c g v = v

disconnect_with-IsValid :
    (s t : Option ℕ) (c : Connection) (g : StructuralGraph)
    → IsValid g
    → IsValid (disconnect_with s t c g).graph
unfolding disconnect_with
disconnect_with-IsValid (some s) (some t) c g v = IsValid-same g _ refl refl v
disconnect_with-IsValid _ _ c g v = v

rewire_with-IsValid :
    (a b c d : Option ℕ) (g : StructuralGraph) → IsValid g → IsValid (rewire_with a b c d g).graph
unfolding rewire_with
rewire_with-IsValid (some a) (some b) (some c) (some d) g v =
    IsValid-same g _ (ground arith) (ground arith) v
rewire_with-IsValid _ _ _ _ g v = v

apply_valid-IsValid :
    (g : StructuralGraph) (op : IrOperation) → IsValid g → IsValid (apply_valid g op).graph
unfolding apply_valid
apply_valid-IsValid g (adding (some u)) v = apply_add-IsValid u g v
apply_valid-IsValid g (removing (some i)) v = apply_remove-IsValid i g v
apply_valid-IsValid g (connecting c) v = connect_with-IsValid c.source c.target c.edge_type c g v
apply_valid-IsValid g (disconnecting c) v = disconnect_with-IsValid c.source c.target c g v
apply_valid-IsValid g (rewiring r) v =
    rewire_with-IsValid r.old_source r.old_target r.new_source r.new_target g v
apply_valid-IsValid g _ v = v

guarded-IsValid :
    (g : StructuralGraph) (b : Bool) (a : Applied)
    → IsValid g
    → IsValid a.graph
    → IsValid (if b then a else failed invalid_parameters g).graph
guarded-IsValid g true a v w = w
guarded-IsValid g false a v w = v

-- Every operation, whether it succeeds or fails, keeps the invariant that the keys of the units are
-- distinct and are their identities and that no unit has a retired identity.
pub apply_operation-IsValid :
    (g : StructuralGraph) (op : IrOperation) → IsValid g → IsValid (apply_operation g op).graph
unfolding apply_operation
apply_operation-IsValid g op v =
    guarded-IsValid g (validate op) (apply_valid g op) v (apply_valid-IsValid g op v)
