-- ===== src/Scheduler/Degrees.antt =====
-- How many unplaced nodes point to a node: what the in-degrees of Kahn's algorithm stand for.
use dynamic_neural_computing.Prelude.{
  ℕ, ◌+◌, ◌==◌, ◌≡◌, refl, Bool, true, false, not, ◌&&◌, some, List, [], ◌∷◌, ◌++◌, lookup, insert,
  keys, mem, mem-snoc, IsNodup, if◌then◌else◌, arith,
}
use dynamic_neural_computing.Scheduler.{Graph, succs}

-- There is an edge from `u` to `v`.
abbrev pub edge : Graph → ℕ → ℕ → Bool
edge g u v = mem v (succs g u)

abbrev pub one_if : Bool → ℕ
one_if b = if b then 1 else 0

-- The nodes with an edge to `n` that are not in `placed`.
pub waiting : Graph → List ℕ → ℕ → ℕ
waiting [] placed n = 0
waiting ((u, vs) ∷ g) placed n = one_if (mem n vs && not (mem u placed)) + waiting g placed n

waiting-absent :
    (g : Graph) (placed : List ℕ) (u n : ℕ)
    → mem u (keys g) ≡ false
    → waiting g (placed ++ u ∷ []) n ≡ waiting g placed n
unfolding waiting
waiting-absent [] placed u n h = refl
waiting-absent ((w, vs) ∷ g) placed u n h =
    ground (arith, mem-snoc w placed u, waiting-absent g placed u n)

-- Placing a node takes it off the count of each of its successors.
pub waiting-snoc :
    (g : Graph) (placed : List ℕ) (u n : ℕ)
    → IsNodup (keys g)
    → mem u (keys g) ≡ true
    → mem u placed ≡ false
    → waiting g (placed ++ u ∷ []) n + one_if (edge g u n) ≡ waiting g placed n
unfolding waiting
waiting-snoc [] placed u n nd h out = ground arith
waiting-snoc ((w, vs) ∷ g) placed u n nd h out =
    ground (arith, mem-snoc w placed u, waiting-snoc g placed u n nd.1, waiting-absent g placed u n)

-- A new edge `u → v` adds one to the count of `v`.
pub waiting-insert :
    (g : Graph) (u v n : ℕ) (vs : List ℕ)
    → lookup u g ≡ some vs
    → mem v vs ≡ false
    → waiting (insert u (vs ++ v ∷ []) g) [] n ≡ waiting g [] n + one_if (n == v)
unfolding waiting
waiting-insert [] u v n vs found new = ground arith
waiting-insert ((w, ws) ∷ g) u v n vs found new =
    ground (arith, mem-snoc n vs v, waiting-insert g u v n vs)

-- Where no predecessor is waiting, all of them are placed.
pub placed_of_waiting :
    (g : Graph) (placed : List ℕ) (u n : ℕ)
    → waiting g placed n ≡ 0
    → edge g u n ≡ true
    → mem u placed ≡ true
unfolding waiting
placed_of_waiting [] placed u n h e = ground arith
placed_of_waiting ((w, vs) ∷ g) placed u n h e = ground (arith, placed_of_waiting g placed u n)

-- Where all the predecessors are placed, none is waiting.
pub waiting_of_placed :
    (g : Graph) (placed : List ℕ) (n : ℕ)
    → IsNodup (keys g)
    → ((u : ℕ) → mem u (keys g) ≡ true → edge g u n ≡ true → mem u placed ≡ true)
    → waiting g placed n ≡ 0
unfolding waiting
waiting_of_placed [] placed n nd h = refl
waiting_of_placed ((w, vs) ∷ g) placed n nd h =
    ground
      (arith, h w, waiting_of_placed g placed n nd.1 λ u m e. h u (ground arith) (ground arith))
