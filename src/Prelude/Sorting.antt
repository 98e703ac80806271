-- ===== src/Prelude/Sorting.antt =====
-- `sorted` on numbers.
use Prim.Native.Nat.{ℕ, ◌≤◌}
use mathlib.Core.Path.{◌≡◌, refl, ap, ◌∙◌}
use mathlib.Core.Bool.{false, ◌||◌}
use mathlib.Core.List.{List, [], ◌∷◌}
use native.Mathlib.Omega.{arith}
use dynamic_neural_computing.Prelude.Tests.{leb, ◌==◌, if◌then◌else◌}
use dynamic_neural_computing.Prelude.Members.{mem, IsNodup}

-- Into a sorted list, before the first number that is as large.
pub insert_in_order : ℕ → List ℕ → List ℕ
insert_in_order x [] = x ∷ []
insert_in_order x (y ∷ ys) =
    let rest = y ∷ insert_in_order x ys in if leb x y then x ∷ y ∷ ys else rest

unfoldable pub sorted : List ℕ → List ℕ
unfolding insert_in_order
sorted [] = []
sorted (x ∷ xs) = insert_in_order x (sorted xs)

mem-insert_in_order : (x y : ℕ) (ys : List ℕ) → mem x (insert_in_order y ys) ≡ (x == y || mem x ys)
unfolding insert_in_order
mem-insert_in_order x y [] = refl
mem-insert_in_order x y (z ∷ ys) = ground (arith, mem-insert_in_order x y ys)

pub mem-sorted : (x : ℕ) (ys : List ℕ) → mem x (sorted ys) ≡ mem x ys
unfolding sorted
mem-sorted x [] = refl
mem-sorted x (y ∷ ys) =
    mem-insert_in_order x y (sorted ys) ∙ ap (λ b. x == y || b) (mem-sorted x ys)

-- Every number is at most the one after it.
abbrev pub IsSorted : List ℕ → Type 0
IsSorted [] = Unit
IsSorted (x ∷ []) = Unit
IsSorted (x ∷ y ∷ ys) = (x ≤ y) × IsSorted (y ∷ ys)

insert_in_order-IsSorted : (x : ℕ) (ys : List ℕ) → IsSorted ys → IsSorted (insert_in_order x ys)
unfolding insert_in_order
insert_in_order-IsSorted x [] h = tt
insert_in_order-IsSorted x (y ∷ []) h = ground arith
insert_in_order-IsSorted x (y ∷ z ∷ ys) h =
    ground (arith, insert_in_order-IsSorted x (z ∷ ys) h.1, h.0, h.1)

pub sorted-IsSorted : (xs : List ℕ) → IsSorted (sorted xs)
unfolding sorted
sorted-IsSorted [] = tt
sorted-IsSorted (x ∷ xs) = insert_in_order-IsSorted x (sorted xs) (sorted-IsSorted xs)

IsNodup-insert_in_order :
    (x : ℕ) (ys : List ℕ) → IsNodup ys → mem x ys ≡ false → IsNodup (insert_in_order x ys)
unfolding insert_in_order
IsNodup-insert_in_order x [] h new = ground arith
IsNodup-insert_in_order x (y ∷ ys) h new =
    ground (arith, IsNodup-insert_in_order x ys h.1, mem-insert_in_order y x ys, h.0, h.1, new)

pub IsNodup-sorted : (xs : List ℕ) → IsNodup xs → IsNodup (sorted xs)
unfolding sorted
IsNodup-sorted [] h = h
IsNodup-sorted (x ∷ xs) h =
    IsNodup-insert_in_order x (sorted xs) (IsNodup-sorted xs h.1) (mem-sorted x xs ∙ h.0)
