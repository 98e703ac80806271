-- ===== src/Prelude/Members.antt =====
-- Membership in a list of identifiers as a Boolean, lists without repetition, and counting.
use Prim.Native.Nat.{ℕ, suc, ◌≤◌}
use mathlib.Core.Path.{◌≡◌, refl, ap}
use mathlib.Core.Logic.{◌≢◌, inl, inr}
use mathlib.Core.Bool.{Bool, true, false, ◌&&◌, ◌||◌}
use mathlib.Core.List.{List, [], ◌∷◌, ◌++◌}
use native.Mathlib.Omega.{arith}
use dynamic_neural_computing.Prelude.Tests.{◌==◌, if◌then◌else◌, Bool-cases, ==_iff}
use dynamic_neural_computing.Prelude.Lists.{length, filter, any, all}

-- `x in xs`
abbrev pub mem : ℕ → List ℕ → Bool
mem x [] = false
mem x (y ∷ ys) = x == y || mem x ys

abbrev pub IsNodup : List ℕ → Type 0
IsNodup [] = Unit
IsNodup (x ∷ xs) = (mem x xs ≡ false) × IsNodup xs

abbrev pub IsSubset : List ℕ → List ℕ → Type 0
IsSubset xs ys = (x : ℕ) → mem x xs ≡ true → mem x ys ≡ true

pub mem-append : (x : ℕ) (xs ys : List ℕ) → mem x (xs ++ ys) ≡ (mem x xs || mem x ys)
mem-append x [] ys = refl
mem-append x (y ∷ xs) ys = ground (arith, mem-append x xs ys)

pub mem-snoc : (x : ℕ) (xs : List ℕ) (y : ℕ) → mem x (xs ++ y ∷ []) ≡ (mem x xs || x == y)
mem-snoc x [] y = ground arith
mem-snoc x (z ∷ xs) y = ground (arith, mem-snoc x xs y)

pub IsNodup-append :
    (xs ys : List ℕ)
    → IsNodup xs
    → IsNodup ys
    → ((x : ℕ) → mem x xs ≡ true → mem x ys ≡ false)
    → IsNodup (xs ++ ys)
IsNodup-append [] ys hx hy apart = hy
IsNodup-append (x ∷ xs) ys hx hy apart = (
  ground (arith, mem-append x xs ys, apart x),
  IsNodup-append xs ys hx.1 hy (λ z m. apart z (ground arith)),
)

pub IsNodup-snoc : (xs : List ℕ) (x : ℕ) → IsNodup xs → mem x xs ≡ false → IsNodup (xs ++ x ∷ [])
IsNodup-snoc xs x h out =
    IsNodup-append xs (x ∷ []) h (refl, tt)
      λ z m. elim (Bool-cases (z == x)) [ inl e ↦ absurd (ground arith) | inr e ↦ ground arith ]

pub IsNodup-left : (xs ys : List ℕ) → IsNodup (xs ++ ys) → IsNodup xs
IsNodup-left [] ys h = tt
IsNodup-left (x ∷ xs) ys h = (ground (arith, mem-append x xs ys), IsNodup-left xs ys h.1)

pub IsNodup-apart :
    (xs ys : List ℕ) (x : ℕ) → IsNodup (xs ++ ys) → mem x xs ≡ true → mem x ys ≡ false
IsNodup-apart [] ys x h m = ground arith
IsNodup-apart (z ∷ xs) ys x h m = ground (arith, mem-append z xs ys, IsNodup-apart xs ys x h.1)

-- `xs` without the first `x`.
remove : ℕ → List ℕ → List ℕ
remove x [] = []
remove x (y ∷ ys) = let rest = y ∷ remove x ys in if x == y then ys else rest

length-remove : (x : ℕ) (xs : List ℕ) → mem x xs ≡ true → suc (length (remove x xs)) ≡ length xs
unfolding remove
length-remove x [] h = ground arith
length-remove x (y ∷ ys) h = ground (arith, length-remove x ys)

mem-remove_ne : (z x : ℕ) (xs : List ℕ) → z ≢ x → mem z xs ≡ true → mem z (remove x xs) ≡ true
unfolding remove
mem-remove_ne z x [] ne h = h
mem-remove_ne z x (y ∷ ys) ne h = ground (arith, mem-remove_ne z x ys ne)

-- A list without repetition is no longer than a list that holds all of it.
pub length-le_of_subset : (xs ys : List ℕ) → IsNodup xs → IsSubset xs ys → length xs ≤ length ys
length-le_of_subset [] ys h sub = omega arith
length-le_of_subset (x ∷ xs) ys h sub =
    let here : mem x ys ≡ true = sub x (ground arith) in
    let rest : IsSubset xs (remove x ys) =
      λ z m. mem-remove_ne z x ys (ground arith) (sub z (ground arith)) in
    omega (arith, length-remove x ys here, length-le_of_subset xs (remove x ys) h.1 rest)

pub mem-filter : (p : ℕ → Bool) (x : ℕ) (xs : List ℕ) → mem x (filter p xs) ≡ (p x && mem x xs)
mem-filter p x [] = ground arith
mem-filter p x (y ∷ xs) = elim (Bool-cases (x == y)) [
  | inl e ↦ let same : x ≡ y = (==_iff x y).0 e in ground (arith, mem-filter p x xs, ap p same)
  | inr e ↦ ground (arith, mem-filter p x xs)
]

pub IsNodup-filter : (p : ℕ → Bool) (xs : List ℕ) → IsNodup xs → IsNodup (filter p xs)
IsNodup-filter p [] h = tt
IsNodup-filter p (x ∷ xs) h = ground (arith, mem-filter p x xs, IsNodup-filter p xs h.1)

-- A list without repetition that lies in one no longer than it holds all of that one.
pub subset_of_length :
    (xs ys : List ℕ) → IsNodup xs → IsSubset xs ys → length ys ≤ length xs → IsSubset ys xs
subset_of_length xs ys once sub short y m = elim (Bool-cases (mem y xs)) [
  | inl there ↦ there
  | inr absent ↦
      let within : IsSubset (y ∷ xs) ys = λ z h. elim (Bool-cases (z == y)) [
        | inl e ↦ let same : z ≡ y = (==_iff z y).0 e in rw same m
        | inr e ↦ sub z (ground arith)
      ] in
      absurd (omega (arith, length-le_of_subset (y ∷ xs) ys (absent, once) within))
]

pub all_of_mem :
    (p : ℕ → Bool) (us : List ℕ) → ((u : ℕ) → mem u us ≡ true → p u ≡ true) → all p us ≡ true
all_of_mem p [] h = refl
all_of_mem p (u ∷ us) h = ground (arith, h u, all_of_mem p us (λ v m. h v (ground arith)))

pub all_at : (p : ℕ → Bool) (us : List ℕ) (u : ℕ) → all p us ≡ true → mem u us ≡ true → p u ≡ true
all_at p [] u h m = absurd (ground arith)
all_at p (v ∷ us) u h m = elim (Bool-cases (u == v)) [
  | inl e ↦ let same : u ≡ v = (==_iff u v).0 e in ground (arith, ap p same)
  | inr e ↦ ground (arith, all_at p us u)
]

pub any_of_mem :
    (p : ℕ → Bool) (us : List ℕ) (u : ℕ) → mem u us ≡ true → p u ≡ true → any p us ≡ true
any_of_mem p [] u m h = absurd (ground arith)
any_of_mem p (v ∷ us) u m h = elim (Bool-cases (u == v)) [
  | inl e ↦ let same : u ≡ v = (==_iff u v).0 e in ground (arith, ap p same)
  | inr e ↦ ground (arith, any_of_mem p us u)
]

pub any_at :
    (p : ℕ → Bool) (us : List ℕ) → any p us ≡ true → (u : ℕ) × (mem u us ≡ true) × (p u ≡ true)
any_at p [] h = absurd (ground arith)
any_at p (v ∷ us) h = elim (Bool-cases (p v)) [
  | inl e ↦ (v, ground arith, e)
  | inr e ↦ let (u, m, k) = any_at p us (ground (arith, h, e)) in (u, ground (arith, m), k)
]
