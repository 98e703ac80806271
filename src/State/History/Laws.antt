-- ===== src/State/History/Laws.antt =====
-- Entries stay in place, numbered from zero since the last truncation.
use mathlib.Core.Option
use dynamic_neural_computing.Prelude.{
  ℕ, suc, ◌+◌, ◌≡◌, refl, ap, Option, some, List, [], ◌∷◌, ◌++◌, length, get_elem?, length-append,
  get_elem?-append, get_elem?-append_left, ◌<◌, arith,
}
use dynamic_neural_computing.State.History.{HistoryEntry, HistoryLog, append, truncate, size}

module _ {A : Type 0} where
  -- The entries are numbered one after another, from `k` on.
  abbrev pub Numbered : ℕ → List (HistoryEntry A) → Type 0
  Numbered k [] = Unit
  Numbered k (e ∷ es) = (e.index ≡ k) × Numbered (suc k) es

  pub record IsNumbered (h : HistoryLog A) : Type 0 where
    pub numbered : Numbered 0 h.entries
    pub counted : h.index_counter ≡ length h.entries

module _ {A : Type 0} where
  Numbered-snoc :
      (k : ℕ) (es : List (HistoryEntry A)) (e : HistoryEntry A)
      → Numbered k es
      → e.index ≡ k + length es
      → Numbered k (es ++ e ∷ [])
  Numbered-snoc k [] e h i = (omega arith, tt)
  Numbered-snoc k (x ∷ es) e h i = (h.0, Numbered-snoc (suc k) es e h.1 (omega arith))

  -- An append to a numbered log keeps the numbering and returns the place of the new entry, which
  -- is read there, with every older entry left where it was.
  pub append-IsNumbered :
      (kind target : ℕ) (old new : A) (trigger : Option ℕ) (h : HistoryLog A) (i : ℕ)
      → IsNumbered h
      → i < size h
      → IsNumbered (append kind target old new trigger h).1
        × ((append kind target old new trigger h).0 ≡ size h)
        × (Option.map
              (λ e. e.after_value)
              (get_elem? (append kind target old new trigger h).1.entries (size h))
            ≡ some new)
        × (get_elem? (append kind target old new trigger h).1.entries i ≡ get_elem? h.entries i)
  unfolding append size
  append-IsNumbered kind target old new trigger h i v lt = (
    record {
      numbered = Numbered-snoc 0 h.entries _ v.numbered (omega (arith, v.counted));
      counted = omega (arith, length-append h.entries (_ ∷ []), v.counted);
    },
    v.counted,
    ap (Option.map (λ e. e.after_value)) (get_elem?-append h.entries _),
    get_elem?-append_left h.entries _ i lt,
  )

  -- A truncated log is empty and counts from zero again.
  pub truncate-IsNumbered : (h : HistoryLog A) → IsNumbered (truncate h) × (size (truncate h) ≡ 0)
  unfolding truncate size
  truncate-IsNumbered h = (record { numbered = tt; counted = refl }, refl)
