-- ===== src/Distributed/Receiver.antt =====
-- The window of the receiver: its bound, and what a message that comes again does.
use dynamic_neural_computing.Prelude.{
  ℕ, suc, ◌≡◌, ◌≤◌, ◌<◌, refl, ap, subst, ◌∙◌, true, false, not, ◌==◌, ◌&&◌, ◌||◌, Option, none,
  some, List, [], ◌∷◌, mem, length, ltb, Dict, contains, insert, keys, IsNodup, IsNodup-insert,
  IsNodup-erase, lookup-insert, lookup-erase, arith, Bool-cases, Option-cases, inl, inr, ==_iff,
}
use dynamic_neural_computing.Distributed.{
  DistributedHandoffMessage, Result, CachedResult, IdempotentReceiver, new_receiver, oldest_from,
  oldest, discard, forget, shrink, remember,
}

mem-discard :
    (x k : ℕ) (xs : List ℕ) → IsNodup xs → mem x (discard k xs) ≡ (not (x == k) && mem x xs)
mem-discard x k [] h = ground arith
mem-discard x k (y ∷ ys) h = elim (Bool-cases (k == y)) [
  | inl same ↦ elim (Bool-cases (x == k)) [
    | inl here ↦
        let gone : mem x ys ≡ false =
          ap (λ z. mem z ys) ((==_iff x k).0 here ∙ (==_iff k y).0 same) ∙ h.0 in
        ground (arith, same, here, gone)
    | inr other ↦ ground (arith, same, other)
  ]
  | inr other ↦ ground (arith, other, mem-discard x k ys h.1)
]

IsNodup-discard : (k : ℕ) (xs : List ℕ) → IsNodup xs → IsNodup (discard k xs)
IsNodup-discard k [] h = tt
IsNodup-discard k (y ∷ ys) h =
    ground (arith, IsNodup-discard k ys h.1, mem-discard y k ys h.1, h.0, h.1)

length-discard : (k : ℕ) (xs : List ℕ) → mem k xs ≡ true → suc (length (discard k xs)) ≡ length xs
length-discard k [] h = ground (arith, h)
length-discard k (y ∷ ys) h = ground (arith, length-discard k ys, h)

-- The oldest entry is an entry.
contains-oldest_from :
    (k : ℕ) (c : CachedResult) (d : Dict CachedResult)
    → (oldest_from k c d == k || contains (oldest_from k c d) d) ≡ true
unfolding oldest_from
contains-oldest_from k c [] = ground arith
contains-oldest_from k c ((j, x) ∷ d) = elim (Bool-cases (ltb x.timestamp c.timestamp)) [
  | inl t ↦
      let here : oldest_from k c ((j, x) ∷ d) ≡ oldest_from j x d = ground (arith, t) in
      ground (arith, here, contains-oldest_from j x d)
  | inr f ↦
      let here : oldest_from k c ((j, x) ∷ d) ≡ oldest_from k c d = ground (arith, f) in
      ground (arith, here, contains-oldest_from k c d)
]

contains-oldest : (k : ℕ) (d : Dict CachedResult) → oldest d ≡ some k → contains k d ≡ true
unfolding oldest
contains-oldest k [] e = absurd (ground (arith, e))
contains-oldest k ((j, c) ∷ d) e =
    let here : oldest_from j c d ≡ k =
      ap {A = Option ℕ} (λ o. elim o [ none ↦ oldest_from j c d | some x ↦ x ]) e in
    subst (λ x. contains x ((j, c) ∷ d) ≡ true) here (ground (arith, contains-oldest_from j c d))

nothing_old : (d : Dict CachedResult) → oldest d ≡ none → (i : ℕ) → contains i d ≡ false
unfolding oldest
nothing_old [] e i = refl
nothing_old ((j, c) ∷ d) e i = absurd (ground (arith, e))

empty_of_absent : (xs : List ℕ) → ((i : ℕ) → mem i xs ≡ false) → length xs ≡ 0
empty_of_absent [] h = refl
empty_of_absent (x ∷ xs) h = absurd (ground (arith, h x))

-- The identities that were seen are those with a result, each once, and they fit in the window.
pub record IsValid (r : IdempotentReceiver) : Type 0 where
  pub recorded : (i : ℕ) → mem i r.seen_ids ≡ contains i r.message_history
  pub distinct : IsNodup r.seen_ids
  pub keyed : IsNodup (keys r.message_history)
  pub bounded : length r.seen_ids ≤ r.window_size

-- With one identity too many, the window loses its oldest message.
shrink-IsValid :
    (r : IdempotentReceiver)
    → ((i : ℕ) → mem i r.seen_ids ≡ contains i r.message_history)
    → IsNodup r.seen_ids
    → IsNodup (keys r.message_history)
    → length r.seen_ids ≤ suc r.window_size
    → IsValid (shrink r)
unfolding shrink
shrink-IsValid r recorded distinct keyed near =
    elim (Bool-cases (ltb r.window_size (length r.seen_ids))) [
      | inr f ↦ rw f (record {
        recorded = recorded;
        distinct = distinct;
        keyed = keyed;
        bounded = ground (arith, f);
      })
      | inl t ↦ elim (Option-cases (oldest r.message_history)) [
        | inl nothing ↦
            let none_seen : length r.seen_ids ≡ 0 =
              empty_of_absent r.seen_ids
                (λ i. recorded i ∙ nothing_old r.message_history nothing i) in
            absurd (ground (arith, t, none_seen))
        | inr (k, found) ↦
            let there : mem k r.seen_ids ≡ true =
              recorded k ∙ contains-oldest k r.message_history found in
            rw (t, found)
              (unfold forget in
                record {
                  recorded = λ i.
                      mem-discard i k r.seen_ids distinct
                      ∙ ground (arith, recorded i, lookup-erase i k r.message_history keyed);
                  distinct = IsNodup-discard k r.seen_ids distinct;
                  keyed = IsNodup-erase k r.message_history keyed;
                  bounded = omega (arith, near, length-discard k r.seen_ids there);
                })
      ]
    ]

pub remember-IsValid :
    (now : ℕ) (m : DistributedHandoffMessage) (x : Result) (r : IdempotentReceiver)
    → IsValid r
    → IsValid (remember now m x r)
unfolding remember
remember-IsValid now m x r v = elim (Bool-cases (mem m.message_id r.seen_ids)) [
  | inl t ↦ rw t v
  | inr f ↦ rw f (
      shrink-IsValid
        (record {
          window_size = r.window_size;
          seen_ids = m.message_id ∷ r.seen_ids;
          message_history =
              insert m.message_id (record { result = x; timestamp = now }) r.message_history;
        })
        (λ i. ground (
          arith,
          v.recorded i,
          lookup-insert i m.message_id (record { result = x; timestamp = now }) r.message_history,
        ))
        (f, v.distinct)
        (IsNodup-insert m.message_id (record { result = x; timestamp = now }) r.message_history
          v.keyed)
        (omega (arith, v.bounded)))
]

pub new_receiver-IsValid : (window_size : ℕ) → IsValid (new_receiver window_size)
unfolding new_receiver
new_receiver-IsValid window_size = record {
  recorded = λ i. refl;
  distinct = tt;
  keyed = tt;
  bounded = omega arith;
}

-- While the window has room, what was seen stays seen, and the new message is seen.
pub remember_seen :
    (now : ℕ) (m : DistributedHandoffMessage) (x : Result) (r : IdempotentReceiver) (i : ℕ)
    → length r.seen_ids < r.window_size
    → (mem i (remember now m x r).seen_ids ≡ (i == m.message_id || mem i r.seen_ids))
      × (length (remember now m x r).seen_ids ≤ suc (length r.seen_ids))
      × ((remember now m x r).window_size ≡ r.window_size)
unfolding remember shrink
remember_seen now m x r i room = elim (Bool-cases (mem m.message_id r.seen_ids)) [
  | inl t ↦ rw t (elim (Bool-cases (i == m.message_id)) [
    | inl same ↦
        let met : mem i r.seen_ids ≡ true =
          ap (λ y. mem y r.seen_ids) ((==_iff i m.message_id).0 same) ∙ t in
        (ground (arith, met), omega arith, refl)
    | inr other ↦ (ground (arith, other), omega arith, refl)
  ])
  | inr f ↦
      let small : ltb r.window_size (suc (length r.seen_ids)) ≡ false = ground (arith, room) in
      rw (f, small) (refl, omega arith, refl)
]
