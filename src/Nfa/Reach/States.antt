-- ===== src/Nfa/Reach/States.antt =====
-- src/nfa/nfa.cc: `get_reachable_states` collects the states that some word leads to.
use mata.Common.{
  ℕ, zero, suc, ◌+◌, ◌<◌, ◌≡◌, refl, ap, subst, ◌↔◌, inl, inr, Bool, true, ◌&&◌, ◌||◌, List, [],
  ◌∷◌, ◌++◌, Option, none, some, arith, leb, ltb, ◌==◌, ==_iff, Bool-cases,
}
use mata.OrdVector.{ℕ_ranked, IsSorted, member}
use mata.OrdVector
use mata.OrdVector.Order.{insert-IsSorted}
use mata.OrdVector.Lookup.{member-insert}
use mata.Nfa.{Nfa, num_of_states}
use mata.Nfa.Language.{Reads, Leads, IsNfa, Leads-append}
use mata.Nfa.Complete.Start.{contains-lt}
use mata.Nfa.Reach.{marked, collect_states, get_reachable_states}
use mata.Worklist.{start, step}
use mata.Worklist
use mata.Nfa.Reach.Reached.{IsStart, IsEdge, marked-reachable_states}

-- `not filter || filter(state)`
abbrev pub allows : Option (ℕ → Bool) → ℕ → Bool
allows filter q = elim filter [ none ↦ true | some test ↦ test q ]

collect_states_correct :
    (reachable : List Bool) (filter : Option (ℕ → Bool)) (count state : ℕ) (reached : List ℕ)
    → IsSorted reached
    → IsSorted (collect_states reachable filter count state reached)
      × ((j : ℕ)
          → member j (collect_states reachable filter count state reached) ≡ (
              leb state j && ltb j (state + count) && marked reachable j && allows filter j
              || member j reached))
unfolding collect_states
collect_states_correct reachable filter zero state reached s = (s, λ j. ground arith)
collect_states_correct reachable filter (suc count) state reached s =
    elim (Bool-cases (marked reachable state && allows filter state)) [
      | inl taken ↦
          let (kept, k) =
            collect_states_correct reachable filter count (suc state)
              (OrdVector.insert state reached).vec (insert-IsSorted state reached s) in
          rw taken (
            kept,
            λ j. elim (Bool-cases (state == j)) [
              | inl here ↦
                  let same = (==_iff state j).0 here in
                  let t = ap (λ (x : ℕ). marked reachable x && allows filter x) same in
                  ground (arith, k j, member-insert j state reached)
              | inr there ↦ ground (arith, k j, member-insert j state reached)
            ],
          )
      | inr left ↦
          let (kept, k) = collect_states_correct reachable filter count (suc state) reached s in
          rw left (
            kept,
            λ j. elim (Bool-cases (state == j)) [
              | inl here ↦
                  let same = (==_iff state j).0 here in
                  let t = ap (λ (x : ℕ). marked reachable x && allows filter x) same in
                  ground (arith, k j)
              | inr there ↦ ground (arith, k j)
            ],
          )
    ]

module _ (n : Nfa) (h : IsNfa n) where
  abbrev Reached : ℕ → Type 0
  Reached = Worklist.Reached (IsStart n none) (IsEdge n none)

  Reached-Reads : (q : ℕ) → Reached q → (word : List ℕ) × Reads n word q
  Reached-Reads q (start (ci, c)) = ([], (q, ci, refl))
  Reached-Reads q (step {q = p} r ((a, t), c)) =
      let (word, (i, ci, l)) = Reached-Reads p r in
      (word ++ a ∷ [], (i, ci, (Leads-append n.delta word (a ∷ []) i q).1 (p, l, (q, t, refl))))

  Leads-reached : (word : List ℕ) (p q : ℕ) → Reached p → Leads n.delta p word q → Reached q
  Leads-reached [] p q r e = subst (Reached) e r
  Leads-reached (a ∷ word) p q r (m, t, l) = Leads-reached word m q (step r ((a, t), refl)) l

  Reached-lt : (q : ℕ) → Reached q → q < num_of_states n
  Reached-lt q (start (ci, c)) =
      let lt = contains-lt n.initial q ci in unfold num_of_states in omega arith
  Reached-lt q (step {q = p} r ((a, t), c)) = h.targets_lt p a q t

  -- For a well-formed automaton, `get_reachable_states` returns a sorted vector of exactly the
  -- states that some word leads to from an initial state and that the filter allows.
  pub get_reachable_states_correct :
      (filter : Option (ℕ → Bool))
      → (states : List ℕ) × (get_reachable_states n filter ≡ some states)
        × IsSorted states
        × ((q : ℕ)
            → (member q states ≡ true)
              ↔ ((word : List ℕ) × Reads n word q) × (allows filter q ≡ true))
  unfolding get_reachable_states
  get_reachable_states_correct filter =
      let (reachable, ends, reached_iff) = marked-reachable_states n h none in
      let (sorted, k) = collect_states_correct reachable filter (num_of_states n) 0 [] tt in
      rw (get_reachable_states, ends)
        (
          collect_states reachable filter (num_of_states n) 0 [],
          refl,
          sorted,
          λ q.
              let (f, g) = reached_iff q in
              (
                λ m. (Reached-Reads q (f (ground (arith, k q))), ground (arith, k q)),
                λ ((word, (i, ci, l)), c).
                    let r = Leads-reached word i q (start (ci, refl)) l in
                    let mark = g r in let lt = Reached-lt q r in ground (arith, k q),
              ),
        )
