-- ===== src/Nfa/Concatenate/Epsilon/Language.antt =====
-- src/nfa/concatenation.cc: `concatenate_eps` makes the concatenation with an epsilon in between.
use mata.Common.{
  ℕ, ◌+◌, ◌-◌, ◌≤◌, ◌<◌, ◌≡◌, refl, sym, ap, subst, ◌⊎◌, ◌↔◌, inl, inr, Bool, true, false, ◌||◌,
  List, [], ◌∷◌, ◌++◌, some, arith, ◌==◌, if◌then◌else◌, Bool-cases,
}
use mata.OrdVector.{ℕ_ranked}
use mata.SparseSet.{SparseSet, contains, elements, empty_set}
use mata.SparseSet.Invariant.{IsConsistent-empty}
use mata.Delta.Relation.{has}
use mata.Nfa.{Nfa, empty_nfa, num_of_states}
use mata.Nfa.Language.{Leads, Accepts, IsNfa, Leads-append, Leads-mono, source_lt, without}
use mata.Nfa.RemoveEpsilon.{remove_epsilon}
use mata.Nfa.RemoveEpsilon.Language.{Accepts-remove_epsilon}
use mata.Nfa.Concatenate.Epsilon.{concatenate_eps, default_epsilon}
use mata.Nfa.Concatenate.Epsilon.Transitions
use mata.Nfa.Concatenate.Epsilon.Transitions.{
  first_Adds, second_Adds, has-result, contains-result, initial_low, final_low, add_state_at-room,
}
use mata.Nfa.Concatenate.Epsilon.Loops.{names, insert_renamed_correct}

module _ (lhs rhs : Nfa) (h : IsNfa lhs) (k : IsNfa rhs) (e : ℕ) where
  abbrev n : ℕ
  n = num_of_states lhs

  abbrev m : ℕ
  m = num_of_states rhs

  abbrev result : Nfa
  result = Transitions.result lhs rhs h k e

  down : (r : ℕ) → (n + r) - n ≡ r
  down r = omega arith

  up : (r : ℕ) → n ≤ r → n + (r - n) ≡ r
  up r l = omega arith

  not_low : (q a r : ℕ) → (contains lhs.final (n + q) ≡ false) × (has lhs.delta (n + q) a r ≡ false)
  not_low q a r = (
    elim (Bool-cases (contains lhs.final (n + q))) [
      | inl there ↦ absurd (omega (arith, final_low lhs (n + q) there))
      | inr gone ↦ gone
    ],
    elim (Bool-cases (has lhs.delta (n + q) a r)) [
      | inl there ↦ absurd (omega (arith, source_lt lhs (n + q) a r there))
      | inr gone ↦ gone
    ],
  )

  high_iff :
      (q a r : ℕ)
      → (has result.delta (n + q) a r ≡ true) ↔ (n ≤ r) × (has rhs.delta q a (r - n) ≡ true)
  high_iff q a r =
      let (x, y) = not_low q a r in
      let same = ap (λ (p : ℕ). has rhs.delta p a (r - n)) (down q) in
      (
        λ t. ground (arith, has-result lhs rhs h k e (n + q) a r),
        λ (l, t).
            let lt = source_lt rhs q a (r - n) t in
            ground (arith, has-result lhs rhs h k e (n + q) a r),
      )

  high_Leads :
      (word : List ℕ) (q f : ℕ)
      → Leads result.delta (n + q) word f
      → (n ≤ f) × Leads rhs.delta q word (f - n)
  high_Leads [] q f l = (omega (arith, l), omega (arith, l))
  high_Leads (a ∷ word) q f (r, t, l) =
      let (low, t') = (high_iff q a r).0 t in
      let (above, l') =
        high_Leads word (r - n) f
          (subst (λ (x : ℕ). Leads result.delta x word f) (sym (up r low)) l) in
      (above, (r - n, t', l'))

  Leads-high :
      (word : List ℕ) (q f : ℕ) → Leads rhs.delta q word f → Leads result.delta (n + q) word (n + f)
  Leads-high [] q f l = ap (λ (x : ℕ). n + x) l
  Leads-high (a ∷ word) q f (r, t, l) = (
    n + r,
    (high_iff q a (n + r)).1
        (omega arith, subst (λ (x : ℕ). has rhs.delta q a x ≡ true) (sym (down r)) t),
    Leads-high word r f l,
  )

  low_cases :
      (q a r : ℕ)
      → q < n
      → has result.delta q a r ≡ true
      → (has lhs.delta q a r ≡ true)
        ⊎ (contains lhs.final q ≡ true) × (a ≡ e) × (n ≤ r) × (contains rhs.initial (r - n) ≡ true)
  low_cases q a r l t = elim (Bool-cases (has lhs.delta q a r)) [
    | inl old ↦ inl old
    | inr new ↦ inr (ground (arith, has-result lhs rhs h k e q a r))
  ]

  -- The word leads through `lhs`, by the epsilon, and through `rhs`.
  abbrev Crosses : ℕ → List ℕ → ℕ → Type 0
  Crosses q word f =
      (u : List ℕ) × (v : List ℕ) × (word ≡ u ++ e ∷ v)
      × ((p : ℕ) × Leads lhs.delta q u p × (contains lhs.final p ≡ true))
      × ((i : ℕ) × (contains rhs.initial i ≡ true) × (n ≤ f) × Leads rhs.delta i v (f - n))

  low_Leads :
      (word : List ℕ) (q f : ℕ) → q < n → Leads result.delta q word f → (f < n) ⊎ Crosses q word f
  low_Leads [] q f lt l = inl (omega (arith, l))
  low_Leads (a ∷ word) q f lt (r, t, l) = elim (low_cases q a r lt t) [
    | inl old ↦ elim (low_Leads word r f (h.targets_lt q a r old) l) [
      | inl low ↦ inl low
      | inr (u, v, s, (p, l', cp), rest) ↦
          inr (a ∷ u, v, ap (λ (w : List ℕ). a ∷ w) s, (p, (r, old, l'), cp), rest)
    ]
    | inr (cf, same, above, ci) ↦
        let (high, run) =
          high_Leads word (r - n) f
            (subst (λ (x : ℕ). Leads result.delta x word f) (sym (up r above)) l) in
        inr ([], word, ap (λ (x : ℕ). x ∷ word) same, (q, refl, cf), (r - n, ci, high, run))
  ]

  result_iff :
      (word : List ℕ)
      → Accepts result word
        ↔ ((u : List ℕ) × (v : List ℕ) × (word ≡ u ++ e ∷ v) × Accepts lhs u × Accepts rhs v)
  result_iff word = (
    λ (f, (i, ci, l), cf).
        let (above, cf') = final_high f cf in
        elim (low_Leads word i f (initial_low lhs i ci) l) [
          | inl low ↦ absurd (omega arith)
          | inr (u, v, s, (p, l', cp), (j, cj, high, run)) ↦
              (u, v, s, (p, (i, ci, l'), cp), (f - n, (j, cj, run), cf'))
        ],
    λ (u, v, s, (p, (i, ci, l), cp), (g, (j, cj, run), cg)).
        let first =
          Leads-mono lhs.delta result.delta
            (λ q a r t. ground (arith, has-result lhs rhs h k e q a r)) u i p l in
        let same = ap (contains rhs.initial) (down j) in
        let cross : has result.delta p e (n + j) ≡ true =
          ground (arith, has-result lhs rhs h k e p e (n + j)) in
        let end = ap (contains rhs.final) (down g) in
        subst (λ (w : List ℕ). Accepts result w) (sym s)
          (
            n + g,
            (
              i,
              ci,
              (Leads-append result.delta u (e ∷ v) i (n + g)).1
                  (p, first, (n + j, cross, Leads-high v j g run)),
            ),
            ground (arith, contains-result lhs rhs h k e (n + g)),
          ),
  )
    where
      final_high :
          (f : ℕ) → contains result.final f ≡ true → (n ≤ f) × (contains rhs.final (f - n) ≡ true)
      final_high f c = ground (arith, contains-result lhs rhs h k e f)

  result-IsNfa : IsNfa result
  result-IsNfa = record {
    delta_lem = (second_Adds lhs rhs h k e).kept;
    initial_lem = h.initial_lem;
    final_lem =
        (insert_renamed_correct (names n m) (elements rhs.final) empty_set IsConsistent-empty).0;
    targets_lt = λ q a r t.
        let room = add_state_at-room ((n + m) - 1) lhs.delta in
        let grows = (first_Adds lhs rhs h k e).room in
        let grows' = (second_Adds lhs rhs h k e).room in
        let low : r < n + m = bound q a r t in unfold num_of_states in omega arith;
  }
    where
      bound : (q a r : ℕ) → has result.delta q a r ≡ true → r < n + m
      bound q a r t = ground (
        arith,
        has-result lhs rhs h k e q a r,
        h.targets_lt q a r,
        k.targets_lt (q - n) a (r - n),
        initial_low rhs (r - n),
      )

  -- A run of `lhs`, the epsilon, and a run of `rhs`.
  abbrev pub Joins : List ℕ → Type 0
  Joins run = (u : List ℕ) × (v : List ℕ) × (run ≡ u ++ e ∷ v) × Accepts lhs u × Accepts rhs v

  abbrev missing_part : Bool
  missing_part =
      n == 0
      || m == 0
      || lhs.initial.size == 0
      || lhs.final.size == 0
      || rhs.initial.size == 0
      || rhs.final.size == 0

  filled : (s : SparseSet) (j : ℕ) → contains s j ≡ true → (s.size == 0) ≡ false
  filled s j c = unfold contains in ground arith

  no_Joins : (run : List ℕ) → missing_part ≡ true → Joins run → ⊥
  no_Joins run e (u, v, _, (p, (i, ci, l), cp), (g, (j, cj, l'), cg)) = ground (
    arith,
    filled lhs.initial i ci,
    filled lhs.final p cp,
    filled rhs.initial j cj,
    filled rhs.final g cg,
    initial_low lhs i ci,
    initial_low rhs j cj,
  )

  empty-Accepts : (word : List ℕ) → Accepts empty_nfa word → ⊥
  empty-Accepts word (f, (i, ci, l), cf) = unfold contains in ground arith

  -- For two well-formed automata and any epsilon: with `use_epsilon`, `concatenate_eps` returns an
  -- automaton that accepts exactly the words made of a word of the first one, the epsilon and a
  -- word of the second one; without it, one that accepts exactly what is left of these words when
  -- `EPSILON`, whichever epsilon was given, is left out. This also holds where one of them has no
  -- states, no initial or no final states.
  pub Accepts-concatenate_eps :
      (use_epsilon : Bool)
      → (joined : Nfa) × (concatenate_eps lhs rhs e use_epsilon ≡ some joined)
        × ((word : List ℕ)
            → Accepts joined word ↔ (
                (run : List ℕ) × ((if use_epsilon then run else without default_epsilon run) ≡ word)
                × Joins run))
  unfolding concatenate_eps
  Accepts-concatenate_eps use_epsilon = elim (Bool-cases missing_part) [
    | inl empty ↦ rw empty (
      empty_nfa,
      refl,
      λ word.
          (λ x. elim (empty-Accepts word x) [ ], λ (run, _, x). elim (no_Joins run empty x) [ ]),
    )
    | inr full ↦ rw full (both use_epsilon)
  ]
    where
      both :
          (kept : Bool)
          → (joined : Nfa) × ((if kept then some result else remove_epsilon default_epsilon result)
              ≡ some joined)
            × ((word : List ℕ)
                → Accepts joined word ↔ (
                    (run : List ℕ) × ((if kept then run else without default_epsilon run) ≡ word)
                    × Joins run))
      both true = (
        result,
        refl,
        λ word. (
          λ x. (word, refl, (result_iff word).0 x),
          λ (run, same, x). subst (λ (w : List ℕ). Accepts result w) same ((result_iff run).1 x),
        ),
      )
      both false =
          let (silent, ends, words) = Accepts-remove_epsilon default_epsilon result result-IsNfa in
          (
            silent,
            ends,
            λ word.
                let (f, g) = words word in
                (
                  λ x. let (run, same, y) = f x in (run, same, (result_iff run).0 y),
                  λ (run, same, x). g (run, same, (result_iff run).1 x),
                ),
          )
