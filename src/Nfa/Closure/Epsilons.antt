-- ===== src/Nfa/Closure/Epsilons.antt =====
-- src/nfa/nfa.cc: `mk_epsilon_closure` adds exactly the states that epsilon transitions lead to.
use mata.Common.{
  ℕ, zero, suc, ◌+◌, ◌≤◌, ◌<◌, ◌≡◌, refl, sym, ap, ◌∙◌, ◌↔◌, inl, inr, Bool, true, false, ◌||◌,
  List, [], ◌∷◌, ◌++◌, some, arith, ◌==◌, ==_iff, ==_refl, if◌then◌else◌, Bool-cases, Option-cases,
  length, length-append, get_or,
}
use mata.OrdVector.{ℕ_ranked, IsSorted, member, insert, lookup}
use mata.OrdVector.Order.{insert-IsSorted}
use mata.OrdVector.Lookup.{member-insert, inserted-insert, find_elem-eq-lookup}
use mata.Delta.{StatePost, SymbolPost_ranked, state_post}
use mata.Delta.Post.{targets_of}
use mata.Delta.Relation.{has}
use mata.Nfa.{Nfa, num_of_states, close_targets, close_epsilons, close_loop, mk_epsilon_closure}
use mata.Nfa.Language.{IsNfa}
use mata.Worklist.{
  Reached, start, Marks, Marks-none, Marks-ext, Marks-trans, Searching, Searching-step,
  Searching-end,
}

-- How many numbers below `n` are not in the list.
abbrev pub missing : ℕ → List ℕ → ℕ
missing zero xs = 0
missing (suc n) xs = (if member n xs then 0 else 1) + missing n xs

pub missing-le : (n : ℕ) (xs : List ℕ) → missing n xs ≤ n
missing-le zero xs = omega arith
missing-le (suc n) xs = ground (arith, missing-le n xs)

missing_same :
    (n t : ℕ) (xs ys : List ℕ)
    → ((q : ℕ) → member q ys ≡ (t == q || member q xs))
    → n ≤ t
    → missing n ys ≡ missing n xs
missing_same zero t xs ys h l = refl
missing_same (suc n) t xs ys h l = ground (arith, h n, missing_same n t xs ys h (omega arith))

missing_ext :
    (n : ℕ) (xs ys : List ℕ) → ((q : ℕ) → member q ys ≡ member q xs) → missing n ys ≡ missing n xs
missing_ext zero xs ys h = refl
missing_ext (suc n) xs ys h = ground (arith, h n, missing_ext n xs ys h)

-- A new number below `n` leaves one less.
missing_less :
    (n t : ℕ) (xs ys : List ℕ)
    → ((q : ℕ) → member q ys ≡ (t == q || member q xs))
    → t < n
    → member t xs ≡ false
    → suc (missing n ys) ≡ missing n xs
missing_less zero t xs ys h l new = absurd (omega arith)
missing_less (suc n) t xs ys h l new = elim (Bool-cases (t == n)) [
  | inl here ↦
      let same : t ≡ n = (==_iff t n).0 here in
      let fresh : member n xs ≡ false = ap (λ (x : ℕ). member x xs) (sym same) ∙ new in
      ground (arith, h n, missing_same n t xs ys h (omega arith))
  | inr there ↦ ground (arith, h n, missing_less n t xs ys h (ground arith) new)
]

member-append : (q : ℕ) (xs ys : List ℕ) → member q (xs ++ ys) ≡ (member q xs || member q ys)
member-append q [] ys = refl
member-append q (x ∷ xs) ys = ground (arith, member-append q xs ys)

-- The search: the closure is what is marked.
module _ (n : ℕ) where
  abbrev Closing : Type 0
  Closing = List ℕ × List ℕ

  abbrev closure_of : Closing → ℕ → Bool
  closure_of st q = member q st.0

  abbrev ClosingMarks : (ℕ → Type 0) → Closing → Closing → Type 0
  ClosingMarks =
      Marks (λ (st : Closing). st.1) closure_of (λ (st : Closing). missing n st.0)
        (λ (st : Closing). IsSorted st.0)

  push_one :
      (t : ℕ) (closure worklist : List ℕ)
      → t < n
      → IsSorted closure
      → ClosingMarks
          (λ q. t ≡ q)
          (closure, worklist)
          (
            (insert t closure).vec,
            if (insert t closure).inserted then worklist ++ t ∷ [] else worklist,
          )
  push_one t closure worklist l s =
      let vec = (insert t closure).vec in
      let all : (q : ℕ) → member q vec ≡ (t == q || member q closure) =
        λ q. member-insert q t closure in
      let sorted = insert-IsSorted t closure s in
      let new = inserted-insert t closure s in
      elim (Bool-cases (member t closure)) [
        | inl there ↦
            let same : (q : ℕ) → member q vec ≡ member q closure = λ q. all q ∙ again q there in
            rw (new, there)
              (record {
                good = sorted;
                rounds = omega (arith, missing_ext n closure vec same);
                keeps = λ q m. same q ∙ m;
                sound = λ q m. inl (sym (same q) ∙ m);
                complete = λ q e. same q ∙ ap (λ (x : ℕ). member x closure) (sym e) ∙ there;
                stays_in = λ q m. m;
                work_marked = λ q m. inl m;
                pushed = λ q m. inl (sym (same q) ∙ m);
              })
        | inr fresh ↦
            rw (new, fresh)
              (record {
                good = sorted;
                rounds = omega (
                  arith,
                  length-append worklist (t ∷ []),
                  missing_less n t closure vec all l fresh,
                );
                keeps = λ q m. ground (arith, all q);
                sound = λ q m. elim (Bool-cases (t == q)) [
                  | inl here ↦ inr ((==_iff t q).0 here)
                  | inr other ↦ inl (ground (arith, all q))
                ];
                complete = λ q e. ground (arith, all q);
                stays_in = λ q m. ground (arith, member-append q worklist (t ∷ []));
                work_marked = λ q m. elim (Bool-cases (t == q)) [
                  | inl here ↦ inr (ground (arith, all q))
                  | inr other ↦ inl (ground (arith, member-append q worklist (t ∷ [])))
                ];
                pushed = λ q m. elim (Bool-cases (t == q)) [
                  | inl here ↦ inr (ground (arith, member-append q worklist (t ∷ [])))
                  | inr other ↦ inl (ground (arith, all q))
                ];
              })
      ]
    where
      again : (q : ℕ) → member t closure ≡ true → (t == q || member q closure) ≡ member q closure
      again q there = elim (Bool-cases (t == q)) [
        | inl here ↦
            rw here (sym (ap (λ (x : ℕ). member x closure) (sym ((==_iff t q).0 here)) ∙ there))
        | inr other ↦ rw other refl
      ]

  close_targets-Marks :
      (targets closure worklist : List ℕ)
      → ((t : ℕ) → member t targets ≡ true → t < n)
      → IsSorted closure
      → ClosingMarks
          (λ q. member q targets ≡ true)
          (closure, worklist)
          (close_targets targets (closure, worklist))
  unfolding close_targets
  close_targets-Marks [] closure worklist room s =
      Marks-ext _ _ _ _ (λ q. (λ t. elim t [ ], λ m. cc m))
        (Marks-none _ _ _ _ (closure, worklist) s)
  close_targets-Marks (t ∷ ts) closure worklist room s =
      let one = push_one t closure worklist (room t (ground (arith, ==_refl t))) s in
      let rest =
        close_targets-Marks ts (insert t closure).vec
          (if (insert t closure).inserted then worklist ++ t ∷ [] else worklist)
          (λ j m. room j (ground arith)) one.good in
      Marks-ext _ _ _ _
        (λ q. (
          λ o. elim o [ inl e ↦ ground arith | inr m ↦ ground arith ],
          λ m. elim (Bool-cases (t == q)) [
            | inl here ↦ inl ((==_iff t q).0 here)
            | inr other ↦ inr (ground arith)
          ],
        ))
        (Marks-trans _ _ _ _ one rest)

  close_epsilons-Marks :
      (post : StatePost) (epsilons : List ℕ) (st : Closing)
      → IsSorted post
      → ((e t : ℕ) → member t (targets_of e post) ≡ true → t < n)
      → IsSorted st.0
      → ClosingMarks
          (λ q. (e : ℕ) × (member e epsilons ≡ true) × (member q (targets_of e post) ≡ true))
          st
          (close_epsilons post epsilons st)
  unfolding close_epsilons
  close_epsilons-Marks post [] st o room s =
      Marks-ext _ _ _ _ (λ q. (λ t. elim t [ ], λ (e, m, _). cc m)) (Marks-none _ _ _ _ st s)
  close_epsilons-Marks post (e ∷ es) st o room s =
      let found = find_elem-eq-lookup e post o in
      elim (Option-cases (lookup e post)) [
        | inl none_there ↦
            let gone : targets_of e post ≡ [] = rw (targets_of, none_there) refl in
            rw (found, none_there)
              (Marks-ext _ _ _ _
                (λ q. (
                  λ (b, m, t). (b, ground arith, t),
                  λ (b, m, t). elim (Bool-cases (e == b)) [
                    | inl here ↦ cc (
                      ap (λ (x : ℕ). member q (targets_of x post)) ((==_iff e b).0 here),
                      ap (member q) gone,
                      t,
                    )
                    | inr other ↦ (b, ground arith, t)
                  ],
                ))
                (close_epsilons-Marks post es st o room s))
        | inr (p, there) ↦
            let targets : targets_of e post ≡ p.targets = rw (targets_of, there) refl in
            let one =
              close_targets-Marks p.targets st.0 st.1 (λ t m. room e t (ap (member t) targets ∙ m))
                s in
            rw (found, there)
              (Marks-ext _ _ _ _
                (λ q. (
                  λ c. elim c [
                    | inl m ↦ (e, ground (arith, ==_refl e), ap (member q) targets ∙ m)
                    | inr (b, m, t) ↦ (b, ground arith, t)
                  ],
                  λ (b, m, t). elim (Bool-cases (e == b)) [
                    | inl here ↦ inl (
                        sym (ap (member q) targets)
                        ∙ ap (λ (x : ℕ). member q (targets_of x post)) ((==_iff e b).0 here)
                        ∙ t)
                    | inr other ↦ inr (b, ground arith, t)
                  ],
                ))
                (Marks-trans _ _ _ _ one
                  (close_epsilons-Marks post es (close_targets p.targets st) o room one.good)))
      ]

abbrev pub IsSource : List ℕ → ℕ → Type 0
IsSource source_states q = member q source_states ≡ true

-- A transition under one of the epsilons.
abbrev pub EpsilonEdge : Nfa → List ℕ → ℕ → ℕ → Type 0
EpsilonEdge nfa epsilons q r = (e : ℕ) × (member e epsilons ≡ true) × (has nfa.delta q e r ≡ true)

-- The search of `mk_epsilon_closure` from the given states.
module _ (nfa : Nfa) (h : IsNfa nfa) (source_states epsilons : List ℕ) where
  abbrev n : ℕ
  n = num_of_states nfa

  abbrev Closes : Closing n → Type 0
  Closes =
      Searching (λ (st : Closing n). st.1) (closure_of n) (λ (st : Closing n). missing n st.0)
        (λ (st : Closing n). IsSorted st.0) (IsSource source_states) (EpsilonEdge nfa epsilons)

  Closes-step :
      (state : ℕ) (closure worklist : List ℕ)
      → Closes (closure, state ∷ worklist)
      → Closes (close_epsilons (get_or nfa.delta state []) epsilons (closure, worklist))
        × (length (close_epsilons (get_or nfa.delta state []) epsilons (closure, worklist)).1
              + missing n
                  (close_epsilons (get_or nfa.delta state []) epsilons (closure, worklist)).0
            ≡ length worklist + missing n closure)
  Closes-step state closure worklist g =
      let marks =
        close_epsilons-Marks n (get_or nfa.delta state []) epsilons (closure, worklist)
          (h.delta_lem.posts state).sorted (λ e t m. h.targets_lt state e t m) g.good in
      (
        Searching-step _ _ _ _ (IsSource source_states) (EpsilonEdge nfa epsilons) state
            (closure, state ∷ worklist) (closure, worklist) _ refl (λ q. refl) marks g,
        marks.rounds,
      )

  loop-Closes :
      (fuel : ℕ) (closure worklist : List ℕ)
      → Closes (closure, worklist)
      → length worklist + missing n closure < fuel
      → (closed : List ℕ) × (close_loop nfa.delta epsilons fuel closure worklist ≡ some closed)
        × Closes (closed, [])
  unfolding close_loop state_post
  loop-Closes zero closure worklist g l = absurd (omega arith)
  loop-Closes (suc fuel) closure [] g l = (closure, refl, g)
  loop-Closes (suc fuel) closure (state ∷ worklist) g l =
      let (next, rounds) = Closes-step state closure worklist g in
      loop-Closes fuel _ _ next (omega arith)

  -- For a well-formed automaton and a sorted set of states, the loop of `mk_epsilon_closure` comes
  -- to an empty queue within as many rounds as there are given states and states of the automaton,
  -- and it returns a sorted set of exactly the states that transitions under the given epsilons
  -- lead to from the given states.
  pub mk_epsilon_closure_correct :
      IsSorted source_states
      → (closure : List ℕ) × (mk_epsilon_closure nfa source_states epsilons ≡ some closure)
        × IsSorted closure
        × ((q : ℕ)
            → (member q closure ≡ true)
              ↔ Reached (IsSource source_states) (EpsilonEdge nfa epsilons) q)
  unfolding mk_epsilon_closure
  mk_epsilon_closure_correct sorted =
      let first : Closes (source_states, source_states) = record {
        good = sorted;
        reached = λ q m. start m;
        work_marked = λ q m. m;
        starts = λ q m. m;
        closed = λ q m. inl m;
      } in
      let (closure, ends, last) =
        loop-Closes (length source_states + n + 1) source_states source_states first
          (omega (arith, missing-le n source_states)) in
      (
        closure,
        ends,
        last.good,
        Searching-end _ _ _ _ (IsSource source_states) (EpsilonEdge nfa epsilons) _ refl last,
      )
