-- ===== src/Nfa/Reach/Reached.antt =====
-- src/nfa/nfa.cc: `reachable_states` marks exactly the states that the considered states reach.
use mata.Common.{
  ℕ, zero, suc, ◌+◌, ◌<◌, ◌≡◌, refl, sym, ap, ◌∙◌, ◌↔◌, inl, inr, Bool, true, false, ◌&&◌, ◌||◌,
  List, [], ◌∷◌, Option, some, arith, ◌==◌, ==_iff, ==_refl, Bool-cases, length, get_or, replicate,
  length-set,
}
use mata.OrdVector.{ℕ_ranked, IsSorted, member}
use mata.SparseSet.{contains, elements}
use mata.SparseSet.Elements.{member-elements, Distinct, elements-Distinct}
use mata.Delta.{StatePost, SymbolPost_ranked, state_post}
use mata.Delta.Post.{targets_of, member-targets_of}
use mata.Delta.Relation.{has}
use mata.Nfa.{Nfa, num_of_states}
use mata.Nfa.Language.{IsNfa}
use mata.Nfa.Complete.Start.{contains-lt}
use mata.Nfa.Reach.{marked, considers, push, push_initial, push_moves, reach_loop, reachable_states}
use mata.Worklist.{Reached, start, Marks-ext, Searching, Searching-step, Searching-end}
use mata.Nfa.Reach.Marks.{
  ReachState, unmarked, unmarked-set, marked-set, moves_to, push_moves-Marks,
}

-- The moves of a sorted post are its transitions under all symbols.
moves_to_iff :
    (post : StatePost) (r : ℕ)
    → IsSorted post
    → (moves_to post r ≡ true) ↔ ((a : ℕ) × (member r (targets_of a post) ≡ true))
moves_to_iff [] r s = (λ e. cc e, λ (a, m). cc m)
moves_to_iff (p ∷ ps) r s =
    let (f, g) = moves_to_iff ps r s.1 in
    (
      λ e. elim (Bool-cases (member r p.targets)) [
        | inl here ↦
            (p.symbol, ground (arith, member-targets_of p.symbol r p ps s, ==_refl p.symbol))
        | inr there ↦
            let (a, m) = f (ground arith) in (a, ground (arith, member-targets_of a r p ps s))
      ],
      λ (a, m). elim (Bool-cases (member r p.targets)) [
        | inl here ↦ ground arith
        | inr there ↦ let e = g (a, ground (arith, member-targets_of a r p ps s)) in ground arith
      ],
    )

unmarked-replicate : (n : ℕ) → unmarked (replicate n false) ≡ n
unmarked-replicate zero = refl
unmarked-replicate (suc n) = omega (arith, unmarked-replicate n)

marked-replicate : (n q : ℕ) → marked (replicate n false) q ≡ false
marked-replicate zero q = refl
marked-replicate (suc n) zero = refl
marked-replicate (suc n) (suc q) = marked-replicate n q

length-replicate : (n : ℕ) → length (replicate n false) ≡ n
length-replicate zero = refl
length-replicate (suc n) = ap suc (length-replicate n)

module _ (consider : Option (List Bool)) where
  -- The array and the worklist after the loop over the initial states.
  record Started (states : List ℕ) (st st' : ReachState) : Type 0 where
    same_length : length st'.1 ≡ length st.1
    rounds : length st'.0 + unmarked st'.1 ≡ length st.0 + unmarked st.1
    marks : (q : ℕ) → marked st'.1 q ≡ (member q states && considers consider q || marked st.1 q)
    work : (q : ℕ) → member q st'.0 ≡ (member q states && considers consider q || member q st.0)

  push_initial-Started :
      (states : List ℕ) (st : ReachState)
      → Distinct states
      → ((q : ℕ) → member q states ≡ true → q < length st.1)
      → ((q : ℕ) → member q states ≡ true → marked st.1 q ≡ false)
      → Started states st (push_initial consider states st)
  unfolding push_initial
  push_initial-Started [] st d room fresh = record {
    same_length = refl;
    rounds = refl;
    marks = λ q. refl;
    work = λ q. refl;
  }
  push_initial-Started (s ∷ states) st d room fresh =
      let room_s : s < length st.1 = room s (ground (arith, ==_refl s)) in
      let fresh_s : marked st.1 s ≡ false = fresh s (ground (arith, ==_refl s)) in
      elim (Bool-cases (considers consider s)) [
        | inl c ↦
            let k =
              push_initial-Started states (push s st) d.1
                (λ q m. omega (arith, length-set st.1 s true, room q (ground arith)))
                (λ q m. ground (arith, marked-set st.1 s q room_s, fresh q, apart q m)) in
            rw c (record {
              same_length = k.same_length ∙ length-set st.1 s true;
              rounds = omega (arith, k.rounds, unmarked-set st.1 s room_s fresh_s);
              marks = λ q. ground (arith, k.marks q, marked-set st.1 s q room_s, at q c);
              work = λ q. ground (arith, k.work q, at q c);
            })
        | inr c ↦
            let k =
              push_initial-Started states st d.1 (λ q m. room q (ground arith))
                (λ q m. fresh q (ground arith)) in
            rw c (record {
              same_length = k.same_length;
              rounds = k.rounds;
              marks = λ q. ground (arith, k.marks q, at q c);
              work = λ q. ground (arith, k.work q, at q c);
            })
      ]
    where
      at : (q : ℕ) {b : Bool} → considers consider s ≡ b → s ≡ q → considers consider q ≡ b
      at q c same = ap (considers consider) (sym same) ∙ c

      apart : (q : ℕ) → member q states ≡ true → s == q ≡ false
      apart q m = elim (Bool-cases (s == q)) [
        | inl here ↦ cc (ap (λ (x : ℕ). member x states) ((==_iff s q).0 here), d.0, m)
        | inr there ↦ there
      ]

-- Along considered states only, an initial state leads to the state.
abbrev pub IsStart : Nfa → Option (List Bool) → ℕ → Type 0
IsStart n consider q = (contains n.initial q ≡ true) × (considers consider q ≡ true)

abbrev pub IsEdge : Nfa → Option (List Bool) → ℕ → ℕ → Type 0
IsEdge n consider q r = ((a : ℕ) × (has n.delta q a r ≡ true)) × (considers consider r ≡ true)

module _ (n : Nfa) (h : IsNfa n) (consider : Option (List Bool)) where
  abbrev size : ℕ
  size = num_of_states n

  abbrev Reaching : ReachState → Type 0
  Reaching =
      Searching (λ (st : ReachState). st.0) (λ (st : ReachState). marked st.1)
        (λ (st : ReachState). unmarked st.1) (λ (st : ReachState). length st.1 ≡ size)
        (IsStart n consider) (IsEdge n consider)

  abbrev first : ReachState
  first = push_initial consider (elements n.initial) ([], replicate size false)

  first-Started : Started consider (elements n.initial) ([], replicate size false) first
  first-Started =
      push_initial-Started consider (elements n.initial) ([], replicate size false)
        (elements-Distinct h.initial_lem)
        (λ q m.
          let lt = contains-lt n.initial q (sym (member-elements h.initial_lem q) ∙ m) in
          let all = length-replicate size in unfold num_of_states in omega arith)
        (λ q m. marked-replicate size q)

  first-Reaching : Reaching first
  first-Reaching =
      let s = first-Started in
      record {
        good = s.same_length ∙ length-replicate size;
        reached = λ q m.
            let fresh = marked-replicate size q in
            start (
              sym (member-elements h.initial_lem q) ∙ ground (arith, s.marks q),
              ground (arith, s.marks q),
            );
        work_marked = λ q m. ground (arith, s.marks q, s.work q);
        starts =
            λ q (ci, c). let m = member-elements h.initial_lem q ∙ ci in ground (arith, s.marks q);
        closed =
            λ q m. let fresh = marked-replicate size q in inl (ground (arith, s.marks q, s.work q));
      }

  Reaching-step :
      (state : ℕ) (worklist : List ℕ) (reachable : List Bool)
      → Reaching (state ∷ worklist, reachable)
      → Reaching (push_moves consider (get_or n.delta state []) (worklist, reachable))
        × (length (push_moves consider (get_or n.delta state []) (worklist, reachable)).0
              + unmarked (push_moves consider (get_or n.delta state []) (worklist, reachable)).1
            ≡ length worklist + unmarked reachable)
  Reaching-step state worklist reachable g =
      let post = get_or n.delta state [] in
      let moves : (r : ℕ) → (moves_to post r ≡ true) ↔ ((a : ℕ) × (has n.delta state a r ≡ true)) =
        λ r. moves_to_iff post r (h.delta_lem.posts state).sorted in
      let marks =
        push_moves-Marks size consider post (worklist, reachable) g.good
          (λ t e. let (a, m) = (moves t).0 e in h.targets_lt state a t m) in
      (
        Searching-step _ _ _ _ (IsStart n consider) (IsEdge n consider) state
            (state ∷ worklist, reachable) (worklist, reachable) _ refl (λ q. refl)
            (Marks-ext _ _ _ _ (λ q. (λ (e, c). ((moves q).0 e, c), λ (t, c). ((moves q).1 t, c)))
              marks)
            g,
        marks.rounds,
      )

  -- The rounds that are left are enough for the worklist and the states that are not marked.
  loop-Reaching :
      (fuel : ℕ) (st : ReachState)
      → Reaching st
      → length st.0 + unmarked st.1 < fuel
      → (reachable : List Bool) × (reach_loop n.delta consider fuel st ≡ some reachable)
        × Reaching ([], reachable)
  unfolding reach_loop state_post
  loop-Reaching zero st g l = absurd (omega arith)
  loop-Reaching (suc fuel) ([], reachable) g l = (reachable, refl, g)
  loop-Reaching (suc fuel) (state ∷ worklist, reachable) g l =
      let (next, rounds) = Reaching-step state worklist reachable g in
      loop-Reaching fuel _ next (omega arith)

  -- For a well-formed automaton, the loop of `reachable_states` comes to an empty worklist within
  -- as many rounds as there are states, and the array that is returned marks exactly the states
  -- that can be reached from an initial state along considered states.
  pub marked-reachable_states :
      (reachable : List Bool) × (reachable_states n consider ≡ some reachable)
      × ((q : ℕ) → (marked reachable q ≡ true) ↔ Reached (IsStart n consider) (IsEdge n consider) q)
  unfolding reachable_states
  marked-reachable_states =
      let (reachable, ends, last) =
        loop-Reaching (size + 1) first first-Reaching
          (omega (arith, first-Started.rounds, unmarked-replicate size)) in
      (reachable, ends, Searching-end _ _ _ _ (IsStart n consider) (IsEdge n consider) _ refl last)
