-- ===== src/Nfa/Closure/Read.antt =====
-- src/nfa/operations.cc: `read_word` and `is_in_lang` with epsilon closures decide the language of the
-- words that are left when the epsilons of a run are passed over.
use mata.Common.{
  ℕ, ◌≡◌, refl, sym, ap, subst, ◌∙◌, ◌↔◌, inl, inr, true, false, List, [], ◌∷◌, ◌++◌, some, arith,
  ◌==◌, ==_iff, if◌then◌else◌, Bool-cases,
}
use mata.OrdVector.{ℕ_ranked, IsSorted, member}
use mata.OrdVector.Sort.{sort_and_rmdupl_correct}
use mata.SparseSet.{elements}
use mata.Delta.Relation.{has}
use mata.Nfa.{
  Nfa, epsilon, closure_before, closure_after, post_loop, post, read_loop, read_word, is_in_lang,
  state_set, no_transitions, is_empty, mk_epsilon_closure,
}
use mata.Nfa.Language.{Leads, Reads, Accepts, IsNfa, Leads-append, without, without-append}
use mata.Nfa.Read.{Step, post_loop_correct, no_transitions-has, intersects-final, member-state_set}
use mata.Worklist.{Reached, start, step}
use mata.Nfa.Closure.Epsilons.{IsSource, EpsilonEdge, mk_epsilon_closure_correct}

abbrev pub NoEpsilon : List ℕ → Type 0
NoEpsilon [] = Unit
NoEpsilon (a ∷ word) = ((a == epsilon) ≡ false) × NoEpsilon word

module _ (n : Nfa) (h : IsNfa n) where
  abbrev Edge : ℕ → ℕ → Type 0
  Edge = EpsilonEdge n (epsilon ∷ [])

  edge_iff : (q r : ℕ) → Edge q r ↔ (has n.delta q epsilon r ≡ true)
  edge_iff q r = (
    λ (e, m, t).
        let same : epsilon ≡ e = (==_iff epsilon e).0 (ground arith) in
        subst (λ (x : ℕ). has n.delta q x r ≡ true) (sym same) t,
    λ t. (epsilon, refl, t),
  )

  abbrev IsClosed : List ℕ → Type 0
  IsClosed states =
      (q r : ℕ) → member q states ≡ true → has n.delta q epsilon r ≡ true → member r states ≡ true

  -- From `q` the word leads to `s` when epsilons are passed over.
  abbrev Passes : ℕ → List ℕ → ℕ → Type 0
  Passes q word s = (run : List ℕ) × (without epsilon run ≡ word) × Leads n.delta q run s

  abbrev PassesFrom : List ℕ → List ℕ → ℕ → Type 0
  PassesFrom states word s = (q : ℕ) × (member q states ≡ true) × Passes q word s

  Passes-trans : (q p s : ℕ) (word : List ℕ) → Passes q [] p → Passes p word s → Passes q word s
  Passes-trans q p s word (u, v, l) (u', v', l') = (
    u ++ u',
    without-append epsilon u u' ∙ ap (λ (w : List ℕ). w ++ without epsilon u') v ∙ v',
    (Leads-append n.delta u u' q s).1 (p, l, l'),
  )

  Reached-Passes :
      (source : List ℕ) (r : ℕ) → Reached (IsSource source) Edge r → PassesFrom source [] r
  Reached-Passes source r (start m) = (r, m, ([], refl, refl))
  Reached-Passes source r (step {q = p} d e) =
      let (q, m, passes) = Reached-Passes source p d in
      (q, m, Passes-trans q p r [] passes (epsilon ∷ [], refl, (r, (edge_iff p r).0 e, refl)))

  Passes-cons :
      (q a p s : ℕ) (word : List ℕ)
      → (a == epsilon) ≡ false
      → has n.delta q a p ≡ true
      → Passes p word s
      → Passes q (a ∷ word) s
  Passes-cons q a p s word loud t (run, v, l) =
      (a ∷ run, rw (without, loud) (ap (λ (w : List ℕ). a ∷ w) v), (p, t, l))

  -- A closed set holds what a run of epsilons leads to.
  closed_lem :
      (states : List ℕ)
      → IsClosed states
      → (run : List ℕ) (q s : ℕ) → member q states ≡ true
      → without epsilon run ≡ []
      → Leads n.delta q run s
      → member s states ≡ true
  closed_lem states closed [] q s m v l = subst (λ (x : ℕ). member x states ≡ true) l m
  closed_lem states closed (a ∷ run) q s m v (r, t, l) = elim (Bool-cases (a == epsilon)) [
    | inl quiet ↦
        let t' = subst (λ (x : ℕ). has n.delta q x r ≡ true) ((==_iff a epsilon).0 quiet) t in
        closed_lem states closed run r s (closed q r m t') (rw (without, quiet) at v) l
    | inr loud ↦ cc (rw (without, loud) at v)
  ]

  -- What one symbol makes of a set of states, with the closure after it.
  record After (states : List ℕ) (a : ℕ) (next : List ℕ) : Type 0 where
    closed : IsClosed next
    forth : (r : ℕ) → member r next ≡ true → (p : ℕ) × Step n.delta a states p × Passes p [] r
    back : (r : ℕ) → Step n.delta a states r → member r next ≡ true

  After-closure :
      (states source : List ℕ) (a : ℕ)
      → IsSorted source
      → ((r : ℕ) → (member r source ≡ true) ↔ Step n.delta a states r)
      → (closure : List ℕ) × (mk_epsilon_closure n source (epsilon ∷ []) ≡ some closure)
        × After states a closure
  After-closure states source a sorted steps =
      let (closure, ends, _, k) = mk_epsilon_closure_correct n h source (epsilon ∷ []) sorted in
      (
        closure,
        ends,
        record {
          closed = λ q r m t. (k r).1 (step ((k q).0 m) ((edge_iff q r).1 t));
          forth = λ r m.
              let (p, mp, passes) = Reached-Passes source r ((k r).0 m) in
              (p, (steps p).0 mp, passes);
          back = λ r s. (k r).1 (start ((steps r).1 s));
        },
      )

  After-post :
      (states : List ℕ) (a : ℕ)
      → (a == epsilon) ≡ false
      → After states a (post n states a closure_after)
  unfolding post
  After-post states a e = elim (Bool-cases (no_transitions n.delta)) [
    | inl none_there ↦
        rw (e, none_there)
          (record {
            closed = λ q r m t. cc m;
            forth = λ r m. cc m;
            back = λ r (q, m, t). cc (no_transitions-has n.delta q a r none_there);
          })
    | inr some_there ↦
        let (sorted, steps) = post_loop_correct n.delta a states [] h.delta_lem tt in
        let (closure, ends, after) =
          After-closure states (post_loop n.delta a states []) a sorted (λ r. (
            λ m. elim ((steps r).0 m) [ inl old ↦ cc old | inr s ↦ s ],
            λ s. (steps r).1 (inr s),
          )) in
        rw (e, some_there, ends) after
  ]

  -- A run from a closed set passes over epsilons within the set, up to its first symbol.
  first_symbol :
      (states : List ℕ)
      → IsClosed states
      → (a : ℕ) (word run : List ℕ) (q s : ℕ) → member q states ≡ true
      → without epsilon run ≡ a ∷ word
      → Leads n.delta q run s
      → (r : ℕ) × Step n.delta a states r × Passes r word s
  first_symbol states closed a word [] q s m v l = cc v
  first_symbol states closed a word (b ∷ run) q s m v (r, t, l) = elim (Bool-cases (b == epsilon)) [
    | inl quiet ↦
        let t' = subst (λ (x : ℕ). has n.delta q x r ≡ true) ((==_iff b epsilon).0 quiet) t in
        first_symbol states closed a word run r s (closed q r m t') (rw (without, quiet) at v) l
    | inr loud ↦
        let v' : b ∷ without epsilon run ≡ a ∷ word = rw (without, loud) at v in
        let same : b ≡ a = cc v' in
        (r, (q, m, subst (λ (x : ℕ). has n.delta q x r ≡ true) same t), (run, cc v', l))
  ]

  read_loop_after :
      (word states : List ℕ) (s : ℕ)
      → NoEpsilon word
      → IsClosed states
      → (member s (read_loop n closure_after states word) ≡ true) ↔ PassesFrom states word s
  unfolding read_loop
  read_loop_after [] states s loud closed =
      (λ m. (s, m, ([], refl, refl)), λ (q, m, (run, v, l)). closed_lem states closed run q s m v l)
  read_loop_after (a ∷ word) states s loud closed =
      let next = post n states a closure_after in
      let k = After-post states a loud.0 in
      let (there, back) = read_loop_after word next s loud.1 k.closed in
      (
        λ m.
            let (r, mr, passes) = there (stopped next m) in
            let (p, (q, mq, t), quiet) = k.forth r mr in
            (q, mq, Passes-cons q a p s word loud.0 t (Passes-trans p r s word quiet passes)),
        λ (q, mq, (run, v, l)).
            let (r, st, passes) = first_symbol states closed a word run q s mq v l in
            let mr = k.back r st in resumed r next mr (back (r, mr, passes)),
      )
    where
      stopped :
          (next : List ℕ)
          → member s (if is_empty next then next else read_loop n closure_after next word) ≡ true
          → member s (read_loop n closure_after next word) ≡ true
      stopped [] m = cc
      stopped (x ∷ xs) m = m

      resumed :
          (r : ℕ) (next : List ℕ)
          → member r next ≡ true
          → member s (read_loop n closure_after next word) ≡ true
          → member s (if is_empty next then next else read_loop n closure_after next word) ≡ true
      resumed r [] m k = cc
      resumed r (x ∷ xs) m k = k

  -- The closure of the initial states, which `read_word` starts from.
  record Opened (states opened : List ℕ) : Type 0 where
    closed : IsClosed opened
    forth : (r : ℕ) → member r opened ≡ true → PassesFrom states [] r
    back : (r : ℕ) → member r states ≡ true → member r opened ≡ true

  Opened-post :
      (states : List ℕ) → IsSorted states → Opened states (post n states epsilon closure_before)
  unfolding post
  Opened-post states sorted = elim (Bool-cases (no_transitions n.delta)) [
    | inl none_there ↦ rw none_there (record {
      closed = λ q r m t. cc (no_transitions-has n.delta q epsilon r none_there);
      forth = λ r m. (r, m, ([], refl, refl));
      back = λ r m. m;
    })
    | inr some_there ↦
        let (source, ends, _, k) = mk_epsilon_closure_correct n h states (epsilon ∷ []) sorted in
        let (_, steps) = post_loop_correct n.delta epsilon source states h.delta_lem sorted in
        let reached : (r : ℕ)
            → member r (post_loop n.delta epsilon source states) ≡ true
            → Reached (IsSource states) Edge r =
          λ r m. elim ((steps r).0 m) [
            | inl old ↦ start old
            | inr (q, mq, t) ↦ step ((k q).0 mq) ((edge_iff q r).1 t)
          ] in
        rw (some_there, ends)
          (record {
            closed = λ q r m t. (steps r).1 (inr (q, (k q).1 (reached q m), t));
            forth = λ r m. Reached-Passes states r (reached r m);
            back = λ r m. (steps r).1 (inl m);
          })
  ]

  read_word-epsilon :
      (word : List ℕ) (s : ℕ)
      → NoEpsilon word
      → (member s (read_word n word true) ≡ true)
        ↔ ((run : List ℕ) × (without epsilon run ≡ word) × Reads n run s)
  unfolding read_word state_set
  read_word-epsilon word s loud =
      let states = state_set n.initial in
      let o = Opened-post states (sort_and_rmdupl_correct (elements n.initial)).0 in
      let (there, back) =
        read_loop_after word (post n states epsilon closure_before) s loud o.closed in
      (
        λ m.
            let (q, mq, passes) = there m in
            let (i, mi, quiet) = o.forth q mq in
            let (run, v, l) = Passes-trans i q s word quiet passes in
            (run, v, (i, sym (member-state_set n h i) ∙ mi, l)),
        λ (run, v, (i, ci, l)). back (i, o.back i (member-state_set n h i ∙ ci), (run, v, l)),
      )

  -- For a well-formed automaton and a word without `EPSILON`, `is_in_lang` with epsilon closures
  -- and without prefix matching is true exactly when the automaton accepts some word that is the
  -- given one after its epsilons are left out.
  pub is_in_lang-epsilon :
      (word : List ℕ)
      → NoEpsilon word
      → (is_in_lang n word true false ≡ true)
        ↔ ((run : List ℕ) × (without epsilon run ≡ word) × Accepts n run)
  unfolding is_in_lang
  is_in_lang-epsilon word loud = (
    λ e.
        let (s, m, f) = (intersects-final n h (read_word n word true)).0 e in
        let (run, v, r) = (read_word-epsilon word s loud).0 m in (run, v, (s, r, f)),
    λ (run, v, (s, r, f)).
        (intersects-final n h (read_word n word true)).1
          (s, (read_word-epsilon word s loud).1 (run, v, r), f),
  )
