-- ===== src/Nfa/RemoveEpsilon/Language.antt =====
-- src/nfa/operations.cc: `remove_epsilon` makes an automaton without epsilons that accepts what is left
-- of the words of the given one when their epsilons are passed over.
use mata.Common.{
  ℕ, ◌+◌, ◌*◌, ◌≡◌, refl, sym, ap, subst, ◌∙◌, ◌↔◌, ◌⊎◌, inl, inr, true, false, not, ◌&&◌, ◌||◌,
  List, [], ◌∷◌, ◌++◌, some, arith, ◌==◌, ==_iff, Bool-cases,
}
use mata.OrdVector.{ℕ_ranked, member}
use mata.SparseSet.{contains}
use mata.Delta.Relation.{has, IsPost-empty}
use mata.Nfa.{Nfa, num_of_states}
use mata.Nfa.Language.{Leads, Accepts, IsNfa, Leads-append, source_lt, without, without-append}
use mata.Nfa.Concatenate.Loops.{some_in}
use mata.Nfa.Concatenate.Transitions.{some_in_iff}
use mata.Worklist.{start, step}
use mata.Nfa.RemoveEpsilon.{
  Closures, closure, start_closures, fixpoint, remove_epsilon, add_closures,
}
use mata.Nfa.RemoveEpsilon.Round.{Silent}
use mata.Nfa.RemoveEpsilon.Fixpoint.{Fixed, fixpoint_lem}
use mata.Nfa.RemoveEpsilon.Result.{some_has, some_has_iff, add_closures_correct}

module _ (epsilon : ℕ) (n : Nfa) (h : IsNfa n) where
  abbrev states : ℕ
  states = num_of_states n

  ended :
      (last : Closures) × (fixpoint epsilon n.delta states
          (states * states + 1)
          (start_closures epsilon n.delta states 0)
        ≡ some last)
      × Fixed epsilon n.delta h.delta_lem states h.targets_lt (source_lt n) last
  ended = fixpoint_lem epsilon n.delta h.delta_lem states h.targets_lt (source_lt n)

  abbrev closures : Closures
  closures = ended.0

  abbrev result : Nfa
  result =
      let st = add_closures epsilon n 0 closures ([], n.final) in
      record { delta = st.0; initial = n.initial; final = st.1 }

  remove_epsilon-ends : remove_epsilon epsilon n ≡ some result
  unfolding remove_epsilon
  remove_epsilon-ends = rw (remove_epsilon, ended.1) refl

  fixed : Fixed epsilon n.delta h.delta_lem states h.targets_lt (source_lt n) closures
  fixed = ended.2

  built :
      ((q a r : ℕ)
        → has result.delta q a r
          ≡ (not (a == epsilon) && some_has n.delta a r (closure closures q) || has [] q a r))
      × ((j : ℕ)
          → contains result.final j ≡ (some_in n.final (closure closures j) || contains n.final j))
  built =
      add_closures_correct epsilon n h.delta_lem closures [] n.final
        (record { posts = λ q. IsPost-empty }) h.final_lem

  has-result :
      (q a r : ℕ)
      → (has result.delta q a r ≡ true)
        ↔ ((a == epsilon) ≡ false)
          × ((p : ℕ) × (member p (closure closures q) ≡ true) × (has n.delta p a r ≡ true))
  has-result q a r =
      let (f, g) = some_has_iff n.delta a r (closure closures q) in
      (
        λ e. (ground (arith, built.0 q a r), f (ground (arith, built.0 q a r))),
        λ (loud, there). let e = g there in ground (arith, built.0 q a r),
      )

  contains-result :
      (j : ℕ)
      → (contains result.final j ≡ true) ↔ (
          (contains n.final j ≡ true)
          ⊎ ((p : ℕ) × (member p (closure closures j) ≡ true) × (contains n.final p ≡ true)))
  contains-result j =
      let (f, g) = some_in_iff n.final (closure closures j) in
      (
        λ e. elim (Bool-cases (contains n.final j)) [
          | inl own ↦ inl own
          | inr other ↦ inr (f (ground (arith, built.1 j)))
        ],
        λ o. elim o [
          | inl own ↦ ground (arith, built.1 j)
          | inr there ↦ let e = g there in ground (arith, built.1 j)
        ],
      )

  -- Some run that is left as the word without its epsilons.
  abbrev Passes : ℕ → List ℕ → ℕ → Type 0
  Passes q word s = (run : List ℕ) × (without epsilon run ≡ word) × Leads n.delta q run s

  Passes-trans : (q p s : ℕ) (word : List ℕ) → Passes q [] p → Passes p word s → Passes q word s
  Passes-trans q p s word (u, v, l) (u', v', l') = (
    u ++ u',
    without-append epsilon u u' ∙ ap (λ (w : List ℕ). w ++ without epsilon u') v ∙ v',
    (Leads-append n.delta u u' q s).1 (p, l, l'),
  )

  Passes-cons :
      (q a p s : ℕ) (word : List ℕ)
      → (a == epsilon) ≡ false
      → has n.delta q a p ≡ true
      → Passes p word s
      → Passes q (a ∷ word) s
  Passes-cons q a p s word loud t (run, v, l) =
      (a ∷ run, rw (without, loud) (ap (λ (w : List ℕ). a ∷ w) v), (p, t, l))

  epsilon_gone : (epsilon == epsilon) ≡ true
  epsilon_gone = ground arith

  Silent-Passes :
      (q r : ℕ) → Silent epsilon n.delta h.delta_lem states h.targets_lt q r → Passes q [] r
  Silent-Passes q r (start e) = ([], refl, e)
  Silent-Passes q r (step {q = p} d e) =
      Passes-trans q p r [] (Silent-Passes q p d)
        (epsilon ∷ [], rw (without, epsilon_gone) refl, (r, e, refl))

  in_closure : (q p : ℕ) → member p (closure closures q) ≡ true → Passes q [] p
  in_closure q p m = Silent-Passes q p (fixed.closing.silent q p m)

  to_run :
      (word : List ℕ) (q s : ℕ)
      → Leads result.delta q word s
      → contains result.final s ≡ true
      → (f : ℕ) × Passes q word f × (contains n.final f ≡ true)
  to_run [] q s e cs = elim ((contains-result s).0 cs) [
    | inl own ↦ (s, ([], refl, e), own)
    | inr (p, m, cp) ↦ (p, subst (λ (x : ℕ). Passes x [] p) (sym e) (in_closure s p m), cp)
  ]
  to_run (a ∷ word) q s (r, t, l) cs =
      let (loud, (p, m, t')) = (has-result q a r).0 t in
      let (f, passes, cf) = to_run word r s l cs in
      (
        f,
        Passes-trans q p f (a ∷ word) (in_closure q p m) (Passes-cons p a r f word loud t' passes),
        cf,
      )

  -- A state whose epsilon leads on does all that the next state does.
  quiet_step :
      (q r : ℕ) (word : List ℕ)
      → has n.delta q epsilon r ≡ true
      → (s : ℕ) × Leads result.delta r word s × (contains result.final s ≡ true)
      → (s : ℕ) × Leads result.delta q word s × (contains result.final s ≡ true)
  quiet_step q r [] t (s, e, cs) = (
    q,
    refl,
    (contains-result q).1 (
        inr (elim ((contains-result s).0 cs) [
          | inl own ↦ (
            r,
            fixed.closing.next q r t,
            subst (λ (x : ℕ). contains n.final x ≡ true) (sym e) own,
          )
          | inr (p, m, cp) ↦ (
            p,
            fixed.settled q r t p
                (subst (λ (x : ℕ). member p (closure closures x) ≡ true) (sym e) m),
            cp,
          )
        ])),
  )
  quiet_step q r (a ∷ word) t (s, (x, t', l), cs) =
      let (loud, (p, m, edge)) = (has-result r a x).0 t' in
      (s, (x, (has-result q a x).1 (loud, (p, fixed.settled q r t p m, edge)), l), cs)

  from_run :
      (run : List ℕ) (q f : ℕ)
      → Leads n.delta q run f
      → contains n.final f ≡ true
      → (s : ℕ) × Leads result.delta q (without epsilon run) s × (contains result.final s ≡ true)
  from_run [] q f e cf = (f, e, (contains-result f).1 (inl cf))
  from_run (a ∷ run) q f (r, t, l) cf =
      let rest = from_run run r f l cf in
      elim (Bool-cases (a == epsilon)) [
        | inl quiet ↦
            let t' = subst (λ (x : ℕ). has n.delta q x r ≡ true) ((==_iff a epsilon).0 quiet) t in
            rw (without, quiet) (quiet_step q r (without epsilon run) t' rest)
        | inr loud ↦
            let (s, l', cs) = rest in
            let here = (has-result q a r).1 (loud, (q, fixed.closing.own q a r t, t)) in
            rw (without, loud) (s, (r, here, l'), cs)
      ]

  -- For a well-formed automaton and any epsilon, the fixpoint of `remove_epsilon` comes to a round
  -- that changes nothing within as many rounds as there are pairs of states, and one, and the
  -- automaton that is returned accepts exactly the words that are left of the words of the given
  -- one when their epsilons are left out.
  pub Accepts-remove_epsilon :
      (result : Nfa) × (remove_epsilon epsilon n ≡ some result)
      × ((word : List ℕ)
          → Accepts result word ↔ ((run : List ℕ) × (without epsilon run ≡ word) × Accepts n run))
  Accepts-remove_epsilon = (
    result,
    remove_epsilon-ends,
    λ word. (
      λ (s, (i, ci, l), cs).
          let (f, (run, v, l'), cf) = to_run word i s l cs in (run, v, (f, (i, ci, l'), cf)),
      λ (run, v, (f, (i, ci, l), cf)).
          let (s, l', cs) = from_run run i f l cf in
          subst (λ (w : List ℕ). Accepts result w) v (s, (i, ci, l'), cs),
    ),
  )
