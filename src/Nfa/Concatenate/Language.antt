-- ===== src/Nfa/Concatenate/Language.antt =====
-- src/nfa/concatenation.cc: `concatenate` makes the concatenation of the languages.
use mata.Common.{
  ℕ, ◌+◌, ◌-◌, ◌≤◌, ◌<◌, ◌≡◌, refl, sym, ap, subst, ◌⊎◌, ◌↔◌, inl, inr, true, List, [], ◌∷◌, ◌++◌,
  arith,
}
use mata.SparseSet.{contains}
use mata.Delta.{Delta}
use mata.Delta.Relation.{has}
use mata.Nfa.{Nfa, num_of_states}
use mata.Nfa.Language.{Leads, Accepts, IsNfa, Leads-mono, Leads-append}
use mata.Nfa.Unite.Language.{
  joined, has-joined, has-high, Leads-low, Leads-high, initial_lt, final_lt, back_down,
}
use mata.Nfa.Concatenate.{concatenate}
use mata.Nfa.Concatenate.Transitions.{has-result, contains-result}

module _ (this aut : Nfa) (h : IsNfa this) (k : IsNfa aut) where
  abbrev n : ℕ
  n = num_of_states this

  abbrev both : Delta
  both = joined this aut h k

  abbrev result : Nfa
  result = concatenate this aut

  high_lem : (q a r : ℕ) → has result.delta (n + q) a r ≡ true → has both (n + q) a r ≡ true
  high_lem q a r t = elim ((has-result this aut h k (n + q) a r).0 t) [
    | inl (cf, rest) ↦ absurd (omega (arith, final_lt this aut h k (n + q) cf))
    | inr old ↦ old
  ]

  both_mono : (q a r : ℕ) → has both q a r ≡ true → has result.delta q a r ≡ true
  both_mono q a r t = (has-result this aut h k q a r).1 (inr t)

  up_again : (r : ℕ) → n ≤ r → n + (r - n) ≡ r
  up_again r l = omega arith

  target_high : (q a r : ℕ) → has both (n + q) a r ≡ true → n ≤ r
  target_high q a r t = ground (arith, has-high this aut h k q a r)

  -- From a moved state the concatenation leads where the second automaton does.
  high_Leads :
      (word : List ℕ) (q f : ℕ) → Leads result.delta (n + q) word f → Leads both (n + q) word f
  high_Leads [] q f e = e
  high_Leads (a ∷ word) q f (r, t, l) =
      let t' = high_lem q a r t in
      let at = up_again r (target_high q a r t') in
      let l' =
        high_Leads word (r - n) f (subst (λ (x : ℕ). Leads result.delta x word f) (sym at) l) in
      (r, t', subst (λ (x : ℕ). Leads both x word f) at l')

  -- The word leads through the first automaton to a final state and from an initial state through
  -- the second one.
  abbrev Crosses : ℕ → List ℕ → ℕ → Type 0
  Crosses q word f =
      (u : List ℕ) × (v : List ℕ) × (m : ℕ) × (i : ℕ) × (word ≡ u ++ v)
      × Leads this.delta q u m
      × (contains this.final m ≡ true)
      × (contains aut.initial i ≡ true)
      × (n ≤ f)
      × Leads aut.delta i v (f - n)

  low_Leads :
      (word : List ℕ) (q f : ℕ)
      → q < n
      → Leads result.delta q word f
      → (f < n) × Leads this.delta q word f ⊎ Crosses q word f
  low_Leads [] q f lt e = inl (omega (arith, e), e)
  low_Leads (a ∷ word) q f lt (r, t, l) = elim ((has-result this aut h k q a r).0 t) [
    | inr old ↦
        let t' : has this.delta q a r ≡ true = ground (arith, has-joined this aut h k q a r) in
        elim (low_Leads word r f (h.targets_lt q a r t') l) [
          | inl (below, l') ↦ inl (below, (r, t', l'))
          | inr (u, v, m, i, e, l', cm, ci, up_f, run) ↦
              inr (a ∷ u, v, m, i, ap (λ (w : List ℕ). a ∷ w) e, (r, t', l'), cm, ci, up_f, run)
        ]
    | inl (cf, (i, ci, t')) ↦
        let at = up_again r (target_high i a r t') in
        let l' =
          high_Leads word (r - n) f (subst (λ (x : ℕ). Leads result.delta x word f) (sym at) l) in
        let whole : Leads both (n + i) (a ∷ word) f =
          (r, t', subst (λ (x : ℕ). Leads both x word f) at l') in
        let (up_f, run) = (Leads-high this aut h k (a ∷ word) i f).0 whole in
        inr ([], a ∷ word, q, i, refl, refl, cf, ci, up_f, run)
  ]

  to_parts :
      (word : List ℕ)
      → Accepts result word
      → (u : List ℕ) × (v : List ℕ) × (word ≡ u ++ v) × Accepts this u × Accepts aut v
  to_parts word (f, (i, ci, l), cf) =
      let ci' = initial_same i ci in
      elim (low_Leads word i f (initial_lt this aut h k i ci') l) [
        | inl (below, l') ↦ elim ((contains-result this aut h k f).0 cf) [
          | inl (cf', (j, cj, cfj)) ↦
              (word, [], append_empty word, (f, (i, ci', l'), cf'), (j, (j, cj, refl), cfj))
          | inr (above, rest) ↦ absurd (omega arith)
        ]
        | inr (u, v, m, j, e, l', cm, cj, above, run) ↦
            elim ((contains-result this aut h k f).0 cf) [
              | inl (cf', rest) ↦ absurd (omega (arith, final_lt this aut h k f cf'))
              | inr (above', cf') ↦ (u, v, e, (m, (i, ci', l'), cm), (f - n, (j, cj, run), cf'))
            ]
      ]
    where
      initial_same : (i : ℕ) → contains result.initial i ≡ true → contains this.initial i ≡ true
      initial_same i e = unfold concatenate in e

      append_empty : (w : List ℕ) → w ≡ w ++ []
      append_empty [] = refl
      append_empty (a ∷ w) = ap (λ (x : List ℕ). a ∷ x) (append_empty w)

  -- A run of the second automaton, entered from a final state of the first one.
  enter :
      (m i : ℕ) (v : List ℕ) (g : ℕ)
      → contains this.final m ≡ true
      → contains aut.initial i ≡ true
      → Leads aut.delta i v g
      → contains aut.final g ≡ true
      → (f : ℕ) × Leads result.delta m v f × (contains result.final f ≡ true)
  enter m i [] g cm ci e cg = (
    m,
    refl,
    (contains-result this aut h k m).1
        (inl (cm, (i, ci, subst (λ (x : ℕ). contains aut.final x ≡ true) (sym e) cg))),
  )
  enter m i (a ∷ v) g cm ci l cg =
      let down = sym (back_down this aut h k g) in
      let (r, t, rest) =
        (Leads-high this aut h k (a ∷ v) i (n + g)).1
          (omega arith, subst (λ (x : ℕ). Leads aut.delta i (a ∷ v) x) down l) in
      (
        n + g,
        (
          r,
          (has-result this aut h k m a r).1 (inl (cm, (i, ci, t))),
          Leads-mono both result.delta both_mono v r (n + g) rest,
        ),
        (contains-result this aut h k (n + g)).1
            (inr (omega arith, subst (λ (x : ℕ). contains aut.final x ≡ true) down cg)),
      )

  from_parts : (u v : List ℕ) → Accepts this u → Accepts aut v → Accepts result (u ++ v)
  from_parts u v (m, (i, ci, l), cm) (g, (j, cj, l'), cg) =
      let (f, run, cf) = enter m j v g cm cj l' cg in
      let first =
        Leads-mono both result.delta both_mono u i m
          ((Leads-low this aut h k u i m (initial_lt this aut h k i ci)).1 l) in
      (f, (i, unfold concatenate in ci, (Leads-append result.delta u v i f).1 (m, first, run)), cf)

  -- For two well-formed automata, `concatenate` makes an automaton that accepts exactly the words
  -- that are a word of the first one followed by a word of the second one.
  pub Accepts-concatenate :
      (word : List ℕ)
      → Accepts (concatenate this aut) word
        ↔ ((u : List ℕ) × (v : List ℕ) × (word ≡ u ++ v) × Accepts this u × Accepts aut v)
  Accepts-concatenate word = (
    to_parts word,
    λ (u, v, e, x, y). subst (λ (w : List ℕ). Accepts result w) (sym e) (from_parts u v x y),
  )
