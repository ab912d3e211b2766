-- ===== src/Nfa/Complete/Complement.antt =====
-- src/nfa/nfa.cc, `complement_deterministic`: it complements the language of a deterministic
-- automaton, for words over the given symbols.
use mata.Common.{
  ℕ, ◌≤◌, ◌<◌, ◌≡◌, refl, sym, ap, subst, ◌∙◌, ◌↔◌, inl, inr, true, false, not, ◌&&◌, List, none,
  some, arith, ltb, Bool-cases, length,
}
use mata.OrdVector.{ℕ_ranked, IsSorted, member}
use mata.SparseSet.{SparseSet, contains}
use mata.SparseSet.Invariant.{IsConsistent}
use mata.SparseSet.Complement.{complement_correct}
use mata.Delta.{Delta}
use mata.Delta.Relation.{has, IsDelta}
use mata.Nfa.{Nfa, num_of_states}
use mata.Nfa.Language.{Leads, Accepts, IsNfa, Leads-mono, source_lt}
use mata.Nfa.Complete.{make_complete, swap_final_nonfinal, with_start, complement_deterministic}
use mata.Nfa.Complete.Language.{
  Completed, Completed-make_complete, IsDeterministic, Over, Leads-trap, Leads-back, Leads-unique,
  Leads-total, Live,
}
use mata.Nfa.Complete.Start.{contains-lt, domain_le, Started-with_start}

module _ (aut : Nfa) (h : IsNfa aut) where
  abbrev s : ℕ
  s = num_of_states aut

  module _ (one : IsDeterministic aut) (symbols : List ℕ) (sorted : IsSorted symbols) where
    abbrev started : Nfa
    started = with_start s aut

    abbrev completed : Nfa
    completed = (make_complete started symbols (some s)).0

    abbrev n : ℕ
    n = num_of_states completed

    unchanged : (completed.initial ≡ started.initial) × (completed.final ≡ started.final)
    unfolding make_complete
    unchanged = (refl, refl)

    both :
        Completed symbols s started.delta completed.delta
        × (s < num_of_states started
            → (c : ℕ) → member c symbols ≡ true
            → (t : ℕ) × (has completed.delta s c t ≡ true))
    both =
        let w = Started-with_start aut h in
        Completed-make_complete symbols sorted s started
          (subst IsDelta (sym w.delta_same) h.delta_lem) w.low
          (λ b r. subst (λ (d : Delta). has d s b r ≡ false) (sym w.delta_same) (fresh b r))
      where
        fresh : (b r : ℕ) → has aut.delta s b r ≡ false
        fresh b r = elim (Bool-cases (has aut.delta s b r)) [
          | inl there ↦ elim (irreflexive (source_lt aut s b r there)) [ ]
          | inr missing ↦ missing
        ]
          where
            irreflexive : s < s → ⊥
            irreflexive e = omega arith

    completed_lem : Completed symbols s aut.delta completed.delta
    completed_lem =
        subst (λ (d : Delta). Completed symbols s d completed.delta)
          (Started-with_start aut h).delta_same both.0

    -- The states in use, and the final states.
    started_lt : (i : ℕ) → contains started.initial i ≡ true → i < num_of_states started
    started_lt i e = domain_le started started.initial i (contains-lt started.initial i e)

    initial_lt : (i : ℕ) → contains started.initial i ≡ true → i < n
    initial_lt i e =
        let lt = contains-lt started.initial i e in
        let same = ap (λ (d : SparseSet). d.domain_size) unchanged.0 in
        unfold num_of_states in omega arith

    final_lt : (f : ℕ) → contains aut.final f ≡ true → f < s
    final_lt f e = let lt = contains-lt aut.final f e in unfold num_of_states in omega arith

    final-eq :
        (f : ℕ)
        → contains (complement_deterministic aut symbols none).final f
          ≡ (ltb f n && not (contains aut.final f))
    unfolding complement_deterministic swap_final_nonfinal
    final-eq f =
        let w = Started-with_start aut h in
        let same : completed.final ≡ aut.final = unchanged.1 ∙ w.final_same in
        (complement_correct n completed.final (subst IsConsistent (sym same) h.final_lem)).1 f
        ∙ ap (λ (x : SparseSet). ltb f n && not (contains x f)) same

    -- No state is lost.
    states-le : s ≤ n
    states-le =
        let low = (Started-with_start aut h).low in
        let room = both.0.grows in omega (arith, wider low room)
      where
        wider :
            s ≤ num_of_states started
            → length started.delta ≤ length completed.delta
            → num_of_states started ≤ n
        wider low room =
            let i = ap (λ (d : SparseSet). d.domain_size) unchanged.0 in
            let f = ap (λ (d : SparseSet). d.domain_size) unchanged.1 in
            unfold num_of_states in omega arith

    length-le : length completed.delta ≤ n
    length-le = unfold num_of_states in omega arith

    abbrev result : Nfa
    result = complement_deterministic aut symbols none

    same_parts : (result.delta ≡ completed.delta) × (result.initial ≡ started.initial)
    unfolding complement_deterministic swap_final_nonfinal
    same_parts = (refl, unchanged.0)

    -- A word that is read from an initial state of the result leads to one state at most, and from
    -- the old initial state where the automaton accepts it.
    rejects : (word : List ℕ) → Accepts result word → Accepts aut word → ⊥
    rejects word (f, (i, ci, l), fin) (g, (j, cj, m), fin') =
        let w = Started-with_start aut h in
        let from = subst (λ (x : SparseSet). contains x i ≡ true) same_parts.1 ci in
        let run = subst (λ (d : Delta). Leads d i word f) same_parts.0 l in
        elim (w.starts i from) [
          | inl old ↦
              let m' = Leads-mono aut.delta completed.delta completed_lem.keeps word j g m in
              let m'' =
                subst (λ (q : ℕ). Leads completed.delta q word g) (one.one_start j i cj old) m' in
              let same =
                Leads-unique symbols aut h completed.delta completed_lem one.one_target word i f g
                  run m'' in
              clash f g same (final-eq f) fin fin'
          | inr (at, none_yet) ↦ cc (none_yet j, cj)
        ]
      where
        clash :
            (f g : ℕ)
            → f ≡ g
            → contains result.final f ≡ (ltb f n && not (contains aut.final f))
            → contains result.final f ≡ true
            → contains aut.final g ≡ true
            → ⊥
        clash f g e def fin fin' =
            let fin'' = subst (λ (x : ℕ). contains aut.final x ≡ true) (sym e) fin' in ground arith

    accepts : (word : List ℕ) → Over symbols word → (Accepts aut word → ⊥) → Accepts result word
    accepts word over rejected =
        let w = Started-with_start aut h in
        let (i, ci) = w.start in
        let (f, l, live) =
          Leads-total symbols aut h completed.delta completed_lem n length-le word i over
            (live_start i ci) in
        (
          f,
          (
            i,
            subst (λ (x : SparseSet). contains x i ≡ true) (sym same_parts.1) ci,
            subst (λ (d : Delta). Leads d i word f) (sym same_parts.0) l,
          ),
          final_fin f i ci l live,
        )
      where
        initial_old : (i : ℕ) → contains aut.initial i ≡ true → i < s
        initial_old i e =
            let lt = contains-lt aut.initial i e in unfold num_of_states in omega arith

        in_use : {i m : ℕ} → s ≡ i → i < m → s < m
        in_use e lt = omega arith

        live_start :
            (i : ℕ)
            → contains started.initial i ≡ true
            → Live symbols aut h completed.delta completed_lem n length-le i
        live_start i ci = elim ((Started-with_start aut h).starts i ci) [
          | inl old ↦ inl (initial_old i old)
          | inr (at, none_yet) ↦
              inr (at, in_use at (initial_lt i ci), both.1 (in_use at (started_lt i ci)))
        ]

        final_fin :
            (f i : ℕ)
            → contains started.initial i ≡ true
            → Leads completed.delta i word f
            → Live symbols aut h completed.delta completed_lem n length-le f
            → contains result.final f ≡ true
        final_fin f i ci l live = elim (Bool-cases (contains aut.final f)) [
          | inl fin ↦ elim ((Started-with_start aut h).starts i ci) [
            | inl old ↦
                elim (rejected (
                  f,
                  (
                    i,
                    old,
                    Leads-back symbols aut h completed.delta completed_lem word i f (final_lt f fin)
                        l,
                  ),
                  fin,
                )) [ ]
            | inr (at, none_yet) ↦
                elim (trapped f (final_lt f fin) (
                  Leads-trap symbols aut h completed.delta completed_lem word f
                    (subst (λ (q : ℕ). Leads completed.delta q word f) (sym at) l))) [ ]
          ]
          | inr not_final ↦ complemented (final-eq f) not_final (live_lt f live)
        ]
          where
            trapped : (f : ℕ) → f < s → s ≡ f → ⊥
            trapped f lt e = omega arith

            live_lt :
                (f : ℕ) → Live symbols aut h completed.delta completed_lem n length-le f → f < n
            live_lt f (inl lt) = omega (arith, states-le)
            live_lt f (inr (at, room, rest)) = omega arith

            complemented :
                contains result.final f ≡ (ltb f n && not (contains aut.final f))
                → contains aut.final f ≡ false
                → f < n
                → contains result.final f ≡ true
            complemented e not_final lt = ground arith

    -- For a well-formed automaton with one initial state at most and one target at most for each
    -- source and symbol, and for sorted symbols, the automaton that `complement_deterministic`
    -- makes with a new sink accepts a word over these symbols exactly when the given one does not.
    pub Accepts-complement_deterministic :
        (word : List ℕ)
        → Over symbols word
        → Accepts (complement_deterministic aut symbols none) word ↔ (Accepts aut word → ⊥)
    Accepts-complement_deterministic word over = (rejects word, accepts word over)
