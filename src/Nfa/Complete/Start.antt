-- ===== src/Nfa/Complete/Start.antt =====
-- src/nfa/nfa.cc: the start of `complement_deterministic`, which gives the automaton an initial state.
use mata.Common.{
  ℕ, ◌≤◌, ◌<◌, ◌≡◌, refl, ◌⊎◌, inl, inr, true, false, arith, ◌==◌, ==_refl, Bool-cases,
}
use mata.OrdVector.{ℕ_ranked}
use mata.SparseSet.{SparseSet, contains, dense_at}
use mata.SparseSet
use mata.SparseSet.Invariant.{contains-dense_at}
use mata.SparseSet.Insert.{contains-insert}
use mata.Nfa.{Nfa, num_of_states}
use mata.Nfa.Language.{IsNfa}
use mata.Nfa.Complete.{with_start}

pub contains-lt : (s : SparseSet) (j : ℕ) → contains s j ≡ true → j < s.domain_size
unfolding contains
contains-lt s j e = ground arith

-- The domain of the initial states is among the states.
pub domain_le :
    (aut : Nfa) (i : SparseSet) (k : ℕ)
    → k < i.domain_size
    → k < num_of_states (record aut { initial = i })
domain_le aut i k lt = unfold num_of_states in omega arith

-- The automaton with the sink as an initial state where there was none.
pub record Started (s : ℕ) (aut a : Nfa) : Type 0 where
  pub delta_same : a.delta ≡ aut.delta
  pub final_same : a.final ≡ aut.final
  pub low : s ≤ num_of_states a
  pub starts :
      (i : ℕ)
      → contains a.initial i ≡ true
      → (contains aut.initial i ≡ true) ⊎ (s ≡ i) × ((j : ℕ) → contains aut.initial j ≡ false)
  pub old : (i : ℕ) → contains aut.initial i ≡ true → contains a.initial i ≡ true
  pub start : (i : ℕ) × (contains a.initial i ≡ true)

module _ (aut : Nfa) (h : IsNfa aut) where
  abbrev s : ℕ
  s = num_of_states aut

  -- What `with_start` makes.
  pub Started-with_start : Started s aut (with_start s aut)
  unfolding with_start
  Started-with_start = elim (Bool-cases (aut.initial.size == 0)) [
    | inl none_yet ↦ rw none_yet (record {
      delta_same = refl;
      final_same = refl;
      low = grown_low;
      starts = λ i e.
          inr
            (ground (arith, contains-insert h.initial_lem s i, absent none_yet i), absent none_yet);
      old = λ i e. ground (arith, contains-insert h.initial_lem s i);
      start = (s, ground (arith, contains-insert h.initial_lem s s, ==_refl s));
    })
    | inr some_yet ↦ rw some_yet (record {
      delta_same = refl;
      final_same = refl;
      low = omega arith;
      starts = λ i e. inl e;
      old = λ i e. e;
      start = (dense_at aut.initial 0, contains-dense_at h.initial_lem 0 (ground arith));
    })
  ]
    where
      absent : (aut.initial.size == 0) ≡ true → (j : ℕ) → contains aut.initial j ≡ false
      absent e j = unfold contains in ground arith

      grown_lt : s < (SparseSet.insert s aut.initial).domain_size
      grown_lt =
          contains-lt (SparseSet.insert s aut.initial) s
            (ground (arith, contains-insert h.initial_lem s s, ==_refl s))

      grown_low : s ≤ num_of_states (record aut { initial = SparseSet.insert s aut.initial })
      grown_low = let lt = domain_le aut (SparseSet.insert s aut.initial) s grown_lt in omega arith
