-- ===== src/Nfa/Language.antt =====
-- The language of an automaton, as a specification: words along the transitions of the relation.
use mata.Common.{
  ap, ◌==◌, if◌then◌else◌, ℕ, ◌<◌, ◌≡◌, refl, ◌↔◌, ◌≤◌, inl, inr, false, arith, leb, leb→le, length,
  get_or-ge, Bool-cases, List, [], ◌∷◌, ◌++◌, true,
}
use mata.SparseSet.{contains}
use mata.SparseSet.Invariant.{IsConsistent}
use mata.Delta.{Delta}
use mata.Delta.Relation.{has, IsDelta}
use mata.Nfa.{Nfa, num_of_states}

-- From `q` the word leads to `s`.
abbrev pub Leads : Delta → ℕ → List ℕ → ℕ → Type 0
Leads delta q [] s = q ≡ s
Leads delta q (a ∷ word) s = (r : ℕ) × (has delta q a r ≡ true) × Leads delta r word s

-- From some initial state the word leads to `s`.
abbrev pub Reads : Nfa → List ℕ → ℕ → Type 0
Reads n word s = (i : ℕ) × (contains n.initial i ≡ true) × Leads n.delta i word s

-- The word leads from an initial to a final state.
abbrev pub Accepts : Nfa → List ℕ → Type 0
Accepts n word = (f : ℕ) × Reads n word f × (contains n.final f ≡ true)

-- Both sets of states and the relation are well-formed, and every transition ends in a state.
pub record IsNfa (n : Nfa) : Type 0 where
  pub delta_lem : IsDelta n.delta
  pub initial_lem : IsConsistent n.initial
  pub final_lem : IsConsistent n.final
  pub targets_lt : (q a r : ℕ) → has n.delta q a r ≡ true → r < num_of_states n

-- The words of a concatenation lead through a state in the middle.
pub Leads-append :
    (delta : Delta) (u v : List ℕ) (q s : ℕ)
    → Leads delta q (u ++ v) s ↔ ((m : ℕ) × Leads delta q u m × Leads delta m v s)
Leads-append delta [] v q s = (λ l. (q, refl, l), λ (m, e, l). rw e l)
Leads-append delta (a ∷ u) v q s = (
  λ (r, t, l). let (m, k, l') = (Leads-append delta u v r s).0 l in (m, (r, t, k), l'),
  λ (m, (r, t, k), l). (r, t, (Leads-append delta u v r s).1 (m, k, l)),
)

-- Where one relation has the transitions of another, words lead on in it.
pub Leads-mono :
    (delta delta' : Delta)
    → ((q a r : ℕ) → has delta q a r ≡ true → has delta' q a r ≡ true)
    → (word : List ℕ) (q s : ℕ) → Leads delta q word s
    → Leads delta' q word s
Leads-mono delta delta' sub [] q s l = l
Leads-mono delta delta' sub (a ∷ word) q s (r, t, l) =
    (r, sub q a r t, Leads-mono delta delta' sub word r s l)

-- The source of a transition is a state.
pub source_lt : (n : Nfa) (q a r : ℕ) → has n.delta q a r ≡ true → q < num_of_states n
source_lt n q a r e = elim (Bool-cases (leb (length n.delta) q)) [
  | inl out ↦ cc (absent (leb→le _ _ out))
  | inr inside ↦ unfold num_of_states in ground arith
]
  where
    absent : length n.delta ≤ q → has n.delta q a r ≡ false
    absent out = rw (get_or-ge n.delta q [] out) refl

-- A word without its epsilons.
abbrev pub without : ℕ → List ℕ → List ℕ
without epsilon [] = []
without epsilon (a ∷ word) =
    let rest = without epsilon word in if a == epsilon then rest else a ∷ rest

pub without-append :
    (epsilon : ℕ) (u v : List ℕ) → without epsilon (u ++ v) ≡ without epsilon u ++ without epsilon v
without-append epsilon [] v = refl
without-append epsilon (a ∷ u) v = elim (Bool-cases (a == epsilon)) [
  | inl quiet ↦ rw (without, quiet) (without-append epsilon u v)
  | inr loud ↦ rw (without, loud) (ap (λ (w : List ℕ). a ∷ w) (without-append epsilon u v))
]
