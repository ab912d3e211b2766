-- ===== src/Nfa/Revert.antt =====
-- src/nfa/operations.cc: `revert`, which is `simple_revert`, reverses the language.
use mathlib.Core.List.{reverse, reverse-cons, reverse-reverse}
use mata.Common.{
  ℕ, zero, suc, ◌≤◌, ◌<◌, ◌≡◌, refl, sym, ap, subst, ◌∙◌, ◌↔◌, ◌⊎◌, inl, inr, true, ◌&&◌, List, [],
  ◌∷◌, arith, ◌==◌, Bool-ext, length, get_or, replicate,
}
use mata.OrdVector.{ℕ_ranked, member}
use mata.SparseSet.{contains}
use mata.Delta.{Delta, StatePost, add}
use mata.Delta.Post.{targets_of}
use mata.Delta.Relation.{has, IsDelta, IsPost-empty, has-add, add-IsDelta, length-add}
use mata.Delta.Traverse.{for_states, Meets, walk_rule}
use mata.Nfa.{Nfa, num_of_states}
use mata.Nfa.Language.{Leads, Accepts, IsNfa, Leads-append, source_lt}

-- `simple_revert(aut)`
unfoldable pub simple_revert : Nfa → Nfa
unfolding for_states num_of_states
simple_revert aut = record {
  delta =
      for_states (λ source symbol target delta. add target symbol source delta) aut.delta
        (num_of_states aut) 0 (replicate (num_of_states aut) []);
  initial = aut.final;
  final = aut.initial;
}

-- `revert(aut)`
unfoldable pub revert : Nfa → Nfa
unfolding simple_revert
revert aut = simple_revert aut

get_or-replicate : (n q : ℕ) → get_or {A = StatePost} (replicate n []) q [] ≡ []
get_or-replicate zero q = refl
get_or-replicate (suc n) zero = refl
get_or-replicate (suc n) (suc q) = get_or-replicate n q

IsDelta-replicate : (n : ℕ) → IsDelta (replicate n [])
IsDelta-replicate n = record { posts = λ q. rw (get_or-replicate n q) IsPost-empty }

length-replicate : (n : ℕ) → length {A = StatePost} (replicate n []) ≡ n
length-replicate zero = refl
length-replicate (suc n) = ap suc (length-replicate n)

module _ (aut : Nfa) (h : IsNfa aut) where
  -- What every round of the walk keeps.
  abbrev Kept : Delta → Type 0
  Kept d = IsDelta d × (num_of_states aut ≤ length d)

  reverted :
      (j b r : ℕ)
      → Kept (simple_revert aut).delta
        × ((has (simple_revert aut).delta j b r ≡ true) ↔ (
            (has (replicate (num_of_states aut) []) j b r ≡ true)
            ⊎ Meets aut.delta (num_of_states aut) (λ q a t. t == j && a == b && q == r)))
  unfolding simple_revert
  reverted j b r =
      walk_rule Kept (λ (d : Delta). has d j b r)
        (λ source symbol target delta. add target symbol source delta)
        (λ q a t. t == j && a == b && q == r)
        (λ q a t s (d, l).
          ((add-IsDelta s t a q d, omega (arith, length-add s t a q)), has-add s t a q j b r d))
        aut.delta (num_of_states aut) (replicate (num_of_states aut) []) h.delta_lem
        (IsDelta-replicate (num_of_states aut), omega (arith, length-replicate (num_of_states aut)))

  -- `revert` turns every transition around, and adds none.
  pub has-simple_revert : (j b r : ℕ) → has (simple_revert aut).delta j b r ≡ has aut.delta r b j
  has-simple_revert j b r =
      let (_, iff) = reverted j b r in
      Bool-ext _ _
        (λ e. elim (iff.0 e) [
          | inl old ↦ cc (
              ap (λ (p : StatePost). member r (targets_of b p))
                (get_or-replicate (num_of_states aut) j))
          | inr (q, a, t, lt, k, m) ↦ moved q a t k m
        ])
        (λ e. iff.1 (inr (r, b, j, source_lt aut r b j e, e, ground arith)))
    where
      moved :
          (q a t : ℕ)
          → has aut.delta q a t ≡ true
          → (t == j && a == b && q == r) ≡ true
          → has aut.delta r b j ≡ true
      moved q a t k m =
          let (x, y, z) = same q a t m in
          subst (λ (u : ℕ). has aut.delta u b j ≡ true) z
            (subst (λ (u : ℕ). has aut.delta q u j ≡ true) y
              (subst (λ (u : ℕ). has aut.delta q a u ≡ true) x k))
        where
          same : (q a t : ℕ) → (t == j && a == b && q == r) ≡ true → (t ≡ j) × (a ≡ b) × (q ≡ r)
          same q a t m = ground arith

  Leads-simple_revert :
      (word : List ℕ) (q s : ℕ)
      → Leads aut.delta q word s
      → Leads (simple_revert aut).delta s (reverse word) q
  Leads-simple_revert [] q s e = sym e
  Leads-simple_revert (a ∷ word) q s (r, t, l) = rw (reverse-cons a word) (
      (Leads-append (simple_revert aut).delta (reverse word) (a ∷ []) s q).1
        (r, Leads-simple_revert word r s l, (q, has-simple_revert r a q ∙ t, refl)))

  Leads-unrevert :
      (word : List ℕ) (q s : ℕ)
      → Leads (simple_revert aut).delta q word s
      → Leads aut.delta s (reverse word) q
  Leads-unrevert [] q s e = sym e
  Leads-unrevert (a ∷ word) q s (r, t, l) = rw (reverse-cons a word) (
      (Leads-append aut.delta (reverse word) (a ∷ []) s q).1
        (r, Leads-unrevert word r s l, (q, sym (has-simple_revert q a r) ∙ t, refl)))

  -- The reverted automaton is well-formed.
  pub revert-IsNfa : IsNfa (revert aut)
  unfolding revert
  revert-IsNfa = record {
    delta_lem = (reverted 0 0 0).0.0;
    initial_lem = unfold simple_revert in h.final_lem;
    final_lem = unfold simple_revert in h.initial_lem;
    targets_lt = λ q a r e.
        let lt = source_lt aut r a q (sym (has-simple_revert q a r) ∙ e) in
        let room = (reverted 0 0 0).0.1 in above lt room;
  }
    where
      above :
          {r : ℕ}
          → r < num_of_states aut
          → num_of_states aut ≤ length (simple_revert aut).delta
          → r < num_of_states (simple_revert aut)
      above lt room = unfold num_of_states in omega arith

  -- For a well-formed automaton, the automaton that `revert` builds accepts a word exactly when
  -- the given one accepts the reversed word.
  pub Accepts-revert : (word : List ℕ) → Accepts (revert aut) word ↔ Accepts aut (reverse word)
  unfolding revert
  Accepts-revert word = (
    λ (f, (i, init, l), fin).
        (i, (f, final-eq f ∙ fin, Leads-unrevert word i f l), initial-eq i ∙ init),
    λ (f, (i, init, l), fin). (
      i,
      (
        f,
        sym (initial-eq f) ∙ fin,
        subst (λ (w : List ℕ). Leads (simple_revert aut).delta f w i) (reverse-reverse word)
            (Leads-simple_revert (reverse word) i f l),
      ),
      sym (final-eq i) ∙ init,
    ),
  )
    where
      initial-eq : (q : ℕ) → contains aut.final q ≡ contains (simple_revert aut).initial q
      initial-eq q = unfold simple_revert in refl

      final-eq : (q : ℕ) → contains aut.initial q ≡ contains (simple_revert aut).final q
      final-eq q = unfold simple_revert in refl
