-- ===== src/Nfa/Concatenate/Epsilon/Loops.antt =====
-- src/nfa/concatenation.cc: what the loops of `concatenate_eps` add.
use mata.Common.{
  ℕ, zero, suc, ◌+◌, ◌-◌, ◌≤◌, ◌<◌, ◌≡◌, refl, ap, inl, inr, Bool, true, false, ◌&&◌, ◌||◌, List,
  [], ◌∷◌, arith, ltb, leb, ◌==◌, ==_refl, Bool-cases, length, get_or,
}
use mata.OrdVector.{ℕ_ranked, IsSorted, member}
use mata.SparseSet.{SparseSet, contains}
use mata.SparseSet.Invariant.{IsConsistent}
use mata.SparseSet.Insert.{insert-IsConsistent, contains-insert}
use mata.Delta.{Delta, SymbolPost_ranked, StatePost, state_post}
use mata.Delta.Post.{targets_of, member-targets_of}
use mata.Delta.Relation.{has, IsDelta, has-add, add-IsDelta, length-add}
use mata.Nfa.Concatenate.Epsilon.{
  renaming_from, result_state, add_epsilons, connect_epsilons, insert_renamed, add_rhs_targets,
  add_rhs_moves, add_rhs_states,
}

-- Some state of the list has the new name `r`.
abbrev pub named_in : List ℕ → List ℕ → ℕ → Bool
named_in renaming [] r = false
named_in renaming (x ∷ xs) r = result_state renaming x == r || named_in renaming xs r

-- From `delta` to `delta'` the transitions of `new` are added.
pub record Adds (new : ℕ → ℕ → ℕ → Bool) (delta delta' : Delta) : Type 0 where
  pub kept : IsDelta delta'
  pub room : length delta ≤ length delta'
  pub has_lem : (q a r : ℕ) → has delta' q a r ≡ (new q a r || has delta q a r)

module _ (renaming : List ℕ) where
  add_epsilons-Adds :
      (e f : ℕ) (initials : List ℕ) (delta : Delta)
      → IsDelta delta
      → Adds
          (λ q a r. f == q && a == e && named_in renaming initials r)
          delta
          (add_epsilons e renaming f initials delta)
  unfolding add_epsilons
  add_epsilons-Adds e f [] delta d = record {
    kept = d;
    room = omega arith;
    has_lem = λ q a r. ground arith;
  }
  add_epsilons-Adds e f (i ∷ is) delta d =
      let one = has-add delta f e (result_state renaming i) in
      let room = length-add delta f e (result_state renaming i) in
      let k = add_epsilons-Adds e f is _ (add-IsDelta delta f e (result_state renaming i) d) in
      record {
        kept = k.kept;
        room = omega (arith, k.room, room);
        has_lem = λ q a r. ground (arith, k.has_lem q a r, one q a r d);
      }

  pub connect_epsilons-Adds :
      (e : ℕ) (initials finals : List ℕ) (delta : Delta)
      → IsDelta delta
      → Adds
          (λ q a r. member q finals && a == e && named_in renaming initials r)
          delta
          (connect_epsilons e renaming initials finals delta)
  unfolding connect_epsilons
  connect_epsilons-Adds e initials [] delta d = record {
    kept = d;
    room = omega arith;
    has_lem = λ q a r. refl;
  }
  connect_epsilons-Adds e initials (f ∷ fs) delta d =
      let one = add_epsilons-Adds e f initials delta d in
      let k = connect_epsilons-Adds e initials fs _ one.kept in
      record {
        kept = k.kept;
        room = omega (arith, k.room, one.room);
        has_lem = λ q a r. ground (arith, k.has_lem q a r, one.has_lem q a r);
      }

  pub insert_renamed_correct :
      (finals : List ℕ) (s : SparseSet)
      → IsConsistent s
      → IsConsistent (insert_renamed renaming finals s)
        × ((j : ℕ)
            → contains (insert_renamed renaming finals s) j
              ≡ (named_in renaming finals j || contains s j))
  unfolding insert_renamed
  insert_renamed_correct [] s c = (c, λ j. refl)
  insert_renamed_correct (f ∷ fs) s c =
      let (kept, k) =
        insert_renamed_correct fs _ (insert-IsConsistent c (result_state renaming f)) in
      (kept, λ j. ground (arith, k j, contains-insert c (result_state renaming f) j))

  add_rhs_targets-Adds :
      (s b : ℕ) (targets : List ℕ) (delta : Delta)
      → IsDelta delta
      → Adds
          (λ q a r. s == q && b == a && named_in renaming targets r)
          delta
          (add_rhs_targets renaming s b targets delta)
  unfolding add_rhs_targets
  add_rhs_targets-Adds s b [] delta d = record {
    kept = d;
    room = omega arith;
    has_lem = λ q a r. ground arith;
  }
  add_rhs_targets-Adds s b (t ∷ ts) delta d =
      let one = has-add delta s b (result_state renaming t) in
      let room = length-add delta s b (result_state renaming t) in
      let k = add_rhs_targets-Adds s b ts _ (add-IsDelta delta s b (result_state renaming t) d) in
      record {
        kept = k.kept;
        room = omega (arith, k.room, room);
        has_lem = λ q a r. ground (arith, k.has_lem q a r, one q a r d);
      }

-- The states from `n` on, of which there are `m`.
module _ (n m : ℕ) where
  abbrev pub names : List ℕ
  names = renaming_from n m

  pub result_state_lem : (q : ℕ) → q < m → result_state names q ≡ n + q
  result_state_lem q l = at n m q l
    where
      at : (i k q : ℕ) → q < k → result_state (renaming_from i k) q ≡ i + q
      at i zero q l = absurd (omega arith)
      at i (suc k) zero l = omega arith
      at i (suc k) (suc q) l = omega (arith, at (suc i) k q (omega arith))

  pub named_in_lem :
      (xs : List ℕ) (r : ℕ)
      → ((x : ℕ) → member x xs ≡ true → x < m)
      → named_in names xs r ≡ (leb n r && member (r - n) xs)
  named_in_lem [] r low = ground arith
  named_in_lem (x ∷ xs) r low =
      let name = result_state_lem x (low x (ground (arith, ==_refl x))) in
      let rest = named_in_lem xs r (λ y l. low y (ground arith)) in ground arith

  add_rhs_moves-Adds :
      (s : ℕ) (post : StatePost) (delta : Delta)
      → IsSorted post
      → IsDelta delta
      → ((a t : ℕ) → member t (targets_of a post) ≡ true → t < m)
      → Adds
          (λ q a r. s == q && leb n r && member (r - n) (targets_of a post))
          delta
          (add_rhs_moves names s post delta)
  unfolding add_rhs_moves
  add_rhs_moves-Adds s [] delta o d low = record {
    kept = d;
    room = omega arith;
    has_lem = λ q a r. ground arith;
  }
  add_rhs_moves-Adds s (p ∷ ps) delta o d low =
      let one = add_rhs_targets-Adds names s p.symbol p.targets delta d in
      let k =
        add_rhs_moves-Adds s ps _ o.1 one.kept
          (λ a t l. low a t (ground (arith, member-targets_of a t p ps o))) in
      let inside : (t : ℕ) → member t p.targets ≡ true → t < m = λ t l.
        low p.symbol t (ground (arith, member-targets_of p.symbol t p ps o, ==_refl p.symbol)) in
      record {
        kept = k.kept;
        room = omega (arith, k.room, one.room);
        has_lem = λ q a r. ground (
          arith,
          k.has_lem q a r,
          one.has_lem q a r,
          named_in_lem p.targets r inside,
          member-targets_of a (r - n) p ps o,
        );
      }

  pub add_rhs_states-Adds :
      (rhs : Delta) (count k : ℕ) (delta : Delta)
      → k + count ≡ m
      → IsDelta rhs
      → ((q a r : ℕ) → has rhs q a r ≡ true → r < m)
      → IsDelta delta
      → Adds
          (λ q a r. leb (n + k) q && ltb q (n + m) && leb n r && has rhs (q - n) a (r - n))
          delta
          (add_rhs_states names rhs count k delta)
  unfolding add_rhs_states state_post
  add_rhs_states-Adds rhs zero k delta e h low d = record {
    kept = d;
    room = omega arith;
    has_lem = λ q a r. ground arith;
  }
  add_rhs_states-Adds rhs (suc count) k delta e h low d =
      let name = result_state_lem k (omega arith) in
      let one =
        add_rhs_moves-Adds (result_state names k) (get_or rhs k []) delta (h.posts k).sorted d
          (λ a t l. low k a t l) in
      let rest = add_rhs_states-Adds rhs count (suc k) _ (omega arith) h low one.kept in
      record {
        kept = rest.kept;
        room = omega (arith, rest.room, one.room);
        has_lem = λ q a r. elim (Bool-cases (n + k == q)) [
          | inl here ↦
              let at : q - n ≡ k = ground arith in
              let same = ap (λ (x : ℕ). has rhs x a (r - n)) at in
              ground (arith, rest.has_lem q a r, one.has_lem q a r)
          | inr there ↦ ground (arith, rest.has_lem q a r, one.has_lem q a r)
        ];
      }
