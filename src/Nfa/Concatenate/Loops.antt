-- ===== src/Nfa/Concatenate/Loops.antt =====
-- src/nfa/concatenation.cc: what the loops of `concatenate` add to the relation and to the final
-- states.
use mata.Common.{
  ℕ, ◌+◌, ◌<◌, ◌≡◌, refl, inl, inr, Bool, true, false, ◌&&◌, ◌||◌, List, [], ◌∷◌, arith, ◌==◌,
  if◌then◌else◌, Bool-cases, get_or,
}
use mata.OrdVector.{ℕ_ranked, IsSorted, member}
use mata.SparseSet.{SparseSet, contains}
use mata.SparseSet
use mata.SparseSet.Invariant.{IsConsistent}
use mata.SparseSet.Insert.{insert-IsConsistent, contains-insert}
use mata.Delta.{Delta, StatePost, SymbolPost_ranked, state_post}
use mata.Delta.Post.{targets_of, member-targets_of}
use mata.Delta.Relation.{has, IsDelta, has-add, add-IsDelta}
use mata.Nfa.Concatenate.{add_targets, add_post, connect_finals, connect_parts}

pub add_targets_correct :
    (fin symbol : ℕ) (targets : List ℕ) (delta : Delta)
    → IsDelta delta
    → IsDelta (add_targets fin symbol targets delta)
      × ((q a r : ℕ)
          → has (add_targets fin symbol targets delta) q a r
            ≡ (fin == q && symbol == a && member r targets || has delta q a r))
unfolding add_targets
add_targets_correct fin symbol [] delta d = (d, λ q a r. ground arith)
add_targets_correct fin symbol (t ∷ ts) delta d =
    let (kept, h) = add_targets_correct fin symbol ts _ (add-IsDelta delta fin symbol t d) in
    (kept, λ q a r. ground (arith, h q a r, has-add delta fin symbol t q a r d))

pub add_post_correct :
    (fin : ℕ) (post : StatePost) (delta : Delta)
    → IsSorted post
    → IsDelta delta
    → IsDelta (add_post fin post delta)
      × ((q a r : ℕ)
          → has (add_post fin post delta) q a r
            ≡ (fin == q && member r (targets_of a post) || has delta q a r))
unfolding add_post
add_post_correct fin [] delta s d = (d, λ q a r. ground arith)
add_post_correct fin (p ∷ ps) delta s d =
    let (one_kept, one) = add_targets_correct fin p.symbol p.targets delta d in
    let (kept, h) = add_post_correct fin ps _ s.1 one_kept in
    (kept, λ q a r. ground (arith, h q a r, one q a r, member-targets_of a r p ps s))

-- What one round over the final states `finals` leaves.
record Connected (is_final : Bool) (post : StatePost) (finals : List ℕ) (st st' : Delta × SparseSet)
    : Type 0 where
  pub delta_lem : IsDelta st'.0
  pub has_lem :
      (q a r : ℕ)
      → has st'.0 q a r ≡ (member q finals && member r (targets_of a post) || has st.0 q a r)
  pub final_lem : IsConsistent st'.1
  pub contains_lem : (j : ℕ) → contains st'.1 j ≡ (is_final && member j finals || contains st.1 j)

connect_finals_correct :
    (is_final : Bool) (post : StatePost) (finals : List ℕ) (delta : Delta) (new_fin : SparseSet)
    → IsSorted post
    → IsDelta delta
    → IsConsistent new_fin
    → Connected is_final post finals
        (delta, new_fin)
        (connect_finals is_final post finals (delta, new_fin))
unfolding connect_finals
connect_finals_correct is_final post [] delta new_fin s d c = record {
  delta_lem = d;
  has_lem = λ q a r. refl;
  final_lem = c;
  contains_lem = λ j. ground arith;
}
connect_finals_correct is_final post (fin ∷ finals) delta new_fin s d c =
    let (one_kept, one) = add_post_correct fin post delta s d in
    let (fin_kept, fin_one) = insert_if is_final in
    let k = connect_finals_correct is_final post finals _ _ s one_kept fin_kept in
    record {
      delta_lem = k.delta_lem;
      has_lem = λ q a r. ground (arith, k.has_lem q a r, one q a r);
      final_lem = k.final_lem;
      contains_lem = λ j. ground (arith, k.contains_lem j, fin_one j);
    }
  where
    insert_if :
        (b : Bool)
        → IsConsistent (if b then SparseSet.insert fin new_fin else new_fin)
          × ((j : ℕ)
              → contains (if b then SparseSet.insert fin new_fin else new_fin) j
                ≡ (b && fin == j || contains new_fin j))
    insert_if true = (insert-IsConsistent c fin, λ j. contains-insert c fin j)
    insert_if false = (c, λ j. refl)

-- Some initial state has, moved up by `n`, a transition to `r`.
abbrev pub starts : ℕ → Delta → List ℕ → ℕ → ℕ → Bool
starts n delta [] a r = false
starts n delta (ini ∷ initials) a r = has delta (n + ini) a r || starts n delta initials a r

-- Some initial state is in the set.
abbrev pub some_in : SparseSet → List ℕ → Bool
some_in s [] = false
some_in s (x ∷ xs) = contains s x || some_in s xs

starts_ext :
    (n : ℕ) (delta delta' : Delta) (initials : List ℕ) (a r : ℕ)
    → ((ini : ℕ) → has delta (n + ini) a r ≡ has delta' (n + ini) a r)
    → starts n delta initials a r ≡ starts n delta' initials a r
starts_ext n delta delta' [] a r h = refl
starts_ext n delta delta' (ini ∷ initials) a r h =
    ground (arith, h ini, starts_ext n delta delta' initials a r h)

pub record Joined (n : ℕ) (aut_final : SparseSet) (finals initials : List ℕ)
    (st st' : Delta × SparseSet) : Type 0 where
  pub delta_lem : IsDelta st'.0
  pub has_lem :
      (q a r : ℕ)
      → has st'.0 q a r ≡ (member q finals && starts n st.0 initials a r || has st.0 q a r)
  pub final_lem : IsConsistent st'.1
  pub contains_lem :
      (j : ℕ)
      → contains st'.1 j ≡ (some_in aut_final initials && member j finals || contains st.1 j)

module _ (n : ℕ) (aut_final : SparseSet) (finals : List ℕ)
    (low : (j : ℕ) → member j finals ≡ true → j < n) where
  high_false : (j : ℕ) → member (n + j) finals ≡ false
  high_false j = elim (Bool-cases (member (n + j) finals)) [
    | inl e ↦ absurd (omega (arith, low (n + j) e))
    | inr e ↦ e
  ]

  -- Every state among `finals` gets the transitions of all moved initial states, and becomes final
  -- if one of them is.
  pub connect_parts_correct :
      (initials : List ℕ) (st : Delta × SparseSet)
      → IsDelta st.0
      → IsConsistent st.1
      → Joined n aut_final finals initials st (connect_parts n aut_final finals initials st)
  unfolding connect_parts state_post
  connect_parts_correct [] st d c = record {
    delta_lem = d;
    has_lem = λ q a r. ground arith;
    final_lem = c;
    contains_lem = λ j. refl;
  }
  connect_parts_correct (ini ∷ initials) st d c =
      let post = get_or st.0 (n + ini) [] in
      let one =
        connect_finals_correct (contains aut_final ini) post finals st.0 st.1
          (d.posts (n + ini)).sorted d c in
      let next = connect_finals (contains aut_final ini) post finals st in
      let k = connect_parts_correct initials next one.delta_lem one.final_lem in
      record {
        delta_lem = k.delta_lem;
        has_lem = λ q a r. ground (
          arith,
          k.has_lem q a r,
          one.has_lem q a r,
          starts_ext n next.0 st.0 initials a r
              (λ i. ground (arith, one.has_lem (n + i) a r, high_false i)),
        );
        final_lem = k.final_lem;
        contains_lem = λ j. ground (arith, k.contains_lem j, one.contains_lem j);
      }
