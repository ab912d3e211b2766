-- ===== src/Delta/Defragment/Agree.antt =====
-- src/nfa/delta.cc: with the compact renaming, `Delta::defragment` and the function `defragment` make the
-- same relation. In particular the test `i != vec[i]` of `rename` (include/mata/utils/utils.hh), which
-- compares a position with an element, does no harm there.
use mata.Common.{
  ℕ, suc, ◌≤◌, ◌<◌, ◌≡◌, refl, ap, ◌∙◌, ◌⊎◌, inl, inr, Bool, true, List, [], ◌∷◌, arith, ◌==◌,
  Bool-cases, get_or,
}
use mata.OrdVector.{ℕ_ranked, Above, IsSorted}
use mata.OrdVector.Rename.{rename, rename_from}
use mata.Delta.{StatePost, Delta}
use mata.Delta.Post.{HasTargets, IsPost}
use mata.Delta.Relation.{IsDelta}
use mata.Delta.Defragment.{
  stays, renamed, erase_if_leaving, defragment_post, defragment_from, defragment,
  filter_rename_targets, filter_rename_state_post, defragmented_from, defragmented, make_renaming,
}
use mata.Delta.Defragment.Compact.{renamed-make_renaming, count_below_all}

module _ (is_staying : List Bool) where
  abbrev renaming : List ℕ
  renaming = make_renaming 0 is_staying

  abbrev rename_all : List ℕ → List ℕ
  rename_all [] = []
  rename_all (x ∷ xs) = renamed renaming x ∷ rename_all xs

  abbrev AllStay : List ℕ → Type 0
  AllStay [] = Unit
  AllStay (x ∷ xs) = (stays is_staying x ≡ true) × AllStay xs

  abbrev StartsFrom : ℕ → List ℕ → Type 0
  StartsFrom i [] = Unit
  StartsFrom i (x ∷ xs) = i ≤ x

  Above-ge : (i x : ℕ) (xs : List ℕ) → i ≤ x → Above x xs → Above i xs
  Above-ge i x [] l a = tt
  Above-ge i x (y ∷ ys) l a = (omega (arith, a.0), Above-ge i x ys l a.1)

  from_next : {i x : ℕ} (xs : List ℕ) → Above x xs → i ≤ x → StartsFrom (suc i) xs
  from_next [] a l = tt
  from_next (y ∷ ys) a l = omega (arith, a.0)

  next_stays :
      {i : ℕ} (x : ℕ)
      → ((k : ℕ) → k < i → stays is_staying k ≡ true)
      → (i == x) ≡ true
      → stays is_staying x ≡ true
      → (k : ℕ) → k < suc i
      → stays is_staying k ≡ true
  next_stays {i} x all same s k l = ground (arith, all k)

  -- At position `i` of a sorted vector: all numbers below `i` stood before, or the rest lies above `i`.
  rename_from_lem :
      (i : ℕ) (xs : List ℕ)
      → IsSorted xs
      → AllStay xs
      → StartsFrom i xs
      → ((k : ℕ) → k < i → stays is_staying k ≡ true) ⊎ Above i xs
      → rename_from i renaming xs ≡ rename_all xs
  unfolding rename_from
  rename_from_lem i [] o s f c = refl
  rename_from_lem i (x ∷ xs) o s f c = elim (Bool-cases (i == x)) [
    | inl same ↦ elim c [
      | inl all ↦
          let kept = renamed-make_renaming is_staying x s.0 in
          let fixed = count_below_all is_staying x (λ k l. all k (ground arith)) in
          rw same (
            cc (
              kept,
              fixed,
              rename_from_lem (suc i) xs o.1 s.1 (from_next xs o.0 (ground arith))
                  (inl (λ k l. next_stays x all same s.0 k l)),
            ))
      | inr above ↦ absurd (ground (arith, above.0))
    ]
    | inr other ↦ rw other (
        ap (λ (rest : List ℕ). renamed renaming x ∷ rest)
          (rename_from_lem (suc i) xs o.1 s.1 (from_next xs o.0 f)
            (inr (Above-ge (suc i) x xs (ground arith) o.0))))
  ]

  abbrev staying : List ℕ → List ℕ
  staying = erase_if_leaving is_staying

  erase-Above : (k : ℕ) (xs : List ℕ) → Above k xs → Above k (staying xs)
  unfolding erase_if_leaving
  erase-Above k [] a = tt
  erase-Above k (x ∷ xs) a = ground (arith, erase-Above k xs)

  erase_lem :
      (xs : List ℕ)
      → IsSorted xs
      → IsSorted (staying xs)
        × AllStay (staying xs)
        × (rename_all (staying xs) ≡ filter_rename_targets is_staying renaming xs)
  unfolding erase_if_leaving filter_rename_targets
  erase_lem [] o = (tt, tt, refl)
  erase_lem (x ∷ xs) o = elim (Bool-cases (stays is_staying x)) [
    | inl stay ↦
        let (s, a, e) = erase_lem xs o.1 in
        rw stay
          ((erase-Above x xs o.0, s), (stay, a), ap (λ (l : List ℕ). renamed renaming x ∷ l) e)
    | inr leave ↦ rw leave (erase_lem xs o.1)
  ]

  StartsFrom-zero : (xs : List ℕ) → StartsFrom 0 xs
  StartsFrom-zero [] = tt
  StartsFrom-zero (x ∷ xs) = omega arith

  pub rename-erase :
      (xs : List ℕ)
      → IsSorted xs
      → rename renaming (staying xs) ≡ filter_rename_targets is_staying renaming xs
  unfolding rename
  rename-erase xs o =
      let (s, a, e) = erase_lem xs o in
      rename_from_lem 0 (staying xs) s a (StartsFrom-zero (staying xs))
        (inl (λ k l. absurd (omega arith)))
      ∙ e

  post_agrees :
      (post : StatePost)
      → HasTargets post
      → defragment_post is_staying renaming post ≡ filter_rename_state_post is_staying renaming post
  unfolding defragment_post filter_rename_state_post
  post_agrees [] h = refl
  post_agrees (p ∷ ps) h = cc (rename-erase p.targets h.0, post_agrees ps h.2)

  from_agrees :
      (q : ℕ) (delta : Delta)
      → ((j : ℕ) → IsPost (get_or delta j []))
      → defragment_from is_staying renaming q delta ≡ defragmented_from is_staying renaming q delta
  unfolding defragment_from defragmented_from
  from_agrees q [] h = refl
  from_agrees q (post ∷ posts) h = elim (Bool-cases (stays is_staying q)) [
    | inl stay ↦
        rw stay (cc (post_agrees post (h 0).filled, from_agrees (suc q) posts (λ j. h (suc j))))
    | inr leave ↦ rw leave (from_agrees (suc q) posts (λ j. h (suc j)))
  ]

  pub defragment-eq-defragmented :
      (delta : Delta)
      → IsDelta delta
      → defragment is_staying (make_renaming 0 is_staying) delta
        ≡ defragmented is_staying (make_renaming 0 is_staying) delta
  unfolding defragment defragmented
  defragment-eq-defragmented delta d = from_agrees 0 delta d.posts
