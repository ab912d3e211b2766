-- ===== src/Delta/Relation.antt =====
-- src/nfa/delta.cc: the transition relation that a `Delta` stands for, and `Delta::add`.
use mata.Common.{
  ℕ, ◌+◌, ◌≤◌, ◌<◌, ◌≡◌, refl, sym, ap, subst, ◌∙◌, ◌⊎◌, inl, inr, ltb→lt, leb→le, Bool, true,
  false, ◌&&◌, ◌||◌, List, [], ◌∷◌, some, arith, ltb, leb, ◌==◌, if◌then◌else◌, ==_iff, Bool-cases,
  Option-cases, length, get_or, set, resize, max, back?, back?-none, length-set, length-resize,
  get_or-set, get_or-resize, get_or-ge,
}
use mata.OrdVector.{ℕ_ranked, IsSorted, member, lookup, insert}
use mathlib.Core.Bool.{or-false}
use mata.OrdVector.Order.{insert-IsSorted}
use mata.OrdVector.Lookup.{member-insert, find_elem-eq-lookup, contains-eq-member}
use mata.Delta.{
  SymbolPost, SymbolPost_ranked, StatePost, Delta, insert_state, insert_states, add_to_post,
  resize_for_states, add, add_all, contains,
}
use mata.Delta.Post.{targets_of, Filled, HasTargets, IsPost, insert_state-eq-insert}
use mata.Delta.Add.{targets_of-add_to_post, add_to_post-IsPost}

-- Is there a transition from `q` under `a` to `r`?
abbrev pub has : Delta → ℕ → ℕ → ℕ → Bool
has delta q a r = member r (targets_of a (get_or delta q []))

-- Every state post is sorted by symbols, and its symbol posts have sorted, non-empty targets.
pub record IsDelta (delta : Delta) : Type 0 where
  pub posts : (q : ℕ) → IsPost (get_or delta q [])

pub IsPost-empty : IsPost []
IsPost-empty = record { sorted = tt; filled = tt }

HasTargets-lookup :
    (a : ℕ) (post : StatePost) (p : SymbolPost)
    → HasTargets post
    → lookup a post ≡ some p
    → IsSorted p.targets
HasTargets-lookup a [] p h e = cc
HasTargets-lookup a (x ∷ xs) p h e = elim (Bool-cases (x.symbol == a)) [
  | inl here ↦
      let same : x ≡ p = cc (rw here at e) in
      subst (λ (y : SymbolPost). IsSorted y.targets) same h.0
  | inr there ↦ HasTargets-lookup a xs p h.2 (rw there at e)
]

-- On a well-formed relation, `contains` is true exactly of the transitions that a walk through the
-- posts finds.
pub contains-eq-has :
    (delta : Delta) (q a r : ℕ) → IsDelta delta → contains delta q a r ≡ has delta q a r
unfolding contains
contains-eq-has delta q a r d = elim (Bool-cases (leb (length delta) q)) [
  | inl out ↦ rw (out, get_or-ge delta q [] (leb→le (length delta) q out)) refl
  | inr inside ↦
      let post = get_or delta q [] in
      elim (Option-cases (lookup a post)) [
        | inl e ↦ ground (arith, find_elem-eq-lookup a post (d.posts q).sorted)
        | inr (p, e) ↦ ground (
          arith,
          find_elem-eq-lookup a post (d.posts q).sorted,
          contains-eq-member r p.targets (HasTargets-lookup a post p (d.posts q).filled e),
        )
      ]
]

get_or-resize_for_states :
    (source target q : ℕ) (delta : Delta)
    → get_or (resize_for_states source target delta) q [] ≡ get_or delta q []
unfolding resize_for_states
get_or-resize_for_states source target q delta =
    elim (Bool-cases (leb (length delta) (max source target))) [
      | inr stays ↦ rw stays
      | inl grows ↦ rw grows (elim (Bool-cases (ltb q (max source target + 1))) [
        | inl inside ↦ get_or-resize (max source target + 1) [] delta q (ltb→lt _ _ inside)
        | inr outside ↦
            get_or-ge (resize (max source target + 1) [] delta) q []
              (ground (arith, length-resize (max source target + 1) [] delta))
            ∙ sym (get_or-ge delta q [] (ground arith))
      ])
    ]

length-resize_for_states :
    (source target : ℕ) (delta : Delta)
    → (source < length (resize_for_states source target delta))
      × (target < length (resize_for_states source target delta))
      × (length delta ≤ length (resize_for_states source target delta))
unfolding resize_for_states
length-resize_for_states source target delta =
    ground (arith, length-resize {A = StatePost} (max source target + 1) [] delta)

insert_state-kept :
    (s : ℕ) (targets : List ℕ)
    → IsSorted targets
    → IsSorted (insert_state s targets)
      × Filled (insert_state s targets)
      × ((r : ℕ) → member r (insert_state s targets) ≡ (s == r || member r targets))
insert_state-kept s targets sorted =
    rw (insert_state-eq-insert s targets sorted)
      (insert-IsSorted s targets sorted, filled targets, λ r. member-insert r s targets)
  where
    filled : (ts : List ℕ) → Filled (insert s ts).vec
    filled [] = unfold insert in tt
    filled (t ∷ ts) = unfold insert in ground arith

insert_states-kept :
    (states targets : List ℕ)
    → IsSorted targets
    → Filled targets
    → IsSorted (insert_states states targets)
      × Filled (insert_states states targets)
      × ((r : ℕ) → member r (insert_states states targets) ≡ (member r states || member r targets))
unfolding insert_states
insert_states-kept [] targets sorted filled = (sorted, filled, λ r. refl)
insert_states-kept (s ∷ states) targets sorted filled =
    let (one_sorted, one_filled, one) = insert_state-kept s targets sorted in
    let (all_sorted, all_filled, all) =
      insert_states-kept states (insert_state s targets) one_sorted one_filled in
    (all_sorted, all_filled, λ r. ground (arith, all r, one r))

pub targets_of-cases :
    (a : ℕ) (post : StatePost)
    → HasTargets post
    → (member a post ≡ true) × IsSorted (targets_of a post) × Filled (targets_of a post)
      ⊎ (member a post ≡ false) × (targets_of a post ≡ [])
targets_of-cases a [] h = inr (refl, refl)
targets_of-cases a (p ∷ ps) h = ground (arith, targets_of-cases a ps)

-- A write at one post, by what it makes of the targets there.
module _ (delta : Delta) (d : IsDelta delta) (q a : ℕ) (fresh : List ℕ)
    (grow : List ℕ → List ℕ) where
  module _ (to : ℕ) where
    abbrev added : Delta
    added =
        let delta' = resize_for_states q to delta in
        set delta' q (add_to_post a fresh grow (get_or delta' q []))

    get_or-added :
        (j : ℕ)
        → get_or added j []
          ≡ (if q == j then add_to_post a fresh grow (get_or delta q []) else get_or delta j [])
    get_or-added j =
        get_or-set (resize_for_states q to delta) q j
          (add_to_post a fresh grow (get_or (resize_for_states q to delta) q [])) []
          (length-resize_for_states q to delta).0
        ∙ rw (get_or-resize_for_states q to q delta, get_or-resize_for_states q to j delta) refl

    added-IsDelta :
        IsSorted fresh
        → Filled fresh
        → ((targets : List ℕ)
            → IsSorted targets
            → Filled targets
            → IsSorted (grow targets) × Filled (grow targets))
        → IsDelta added
    added-IsDelta s f keep = record {
      posts = λ j. rw (get_or-added j) (elim (Bool-cases (q == j)) [
        | inl here ↦
            rw here (add_to_post-IsPost a fresh grow (get_or delta q []) (d.posts q) s f keep)
        | inr there ↦ rw there (d.posts j)
      ]);
    }

    -- Where the fresh targets are `ts` and growing adds `ts`, the relation gains `q -a-> ts`.
    has-added :
        (ts : List ℕ)
        → ((r : ℕ) → member r fresh ≡ member r ts)
        → ((targets : List ℕ) (r : ℕ)
            → IsSorted targets
            → Filled targets
            → member r (grow targets) ≡ (member r ts || member r targets))
        → (j b r : ℕ) → has added j b r ≡ (q == j && a == b && member r ts || has delta j b r)
    has-added ts starts grows j b r = elim (Bool-cases (q == j)) [
      | inr there ↦ rw (get_or-added j, there) refl
      | inl here ↦
          let e : q ≡ j = (==_iff q j).0 here in
          let post = get_or delta q [] in
          rw (get_or-added j, here, targets_of-add_to_post a fresh grow post (d.posts q) b, ← e)
            (elim (Bool-cases (a == b)) [
              | inr other ↦ rw other refl
              | inl same ↦
                  rw (same, ← (==_iff a b).0 same)
                    (elim (targets_of-cases a post (d.posts q).filled) [
                      | inl (old, s, f) ↦ rw old (grows (targets_of a post) r s f)
                      | inr (new, none_left) ↦
                          rw (new, none_left) (starts r ∙ sym (or-false (member r ts)))
                    ])
            ])
    ]

-- On a well-formed relation, after `add` exactly the old transitions and the new one are there.
pub has-add :
    (delta : Delta) (q a t j b r : ℕ)
    → IsDelta delta
    → has (add q a t delta) j b r ≡ (q == j && a == b && t == r || has delta j b r)
unfolding add
has-add delta q a t j b r d =
    has-added delta d q a (t ∷ []) (insert_state t) t (t ∷ []) (λ k. refl)
      (λ ts k s f.
        (insert_state-kept t ts s).2 k
        ∙ ap (λ (x : Bool). x || member k ts) (sym (or-false (t == k))))
      j b r
    ∙ ap (λ (x : Bool). q == j && a == b && x || has delta j b r) (or-false (t == r))

pub add-IsDelta : (delta : Delta) (q a t : ℕ) → IsDelta delta → IsDelta (add q a t delta)
unfolding add
add-IsDelta delta q a t d =
    added-IsDelta delta d q a (t ∷ []) (insert_state t) t (tt, tt) tt
      (λ ts s f. let (k, l, _) = insert_state-kept t ts s in (k, l))

Filled-back? : (xs : List ℕ) (last : ℕ) → back? xs ≡ some last → Filled xs
Filled-back? [] last e = cc
Filled-back? (x ∷ xs) last e = tt

pub has-add_all :
    (delta : Delta) (q a : ℕ) (ts : List ℕ) (j b r : ℕ)
    → IsDelta delta
    → has (add_all q a ts delta) j b r ≡ (q == j && a == b && member r ts || has delta j b r)
unfolding add_all
has-add_all delta q a ts j b r d = elim (Option-cases (back? ts)) [
  | inl e ↦ rw (e, add_all, back?-none ts e) (ground arith)
  | inr (last, e) ↦
      rw (e, add_all)
        (has-added delta d q a ts (insert_states ts) last ts (λ k. refl)
          (λ olds k s f. (insert_states-kept ts olds s f).2 k) j b r)
]

pub add_all-IsDelta :
    (delta : Delta) (q a : ℕ) (ts : List ℕ)
    → IsDelta delta
    → IsSorted ts
    → IsDelta (add_all q a ts delta)
unfolding add_all
add_all-IsDelta delta q a ts d sorted = elim (Option-cases (back? ts)) [
  | inl e ↦ rw (e, add_all) d
  | inr (last, e) ↦
      rw (e, add_all)
        (added-IsDelta delta d q a ts (insert_states ts) last sorted (Filled-back? ts last e)
          (λ olds s f. let (k, l, _) = insert_states-kept ts olds s f in (k, l)))
]

-- `add` allocates the states that it needs and drops none.
pub length-add :
    (delta : Delta) (q a t : ℕ)
    → (length delta ≤ length (add q a t delta))
      × (q < length (add q a t delta))
      × (t < length (add q a t delta))
unfolding add
length-add delta q a t =
    let delta' = resize_for_states q t delta in
    let post = add_to_post a (t ∷ []) (insert_state t) (get_or delta' q []) in
    let (s, u, v) = length-resize_for_states q t delta in omega (arith, length-set delta' q post)
