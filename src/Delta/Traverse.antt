-- ===== src/Delta/Traverse.antt =====
-- src/nfa: the nested loops `for source < count, for symbol post of delta[source], for target` by
-- which the constructions walk through a relation, with one rule for their result.
use mata.Common.{
  ℕ, zero, suc, ◌+◌, ◌≤◌, ◌<◌, ◌≡◌, refl, ap, ◌∙◌, ◌↔◌, ◌⊎◌, inl, inr, Bool, true, false, ◌||◌,
  List, [], ◌∷◌, arith, ◌==◌, ==_iff, Bool-cases, get_or,
}
use mata.OrdVector.{ℕ_ranked, IsSorted, member}
use mata.OrdVector.Lookup.{lookup-Above}
use mata.Delta.{Delta, StatePost, SymbolPost_ranked, state_post}
use mata.Delta.Post.{targets_of}
use mata.Delta.Relation.{has, IsDelta}

module _ {ℓ} {S : Type ℓ} where
  unfoldable pub for_targets : (ℕ → S → S) → List ℕ → S → S
  for_targets body [] s = s
  for_targets body (t ∷ ts) s = for_targets body ts (body t s)

  unfoldable pub for_posts : (ℕ → ℕ → S → S) → StatePost → S → S
  unfolding for_targets
  for_posts body [] s = s
  for_posts body (p ∷ ps) s = for_posts body ps (for_targets (body p.symbol) p.targets s)

  -- `count` sources from `q` on
  unfoldable pub for_states : (ℕ → ℕ → ℕ → S → S) → Delta → ℕ → ℕ → S → S
  unfolding for_posts state_post
  for_states body delta zero q s = s
  for_states body delta (suc count) q s =
      for_states body delta count (suc q) (for_posts (body q) (state_post delta q) s)

-- The transitions that a walk meets, tested one by one.
abbrev any_target : (ℕ → Bool) → List ℕ → Bool
any_target m [] = false
any_target m (t ∷ ts) = m t || any_target m ts

abbrev any_post : (ℕ → ℕ → Bool) → StatePost → Bool
any_post m [] = false
any_post m (p ∷ ps) = any_target (m p.symbol) p.targets || any_post m ps

abbrev any_state : (ℕ → ℕ → ℕ → Bool) → Delta → ℕ → ℕ → Bool
any_state m delta zero q = false
any_state m delta (suc count) q =
    any_post (m q) (get_or delta q []) || any_state m delta count (suc q)

any_target_iff :
    (m : ℕ → Bool) (ts : List ℕ)
    → (any_target m ts ≡ true) ↔ ((t : ℕ) × (member t ts ≡ true) × (m t ≡ true))
any_target_iff m [] = (λ h. cc, λ (t, e, _). cc)
any_target_iff m (t ∷ ts) = (
  λ h. elim (Bool-cases (m t)) [
    | inl now ↦ (t, ground arith, now)
    | inr other ↦ let (u, e, k) = (any_target_iff m ts).0 (ground arith) in (u, ground arith, k)
  ],
  λ (u, e, k). elim (Bool-cases (t == u)) [
    | inl here ↦ let now : m t ≡ true = ap m ((==_iff t u).0 here) ∙ k in ground arith
    | inr other ↦ let rest = (any_target_iff m ts).1 (u, ground arith, k) in ground arith
  ],
)

any_post_iff :
    (m : ℕ → ℕ → Bool) (ps : StatePost)
    → IsSorted ps
    → (any_post m ps ≡ true)
      ↔ ((a : ℕ) × (t : ℕ) × (member t (targets_of a ps) ≡ true) × (m a t ≡ true))
any_post_iff m [] s = (λ h. cc, λ (a, t, e, _). cc)
any_post_iff m (p ∷ ps) s = (
  λ h. elim (Bool-cases (any_target (m p.symbol) p.targets)) [
    | inl now ↦
        let (t, e, k) = (any_target_iff (m p.symbol) p.targets).0 now in
        (p.symbol, t, ground arith, k)
    | inr other ↦
        let (a, t, e, k) = (any_post_iff m ps s.1).0 (ground arith) in
        (a, t, ground (arith, missing a), k)
  ],
  λ (a, t, e, k). elim (Bool-cases (p.symbol == a)) [
    | inl here ↦
        let same = (==_iff p.symbol a).0 here in
        let now =
          (any_target_iff (m p.symbol) p.targets).1
            (t, ground arith, ap (λ (b : ℕ). m b t) same ∙ k) in
        ground arith
    | inr other ↦ let rest = (any_post_iff m ps s.1).1 (a, t, ground arith, k) in ground arith
  ],
)
  where
    -- The symbol of the first post is not used again.
    missing : (a : ℕ) → a ≡ p.symbol → targets_of a ps ≡ []
    missing a e = ground (arith, lookup-Above a p.symbol ps)

any_state_iff :
    (m : ℕ → ℕ → ℕ → Bool) (delta : Delta) (count q : ℕ)
    → IsDelta delta
    → (any_state m delta count q ≡ true) ↔ (
        (p : ℕ) × (a : ℕ) × (t : ℕ) × (q ≤ p)
        × (p < q + count)
        × (has delta p a t ≡ true)
        × (m p a t ≡ true))
any_state_iff m delta zero q d = (λ h. cc, λ (p, a, t, lo, hi, _, _). absurd (omega arith))
any_state_iff m delta (suc count) q d = (
  λ h. elim (Bool-cases (any_post (m q) (get_or delta q []))) [
    | inl now ↦
        let (a, t, e, k) = (any_post_iff (m q) (get_or delta q []) (d.posts q).sorted).0 now in
        (q, a, t, omega arith, omega arith, e, k)
    | inr other ↦
        let (p, a, t, lo, hi, e, k) = (any_state_iff m delta count (suc q) d).0 (ground arith) in
        (p, a, t, omega arith, omega arith, e, k)
  ],
  λ (p, a, t, lo, hi, e, k). elim (Bool-cases (q == p)) [
    | inl here ↦
        let same = (==_iff q p).0 here in
        let now =
          (any_post_iff (m q) (get_or delta q []) (d.posts q).sorted).1
            (a, t, ap (λ (x : ℕ). has delta x a t) same ∙ e, ap (λ (x : ℕ). m x a t) same ∙ k) in
        ground arith
    | inr other ↦
        let rest =
          (any_state_iff m delta count (suc q) d).1 (p, a, t, ground arith, omega arith, e, k) in
        ground arith
  ],
)

module _ {ℓ κ} {S : Type ℓ} (Inv : S → Type κ) (obs : S → Bool) where
  for_targets_rule :
      (body : ℕ → S → S) (m : ℕ → Bool)
      → ((t : ℕ) (s : S) → Inv s → Inv (body t s) × (obs (body t s) ≡ (m t || obs s)))
      → (ts : List ℕ) (s : S) → Inv s
      → Inv (for_targets body ts s) × (obs (for_targets body ts s) ≡ (any_target m ts || obs s))
  unfolding for_targets
  for_targets_rule body m round [] s i = (i, refl)
  for_targets_rule body m round (t ∷ ts) s i =
      let (i', one) = round t s i in
      let (kept, rest) = for_targets_rule body m round ts (body t s) i' in (kept, ground arith)

  for_posts_rule :
      (body : ℕ → ℕ → S → S) (m : ℕ → ℕ → Bool)
      → ((a t : ℕ) (s : S) → Inv s → Inv (body a t s) × (obs (body a t s) ≡ (m a t || obs s)))
      → (ps : StatePost) (s : S) → Inv s
      → Inv (for_posts body ps s) × (obs (for_posts body ps s) ≡ (any_post m ps || obs s))
  unfolding for_posts
  for_posts_rule body m round [] s i = (i, refl)
  for_posts_rule body m round (p ∷ ps) s i =
      let (i', one) =
        for_targets_rule (body p.symbol) (m p.symbol) (round p.symbol) p.targets s i in
      let (kept, rest) =
        for_posts_rule body m round ps (for_targets (body p.symbol) p.targets s) i' in
      (kept, ground arith)

  for_states_rule :
      (body : ℕ → ℕ → ℕ → S → S) (m : ℕ → ℕ → ℕ → Bool)
      → ((q a t : ℕ) (s : S)
          → Inv s
          → Inv (body q a t s) × (obs (body q a t s) ≡ (m q a t || obs s)))
      → (delta : Delta) (count q : ℕ) (s : S) → Inv s
      → Inv (for_states body delta count q s)
        × (obs (for_states body delta count q s) ≡ (any_state m delta count q || obs s))
  unfolding for_states
  for_states_rule body m round delta zero q s i = (i, refl)
  for_states_rule body m round delta (suc count) q s i =
      let post = get_or delta q [] in
      let (i', one) = for_posts_rule (body q) (m q) (round q) post s i in
      let (kept, rest) =
        for_states_rule body m round delta count (suc q) (for_posts (body q) post s) i' in
      (kept, ground arith)

-- Some transition of the first `count` sources passes the test.
abbrev pub Meets : Delta → ℕ → (ℕ → ℕ → ℕ → Bool) → Type 0
Meets delta count m =
    (q : ℕ) × (a : ℕ) × (t : ℕ) × (q < count) × (has delta q a t ≡ true) × (m q a t ≡ true)

-- A walk whose rounds keep an invariant, and make an observation true at the transitions that pass
-- a test, makes it true exactly if it meets one or the observation was true before.
pub walk_rule {ℓ κ} :
    {S : Type ℓ} (Inv : S → Type κ) (obs : S → Bool) (body : ℕ → ℕ → ℕ → S → S)
    (m : ℕ → ℕ → ℕ → Bool)
    → ((q a t : ℕ) (s : S) → Inv s → Inv (body q a t s) × (obs (body q a t s) ≡ (m q a t || obs s)))
    → (delta : Delta) (count : ℕ) (s : S) → IsDelta delta
    → Inv s
    → Inv (for_states body delta count 0 s)
      × ((obs (for_states body delta count 0 s) ≡ true) ↔ ((obs s ≡ true) ⊎ Meets delta count m))
walk_rule Inv obs body m round delta count s d i =
    let (kept, e) = for_states_rule Inv obs body m round delta count 0 s i in
    (
      kept,
      (
        λ h. elim (Bool-cases (obs s)) [
          | inl old ↦ inl old
          | inr new ↦
              let (q, a, t, _, lt, k, now) = (any_state_iff m delta count 0 d).0 (ground arith) in
              inr (q, a, t, omega arith, k, now)
        ],
        λ h. elim h [
          | inl old ↦ ground arith
          | inr (q, a, t, lt, k, now) ↦
              let met =
                (any_state_iff m delta count 0 d).1 (q, a, t, omega arith, omega arith, k, now) in
              ground arith
        ],
      ),
    )
