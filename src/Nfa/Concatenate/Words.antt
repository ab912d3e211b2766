-- ===== src/Nfa/Concatenate/Words.antt =====
-- Concatenation and powers of languages, as the specification of src/nfa/concatenation.cc.
use mata.Common.{ℕ, zero, suc, ◌+◌, ◌≡◌, refl, sym, ap, subst, ◌∙◌, List, [], ◌∷◌, ◌++◌, arith}

abbrev pub Language : Type 1
Language = List ℕ → Type 0

-- A word of the first language followed by one of the second.
abbrev pub Cat : Language → Language → Language
Cat L M word = (u : List ℕ) × (v : List ℕ) × (word ≡ u ++ v) × L u × M v

-- `k` words of the language in a row.
abbrev pub Power : Language → ℕ → Language
Power L zero word = word ≡ []
Power L (suc k) word = Cat L (Power L k) word

append_assoc : (u v w : List ℕ) → (u ++ v) ++ w ≡ u ++ (v ++ w)
append_assoc [] v w = refl
append_assoc (a ∷ u) v w = ap (λ (x : List ℕ). a ∷ x) (append_assoc u v w)

append_empty : (u : List ℕ) → u ++ [] ≡ u
append_empty [] = refl
append_empty (a ∷ u) = ap (λ (x : List ℕ). a ∷ x) (append_empty u)

pub Cat_mono :
    {L L' M M' : Language}
    → ((w : List ℕ) → L w → L' w)
    → ((w : List ℕ) → M w → M' w)
    → (w : List ℕ) → Cat L M w
    → Cat L' M' w
Cat_mono f g w (u, v, e, x, y) = (u, v, e, f u x, g v y)

pub Power_mono :
    {L L' : Language}
    → ((w : List ℕ) → L w → L' w)
    → (k : ℕ) (w : List ℕ) → Power L k w
    → Power L' k w
Power_mono f zero w e = e
Power_mono f (suc k) w p = Cat_mono f (Power_mono f k) w p

pub Cat-assoc : (L M N : Language) (w : List ℕ) → Cat (Cat L M) N w → Cat L (Cat M N) w
Cat-assoc L M N w (x, z, e, (u, v, e', l, m), n) =
    (u, v ++ z, e ∙ ap (λ (y : List ℕ). y ++ z) e' ∙ append_assoc u v z, l, (v, z, refl, m, n))

pub assoc-Cat : (L M N : Language) (w : List ℕ) → Cat L (Cat M N) w → Cat (Cat L M) N w
assoc-Cat L M N w (u, y, e, l, (v, z, e', m, n)) = (
  u ++ v,
  z,
  e ∙ ap (λ (y : List ℕ). u ++ y) e' ∙ sym (append_assoc u v z),
  (u, v, refl, l, m),
  n,
)

-- A language followed by the empty word.
pub Cat-empty : (L : Language) (w : List ℕ) → Cat L (λ v. v ≡ []) w → L w
Cat-empty L w (u, v, e, l, none_left) =
    subst L (sym (e ∙ ap (λ (x : List ℕ). u ++ x) none_left ∙ append_empty u)) l

pub empty-Cat : (L : Language) (w : List ℕ) → L w → Cat L (λ v. v ≡ []) w
empty-Cat L w l = (w, [], sym (append_empty w), l, refl)

abbrev twice : ℕ → ℕ
twice zero = zero
twice (suc k) = suc (suc (twice k))

pub twice_lem : (k : ℕ) → twice k ≡ k + k
twice_lem zero = refl
twice_lem (suc k) = omega (arith, twice_lem k)

twice_up : (L : Language) (k : ℕ) (w : List ℕ) → Power (Cat L L) k w → Power L (twice k) w
twice_up L zero w e = e
twice_up L (suc k) w p =
    Cat_mono (λ u x. x) (Cat_mono (λ u x. x) (twice_up L k)) w
      (Cat-assoc L L (Power (Cat L L) k) w p)

twice_down : (L : Language) (k : ℕ) (w : List ℕ) → Power L (twice k) w → Power (Cat L L) k w
twice_down L zero w e = e
twice_down L (suc k) w p =
    Cat_mono (λ u x. x) (twice_down L k) w (assoc-Cat L L (Power L (twice k)) w p)

-- The square of a language has the powers of the doubled exponent.
pub double-Power : (L : Language) (k : ℕ) (w : List ℕ) → Power (Cat L L) k w → Power L (k + k) w
double-Power L k w p = subst (λ (n : ℕ). Power L n w) (twice_lem k) (twice_up L k w p)

pub Power-double : (L : Language) (k : ℕ) (w : List ℕ) → Power L (k + k) w → Power (Cat L L) k w
Power-double L k w p = twice_down L k w (subst (λ (n : ℕ). Power L n w) (sym (twice_lem k)) p)

-- The empty word followed by a language.
pub Cat-empty_first : (M : Language) (w : List ℕ) → Cat (λ u. u ≡ []) M w → M w
Cat-empty_first M w (u, v, e, none_left, m) =
    subst M (sym (e ∙ ap (λ (x : List ℕ). x ++ v) none_left)) m

pub empty_first-Cat : (M : Language) (w : List ℕ) → M w → Cat (λ u. u ≡ []) M w
empty_first-Cat M w m = ([], w, refl, refl, m)

zero_add : (k : ℕ) → 0 + k ≡ k
zero_add k = omega arith

suc_add : (c k : ℕ) → suc c + k ≡ suc (c + k)
suc_add c k = omega arith

pub add-Power :
    (L : Language) (c k : ℕ) (w : List ℕ) → Cat (Power L c) (Power L k) w → Power L (c + k) w
add-Power L zero k w (u, v, e, none_left, p) =
    let same : w ≡ v = e ∙ ap (λ (x : List ℕ). x ++ v) none_left in rw (zero_add k, same) p
add-Power L (suc c) k w p =
    rw (suc_add c k)
      (Cat_mono {L = L} (λ u x. x) (add-Power L c k) w (Cat-assoc L (Power L c) (Power L k) w p))

pub Power-add :
    (L : Language) (c k : ℕ) (w : List ℕ) → Power L (c + k) w → Cat (Power L c) (Power L k) w
Power-add L zero k w p = ([], w, refl, refl, rw (zero_add k) at p)
Power-add L (suc c) k w p =
    let q : Power L (suc (c + k)) w = rw (suc_add c k) at p in
    assoc-Cat L (Power L c) (Power L k) w (Cat_mono {L = L} (λ u x. x) (Power-add L c k) w q)
