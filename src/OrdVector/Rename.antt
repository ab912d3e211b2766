-- ===== src/OrdVector/Rename.antt =====
-- include/mata/utils/utils.hh: `rename` and `filter`, as they treat a vector of numbers in place.
use mata.Common.{
  ◌++◌, ◌+◌, ◌≤◌, ◌<◌, drop, take, ap, sym, arith, ◌≡◌, ◌∙◌, refl, inl, inr, Bool-cases, length-set,
  ℕ, zero, suc, Bool, List, [], ◌∷◌, ◌==◌, if◌then◌else◌, get_or, set, length,
}

-- The loop of `rename` from position `i` on. The test compares the position with the element.
unfoldable pub rename_from : ℕ → List ℕ → List ℕ → List ℕ
rename_from i renaming [] = []
rename_from i renaming (x ∷ xs) =
    (if i == x then x else get_or renaming x 0) ∷ rename_from (suc i) renaming xs

-- `rename(vec, renaming)`
unfoldable pub rename : List ℕ → List ℕ → List ℕ
unfolding rename_from
rename renaming xs = rename_from 0 renaming xs

-- The loop of `filter` from position `i` on, `fuel` elements before the end: `vec` and `last`.
filter_loop : (ℕ → Bool) → ℕ → ℕ → List ℕ → ℕ → List ℕ × ℕ
filter_loop is_staying zero i vec last = (vec, last)
filter_loop is_staying (suc fuel) i vec last =
    let keep = filter_loop is_staying fuel (suc i) (set vec last (get_or vec i 0)) (suc last) in
    let drop = filter_loop is_staying fuel (suc i) vec last in
    if is_staying (get_or vec i 0) then keep else drop

-- `filter(vec, is_staying)`: `vec.reserve(last)` leaves the elements from `last` on in place.
unfoldable pub filter : (ℕ → Bool) → List ℕ → List ℕ
unfolding filter_loop
filter is_staying vec = (filter_loop is_staying (length vec) 0 vec 0).0

-- The elements that the predicate keeps.
abbrev pub kept : (ℕ → Bool) → List ℕ → List ℕ
kept is_staying [] = []
kept is_staying (x ∷ xs) = if is_staying x then x ∷ kept is_staying xs else kept is_staying xs

drop-set-lt : (vec : List ℕ) (last k x : ℕ) → last < k → drop k (set vec last x) ≡ drop k vec
drop-set-lt vec last zero x l = absurd (omega arith)
drop-set-lt [] last (suc k) x l = refl
drop-set-lt (y ∷ ys) zero (suc k) x l = refl
drop-set-lt (y ∷ ys) (suc last) (suc k) x l = drop-set-lt ys last k x (omega arith)

take-suc-set :
    (vec : List ℕ) (last x : ℕ)
    → last < length vec
    → take (suc last) (set vec last x) ≡ take last vec ++ x ∷ []
take-suc-set [] last x l = absurd (omega arith)
take-suc-set (y ∷ ys) zero x l = refl
take-suc-set (y ∷ ys) (suc last) x l =
    ap (λ (l : List ℕ). y ∷ l) (take-suc-set ys last x (omega arith))

drop-eq-cons :
    (vec : List ℕ) (i : ℕ) → i < length vec → drop i vec ≡ get_or vec i 0 ∷ drop (suc i) vec
drop-eq-cons [] i l = absurd (omega arith)
drop-eq-cons (y ∷ ys) zero l = refl
drop-eq-cons (y ∷ ys) (suc i) l = drop-eq-cons ys i (omega arith)

drop-ge : (vec : List ℕ) (i : ℕ) → length vec ≤ i → drop i vec ≡ []
drop-ge [] zero l = refl
drop-ge [] (suc i) l = refl
drop-ge (y ∷ ys) zero l = absurd (omega arith)
drop-ge (y ∷ ys) (suc i) l = drop-ge ys i (omega arith)

take-drop : (vec : List ℕ) (i : ℕ) → take i vec ++ drop i vec ≡ vec
take-drop vec zero = refl
take-drop [] (suc i) = refl
take-drop (y ∷ ys) (suc i) = ap (λ (l : List ℕ). y ∷ l) (take-drop ys i)

append-cons : (xs ys : List ℕ) (x : ℕ) → (xs ++ x ∷ []) ++ ys ≡ xs ++ x ∷ ys
append-cons [] ys x = refl
append-cons (z ∷ zs) ys x = ap (λ (l : List ℕ). z ∷ l) (append-cons zs ys x)

-- What the loop makes of the vector from the position `last` on.
abbrev rest_of : (ℕ → Bool) → ℕ → List ℕ → ℕ → List ℕ
rest_of is_staying i vec last =
    let staying = kept is_staying (drop i vec) in staying ++ drop (last + length staying) vec

filter_loop_lem :
    (is_staying : ℕ → Bool) (fuel i : ℕ) (vec : List ℕ) (last : ℕ)
    → i + fuel ≡ length vec
    → last ≤ i
    → (filter_loop is_staying fuel i vec last).0 ≡ take last vec ++ rest_of is_staying i vec last
unfolding filter_loop
filter_loop_lem is_staying zero i vec last e l =
    rw (drop-ge vec i (omega arith))
      (sym (take-drop vec last) ∙ ap (λ (k : ℕ). take last vec ++ drop k vec) (omega arith))
filter_loop_lem is_staying (suc fuel) i vec last e l =
    let x = get_or vec i 0 in
    let from = drop-eq-cons vec i (omega arith) in
    elim (Bool-cases (is_staying x)) [
      | inr drops ↦
          let rest = filter_loop_lem is_staying fuel (suc i) vec last (omega arith) (omega arith) in
          rw (drops, from, drops) rest
      | inl keeps ↦
          let vec' = set vec last x in
          let rest =
            filter_loop_lem is_staying fuel (suc i) vec' (suc last)
              (omega (arith, length-set vec last x)) (omega arith) in
          let staying = kept is_staying (drop (suc i) vec) in
          let behind = drop-set-lt vec last (suc i) x (omega arith) in
          let after = drop-set-lt vec last (suc last + length staying) x (omega arith) in
          let position : suc last + length staying ≡ last + suc (length staying) = omega arith in
          rw (keeps, from, keeps)
            (rest
              ∙ ap
                  (λ (ys : List ℕ).
                    take (suc last) vec'
                    ++ (kept is_staying ys ++ drop (suc last + length (kept is_staying ys)) vec'))
                  behind
              ∙ ap (λ (ys : List ℕ). take (suc last) vec' ++ (staying ++ ys)) after
              ∙ ap (λ (ys : List ℕ). ys ++ (staying ++ drop (suc last + length staying) vec))
                  (take-suc-set vec last x (omega arith))
              ∙ append-cons (take last vec) (staying ++ drop (suc last + length staying) vec) x
              ∙ ap (λ (k : ℕ). take last vec ++ (x ∷ staying ++ drop k vec)) position)
    ]

-- The function `filter` of utils.hh leaves a vector that starts with the elements that satisfy the
-- predicate, in their order, and has the elements of the given vector at all further positions.
pub filter-eq-kept :
    (is_staying : ℕ → Bool) (vec : List ℕ)
    → filter is_staying vec ≡ kept is_staying vec ++ drop (length (kept is_staying vec)) vec
unfolding filter
filter-eq-kept is_staying vec =
    filter_loop_lem is_staying (length vec) 0 vec 0 (omega arith) (omega arith)
    ∙ ap (λ (k : ℕ). kept is_staying vec ++ drop k vec) (omega arith)
