-- ===== src/SparseSet.antt =====
-- include/mata/utils/sparse-set.hh: the class `SparseSet<Number>`. The two vectors are lists; a
-- vector may be longer than `domain_size`, since `truncate` lowers the domain alone. Reads out of
-- bounds read 0 and writes out of bounds are lost; the invariant of `SparseSet/Invariant` shows
-- that a set in use makes neither. Numbers do not wrap: `val + 1` is taken below the limit.
use mata.Common.{
  ℕ, zero, suc, ◌+◌, ◌-◌, Bool, true, false, not, ◌&&◌, ◌||◌, List, [], ◌∷◌, Option, none, some,
  ltb, leb, ◌==◌, if◌then◌else◌, length, get_or, set, resize, take,
}
pub mod Invariant
pub mod Insert
pub mod Erase
pub mod Elements
pub mod Complement
pub mod Filter
pub mod Rename

pub record SparseSet : Type 0 where
  pub dense : List ℕ
  pub sparse : List ℕ
  pub size : ℕ
  pub domain_size : ℕ

abbrev pub empty_set : SparseSet
empty_set = record { dense = []; sparse = []; size = 0; domain_size = 0 }

-- `dense_[i]` and `sparse_[v]`
abbrev pub dense_at : SparseSet → ℕ → ℕ
dense_at s i = get_or s.dense i 0

abbrev pub sparse_at : SparseSet → ℕ → ℕ
sparse_at s v = get_or s.sparse v 0

-- The numbers from `begin()` to `end()`.
unfoldable pub elements : SparseSet → List ℕ
elements s = take s.size s.dense

unfoldable pub clear : SparseSet → SparseSet
clear s = record s { size = 0 }

unfoldable pub reserve : ℕ → SparseSet → SparseSet
reserve u s =
    if ltb s.domain_size u
    then record s { dense = resize u 0 s.dense; sparse = resize u 0 s.sparse; domain_size = u }
    else s

unfoldable pub contains : SparseSet → ℕ → Bool
contains s val =
    ltb val s.domain_size && ltb (sparse_at s val) s.size && dense_at s (sparse_at s val) == val

-- The three writes of `insert`.
put : ℕ → SparseSet → SparseSet
put val s = record s {
  dense = set s.dense s.size val;
  sparse = set s.sparse val s.size;
  size = suc s.size;
}

-- `if (val >= domain_size_) { reserve(val + 1); }`
unfoldable pub grown : ℕ → SparseSet → SparseSet
grown val s = if leb s.domain_size val then reserve (val + 1) s else s

unfoldable pub insert : ℕ → SparseSet → SparseSet
unfolding put
insert val s = if contains s val then s else put val (grown val s)

-- The write `vec[i] = x`, which has no result where it is out of bounds.
abbrev pub write : List ℕ → ℕ → ℕ → Option (List ℕ)
write vec i x = if ltb i (length vec) then some (set vec i x) else none

-- The writes of `insert` and `insert` itself, with every write checked against the vector as it is
-- at that point.
unfoldable pub put_checked : ℕ → SparseSet → Option SparseSet
put_checked val s = elim (write s.dense s.size val) [
  | none ↦ none
  | some dense' ↦ elim (write s.sparse val s.size) [
    | none ↦ none
    | some sparse' ↦ some (record s { dense = dense'; sparse = sparse'; size = suc s.size })
  ]
]

unfoldable pub insert_checked : ℕ → SparseSet → Option SparseSet
unfolding put_checked
insert_checked val s = if contains s val then some s else put_checked val (grown val s)

-- `dense_[sparse_[number]] = dense_[size_ - 1]; sparse_[dense_[size_ - 1]] = sparse_[number];`
unfoldable pub erase_nocheck : ℕ → SparseSet → SparseSet
erase_nocheck number s =
    let last = dense_at s (s.size - 1) in
    let dense' = set s.dense (sparse_at s number) last in
    record s {
      dense = dense';
      sparse = set s.sparse (get_or dense' (s.size - 1) 0) (sparse_at s number);
      size = s.size - 1;
    }

unfoldable pub erase : ℕ → SparseSet → SparseSet
erase val s = if contains s val then erase_nocheck val s else s

-- `insert(first, last)` and `erase(first, last)`
unfoldable pub insert_all : List ℕ → SparseSet → SparseSet
insert_all [] s = s
insert_all (x ∷ xs) s = insert_all xs (insert x s)

unfoldable pub erase_all : List ℕ → SparseSet → SparseSet
erase_all [] s = s
erase_all (x ∷ xs) s = erase_all xs (erase x s)

unfoldable pub intersects_with : SparseSet → List ℕ → Bool
intersects_with s [] = false
intersects_with s (x ∷ xs) = if contains s x then true else intersects_with s xs

-- The loop of `max()` over the numbers from `begin()` to `end()`.
max_loop : ℕ → List ℕ → ℕ
max_loop m [] = m
max_loop m (x ∷ xs) = max_loop (if ltb m x then x else m) xs

unfoldable pub max : SparseSet → ℕ
unfolding max_loop elements
max s = max_loop 0 (elements s)

unfoldable pub truncate : SparseSet → SparseSet
unfolding max
truncate s = record s { domain_size = if s.size == 0 then 0 else max s + 1 }

-- The assertion `consistent()`.
unfoldable pub consistent : SparseSet → Bool
unfolding max
consistent s =
    leb s.size s.domain_size
    && (ltb (max s) s.domain_size || s.size == 0 && s.domain_size == 0)
    && leb s.domain_size (length s.dense)
    && leb s.domain_size (length s.sparse)

-- The body of the first loop of `complement`.
toggle : ℕ → SparseSet → SparseSet
toggle i s = if contains s i then erase_nocheck i s else insert i s

-- The two loops of `complement`, over `n` numbers from `i` on.
toggle_loop : ℕ → ℕ → SparseSet → SparseSet
toggle_loop zero i s = s
toggle_loop (suc n) i s = toggle_loop n (suc i) (toggle i s)

erase_loop : ℕ → ℕ → SparseSet → SparseSet
erase_loop zero i s = s
erase_loop (suc n) i s = erase_loop n (suc i) (erase i s)

unfoldable pub complement : ℕ → SparseSet → SparseSet
unfolding toggle toggle_loop erase_loop
complement new_domain_size s =
    erase_loop (s.domain_size - new_domain_size) new_domain_size (toggle_loop new_domain_size 0 s)

-- The writes of one round of `rename`: the position `i` gets the number `q`.
rename_at : ℕ → ℕ → SparseSet → SparseSet
rename_at i q s =
    let s' = grown q (record s { dense = set s.dense i q }) in
    record s' { sparse = set s'.sparse q i }

rename_step : (ℕ → ℕ) → ℕ → SparseSet → SparseSet
rename_step renaming i s =
    let q = renaming (dense_at s i) in if dense_at s i == q then s else rename_at i q s

-- The loop of `rename`, over `n` positions from `i` on.
rename_loop : (ℕ → ℕ) → ℕ → ℕ → SparseSet → SparseSet
unfolding rename_step
rename_loop renaming zero i s = s
rename_loop renaming (suc n) i s = rename_loop renaming n (suc i) (rename_step renaming i s)

unfoldable pub rename : (ℕ → ℕ) → SparseSet → SparseSet
unfolding rename_at rename_loop
rename renaming s = rename_loop renaming s.size 0 s

-- `filter`: the position `i` moves on where its number stays, and the number is erased where it
-- does not. Each round does one or the other, so `size` rounds are enough.
filter_loop : (ℕ → Bool) → ℕ → ℕ → SparseSet → SparseSet
filter_loop is_staying zero i s = s
filter_loop is_staying (suc fuel) i s =
    let next = filter_loop is_staying fuel (suc i) s in
    let again = filter_loop is_staying fuel i (erase (dense_at s i) s) in
    if ltb i s.size then (if is_staying (dense_at s i) then next else again) else s

unfoldable pub filter : (ℕ → Bool) → SparseSet → SparseSet
unfolding filter_loop
filter is_staying s = filter_loop is_staying s.size 0 s

disjoint_loop : List ℕ → SparseSet → Bool
disjoint_loop [] b = true
disjoint_loop (x ∷ xs) b = if contains b x then false else disjoint_loop xs b

-- `are_disjoint(a, b)`, which swaps its arguments to walk through the smaller set
unfoldable pub are_disjoint : SparseSet → SparseSet → Bool
unfolding disjoint_loop elements
are_disjoint a b =
    if ltb b.size a.size then disjoint_loop (elements b) a else disjoint_loop (elements a) b
