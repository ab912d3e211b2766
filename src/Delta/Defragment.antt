-- ===== src/Delta/Defragment.antt =====
-- src/nfa/delta.cc: `Delta::defragment` and the function `defragment`, with `OrdVector::erase_if`
-- and `OrdVector::rename` (include/mata/utils/ord-vector.hh). A `BoolVector` is a list of Booleans.
use mata.Common.{ℕ, zero, suc, Bool, true, false, List, [], ◌∷◌, if◌then◌else◌, get_or}
use mata.OrdVector.Rename.{rename}
use mata.Delta.{SymbolPost, StatePost, Delta}
pub mod Compact
pub mod Agree
pub mod Transitions

-- `is_staying[q]` and `renaming[q]`
abbrev pub stays : List Bool → ℕ → Bool
stays is_staying q = get_or is_staying q false

abbrev pub renamed : List ℕ → ℕ → ℕ
renamed renaming q = get_or renaming q 0

-- `targets.erase_if(…)`, which erases the targets that do not stay
unfoldable pub erase_if_leaving : List Bool → List ℕ → List ℕ
erase_if_leaving is_staying [] = []
erase_if_leaving is_staying (target ∷ targets) =
    let rest = erase_if_leaving is_staying targets in
    if stays is_staying target then target ∷ rest else rest

abbrev pub unless_empty : ℕ → List ℕ → StatePost → StatePost
unless_empty symbol [] post = post
unless_empty symbol (t ∷ ts) post = record { symbol = symbol; targets = t ∷ ts } ∷ post

-- The loop over the symbol posts of one source, which erases those that become empty.
unfoldable pub defragment_post : List Bool → List ℕ → StatePost → StatePost
unfolding erase_if_leaving rename
defragment_post is_staying renaming [] = []
defragment_post is_staying renaming (p ∷ ps) =
    unless_empty p.symbol (rename renaming (erase_if_leaving is_staying p.targets))
      (defragment_post is_staying renaming ps)

-- The loop over the sources from `source_orig` on. A post that stays moves to the position behind
-- those that stay before it, so that the posts that stay are left in their order.
unfoldable pub defragment_from : List Bool → List ℕ → ℕ → Delta → Delta
unfolding defragment_post
defragment_from is_staying renaming source_orig [] = []
defragment_from is_staying renaming source_orig (post ∷ posts) =
    let rest = defragment_from is_staying renaming (suc source_orig) posts in
    if stays is_staying source_orig then defragment_post is_staying renaming post ∷ rest else rest

-- `Delta::defragment(is_staying, renaming)`
unfoldable pub defragment : List Bool → List ℕ → Delta → Delta
unfolding defragment_from
defragment is_staying renaming delta = defragment_from is_staying renaming 0 delta

-- `filter_rename_symbol_post` of the function `defragment`
unfoldable pub filter_rename_targets : List Bool → List ℕ → List ℕ → List ℕ
filter_rename_targets is_staying renaming [] = []
filter_rename_targets is_staying renaming (target ∷ targets) =
    let rest = filter_rename_targets is_staying renaming targets in
    if stays is_staying target then renamed renaming target ∷ rest else rest

-- `filter_rename_state_post`
unfoldable pub filter_rename_state_post : List Bool → List ℕ → StatePost → StatePost
unfolding filter_rename_targets
filter_rename_state_post is_staying renaming [] = []
filter_rename_state_post is_staying renaming (p ∷ ps) =
    unless_empty p.symbol (filter_rename_targets is_staying renaming p.targets)
      (filter_rename_state_post is_staying renaming ps)

unfoldable pub defragmented_from : List Bool → List ℕ → ℕ → Delta → Delta
unfolding filter_rename_state_post
defragmented_from is_staying renaming source [] = []
defragmented_from is_staying renaming source (post ∷ posts) =
    let rest = defragmented_from is_staying renaming (suc source) posts in
    if stays is_staying source
    then filter_rename_state_post is_staying renaming post ∷ rest
    else rest

-- The function `defragment(delta, is_staying, renaming)`.
unfoldable pub defragmented : List Bool → List ℕ → Delta → Delta
unfolding defragmented_from
defragmented is_staying renaming delta = defragmented_from is_staying renaming 0 delta

-- The loop that `trim` makes the renaming with: new names for the states that stay, in order.
unfoldable pub make_renaming : ℕ → List Bool → List ℕ
make_renaming new_state [] = []
make_renaming new_state (true ∷ useful_states) =
    new_state ∷ make_renaming (suc new_state) useful_states
make_renaming new_state (false ∷ useful_states) = 0 ∷ make_renaming new_state useful_states
