-- ===== src/Grid/DirFilter/Stored.antt =====
-- The stored selection reads back as it was written.
use multimux.Base.{ℕ, ◌≡◌, refl, ap, Option, none, some, List, [], ◌∷◌, Str}
use multimux.Base.Json.{Item}
use mathlib.Core.Option
use multimux.Grid.DirFilter.{
  strings_of, non_empty, selected_dirs, items_of, set_selected_dirs, solo_dir, set_solo_dir,
}

pub strings_of-items_of : (N : Type 0) (ss : List Str) → strings_of (items_of {N = N} ss) ≡ some ss
unfolding strings_of items_of
strings_of-items_of N [] = refl
strings_of-items_of N (s ∷ ss) = ap (Option.map (s ∷◌)) (strings_of-items_of N ss)

-- A selection reads back as it was stored, and an empty one as none at all.
selected_dirs-set :
    (N : Type 0) (dirs : Option (List Str))
    → selected_dirs (Item.doc (set_selected_dirs {N = N} dirs)) ≡ non_empty dirs
unfolding selected_dirs set_selected_dirs
selected_dirs-set N none = refl
selected_dirs-set N (some []) = refl
selected_dirs-set N (some (s ∷ [])) = refl
selected_dirs-set N (some (s ∷ r ∷ rest)) = ap non_empty (strings_of-items_of N (s ∷ r ∷ rest))

-- So does the one directory shown on its own.
pub solo_dir-set :
    (N : Type 0) (c : ℕ) (path : Str)
    → solo_dir (Item.doc (set_solo_dir {N = N} (some (c ∷ path)))) ≡ some (c ∷ path)
unfolding solo_dir set_solo_dir
solo_dir-set N c path = refl
