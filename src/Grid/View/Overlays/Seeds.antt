-- ===== src/Grid/View/Overlays/Seeds.antt =====
-- What an overlay that grid/viewLayout.ts seeds from a view keeps of it.
use multimux.Base.{
  ℕ, ◌+◌, ◌≤◌, ◌≡◌, ◌≢◌, refl, sym, false, none, some, List, [], ◌∷◌, Option, map, arith, All, Str,
  str_eq_iff, str_eq_refl,
}
use multimux.Base.Sort.{IsSorted}
use multimux.Grid.Numbers.{Numbers}
use multimux.Grid.Sizes.{Shape, normalize_sizes}
use multimux.Grid.Model.{Tile, normalize}
use multimux.Grid.View.{tile_key, rank_from, after_in, fst_of, or_nil}

-- No two tiles of the list have one key.
abbrev pub DistinctKeys : List Tile → Type 0
DistinctKeys [] = Unit
DistinctKeys (t ∷ ts) = All (λ u. tile_key t ≢ tile_key u) ts × DistinctKeys ts

rank_from-absent :
    (i : ℕ) (t : Tile) (ts : List Tile)
    → All (λ u. tile_key t ≢ tile_key u) ts
    → rank_from i (map tile_key ts) (tile_key t) ≡ none
unfolding rank_from
rank_from-absent i t [] h = refl
rank_from-absent i t (u ∷ ts) (h, k) = rw (rank_from-absent (i + 1) t ts k) (
    ground
      (arith, str_eq_iff (tile_key u) (tile_key t), λ (e : tile_key u ≡ tile_key t). h (sym e)))

-- The overlay gives the tiles the ranks from `i` on.
abbrev pub Ranked : List Str → ℕ → List (Tile × ℕ) → Type 0
Ranked order i [] = Unit
Ranked order i (p ∷ ps) = (rank_from 0 order (tile_key p.0) ≡ some i) × Ranked order (i + 1) ps

Ranked-later :
    (order : List Str) (x : Tile × ℕ) (i k : ℕ) (ps : List (Tile × ℕ))
    → rank_from 0 order (tile_key x.0) ≡ some i
    → i ≤ k
    → Ranked order k ps
    → All (λ y. after_in order x y ≡ false) ps
unfolding after_in
Ranked-later order x i k [] e le h = tt
Ranked-later order x i k (y ∷ ps) e le (f, h) =
    (rw (e, f) (ground arith), Ranked-later order x i (k + 1) ps e (omega arith) h)

pub Ranked-IsSorted :
    (order : List Str) (i : ℕ) (ps : List (Tile × ℕ))
    → Ranked order i ps
    → IsSorted (after_in order) ps
Ranked-IsSorted order i [] h = tt
Ranked-IsSorted order i (p ∷ ps) (e, h) =
    (Ranked-later order p i (i + 1) ps e (omega arith) h, Ranked-IsSorted order (i + 1) ps h)

rank_from-tail :
    (i : ℕ) (x k : Str) (order : List Str) (r : ℕ)
    → rank_from (i + 1) order k ≡ some r
    → rank_from i (x ∷ order) k ≡ some r
unfolding rank_from
rank_from-tail i x k order r e = rw e refl

rank_from-head :
    (i : ℕ) (k : Str) (order : List Str)
    → rank_from (i + 1) order k ≡ none
    → rank_from i (k ∷ order) k ≡ some i
unfolding rank_from
rank_from-head i k order e = rw (e, str_eq_refl k) refl

pub seeded-Ranked :
    (order : List Str) (i : ℕ) (ps : List (Tile × ℕ))
    → ((k : Str) (r : ℕ)
        → rank_from i (map tile_key (map fst_of ps)) k ≡ some r
        → rank_from 0 order k ≡ some r)
    → DistinctKeys (map fst_of ps)
    → Ranked order i ps
seeded-Ranked order i [] within h = tt
seeded-Ranked order i (p ∷ ps) within (h, d) = (
  within _ i (rank_from-head i _ _ (rank_from-absent (i + 1) p.0 (map fst_of ps) h)),
  seeded-Ranked order (i + 1) ps (λ k r e. within k r (rank_from-tail i _ k _ r e)) d,
)

pub row_sizes-normalize :
    (R : Numbers) (tiles : List (Option Tile)) (c : ℕ) (rs : Option (List R.Num))
    (cs : Option (List (List R.Num)))
    → (normalize R tiles c rs cs).row_sizes
      ≡ some (normalize_sizes R (normalize R tiles c rs cs).shape rs cs).rows
unfolding normalize
row_sizes-normalize R tiles c rs cs = refl

pub col_sizes-normalize :
    (R : Numbers) (tiles : List (Option Tile)) (c : ℕ) (rs : Option (List R.Num))
    (cs : Option (List (List R.Num)))
    → (normalize R tiles c rs cs).col_sizes
      ≡ some (normalize_sizes R (normalize R tiles c rs cs).shape rs cs).cols
unfolding normalize
col_sizes-normalize R tiles c rs cs = refl

pub normalize_sizes-same :
    (R : Numbers) {a b : Shape} {rs rs' : Option (List R.Num)} {cs cs' : Option (List (List R.Num))}
    → a ≡ b
    → rs ≡ rs'
    → cs ≡ cs'
    → normalize_sizes R a rs cs ≡ normalize_sizes R b rs' cs'
normalize_sizes-same R e f g = rw (e, f, g) refl

-- What is stored is stored again.
pub or_nil-some :
    {A : Type 0} (o : Option (List A)) (xs : List A) → o ≡ some xs → some (or_nil o) ≡ o
or_nil-some o xs e = rw e refl
