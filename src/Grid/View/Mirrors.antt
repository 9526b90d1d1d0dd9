-- ===== src/Grid/View/Mirrors.antt =====
-- A view and the stored layout: every tile on screen knows its place in the layout that edits go to.
use mathlib.Core.List.Perm
use mathlib.Core.List.{Perm}
use mathlib.Core.Option
use multimux.Base.{
  ℕ, zero, suc, ◌+◌, ◌*◌, ◌≡◌, refl, ap, ap₂, ◌∙◌, inl, inr, Bool, Option, none, some, List, [],
  ◌∷◌, map, arith, get_elem?, filter, All, Bool-cases,
}
use multimux.Base.Sort.{sort_by, sort_by-perm, All-sort_by}
use multimux.Grid.Numbers.{Numbers}
use multimux.Grid.Model.{Tile, Layout, occupied, pad}
use multimux.Grid.Model.Swaps.{packed}
use multimux.Grid.Model.Packing.{IsCanonical, occupied-normalize, normalize-IsCanonical}
use multimux.Grid.View.{
  View, Overlay, visible_from, filter_layout, pairs_of, arranged, apply_overlay, after_in, fst_of,
  snd_of, slot_of,
}

abbrev pub PlacedIn : List (Option Tile) → Tile × ℕ → Type 0
PlacedIn stored p = get_elem? stored p.1 ≡ some (some p.0)

-- The view shows `pairs`: tiles, each with its place in the stored layout.
pub record Mirrors {N : Type 0} (stored : Layout N) (v : View N) : Type 0 where
  pub pairs : List (Tile × ℕ)
  pub tiles_eq : occupied v.view.tiles ≡ map fst_of pairs
  pub indices_eq : v.indices ≡ map snd_of pairs
  pub placed : All (PlacedIn stored.tiles) pairs
  pub canonical : IsCanonical v.view

-- The loop's index is the place in the stored list.
placed-visible_from :
    (vis : Tile → Bool) (stored : List (Option Tile)) (i : ℕ) (tiles : List (Option Tile))
    → ((j : ℕ) → get_elem? stored (i + j) ≡ get_elem? tiles j)
    → All (PlacedIn stored) (visible_from vis i tiles)
unfolding visible_from
placed-visible_from vis stored i [] at = tt
placed-visible_from vis stored i (none ∷ tiles) at =
    placed-visible_from vis stored (i + 1) tiles
      (λ j. ap (get_elem? stored) (omega arith) ∙ at (suc j))
placed-visible_from vis stored i (some t ∷ tiles) at =
    let rest : All (PlacedIn stored) (visible_from vis (i + 1) tiles) =
      placed-visible_from vis stored (i + 1) tiles
        (λ j. ap (get_elem? stored) (omega arith) ∙ at (suc j)) in
    elim (Bool-cases (vis t)) [
      | inl e ↦ rw e (ap (get_elem? stored) (omega arith) ∙ at 0, rest)
      | inr e ↦ rw e rest
    ]

-- What is on screen is what the filter lets through, in the stored order.
pub fst-visible_from :
    (vis : Tile → Bool) (i : ℕ) (tiles : List (Option Tile))
    → map fst_of (visible_from vis i tiles) ≡ filter vis (occupied tiles)
unfolding visible_from
fst-visible_from vis i [] = refl
fst-visible_from vis i (none ∷ tiles) = fst-visible_from vis (i + 1) tiles
fst-visible_from vis i (some t ∷ tiles) = ground (arith, fst-visible_from vis (i + 1) tiles)

pub occupied-slots : (pairs : List (Tile × ℕ)) → occupied (map slot_of pairs) ≡ map fst_of pairs
occupied-slots [] = refl
occupied-slots (p ∷ pairs) = ap (p.0 ∷◌) (occupied-slots pairs)

pairs_of-packed :
    (pairs : List (Tile × ℕ)) (k : ℕ)
    → pairs_of (packed (map fst_of pairs) k) (map snd_of pairs) ≡ some pairs
unfolding pairs_of
pairs_of-packed [] zero = refl
pairs_of-packed [] (suc k) = pairs_of-packed [] k
pairs_of-packed (p ∷ pairs) k = ap (Option.map (p ∷◌)) (pairs_of-packed pairs k)

-- A view that mirrors the layout has an index for every tile.
pub pairs_of-Mirrors :
    {N : Type 0} (stored : Layout N) (v : View N) (m : Mirrors stored v)
    → pairs_of v.view.tiles v.indices ≡ some m.pairs
unfolding pad
pairs_of-Mirrors stored v m =
    ap₂ pairs_of
      (m.canonical.packed
        ∙ ap (λ ts. pad (map some ts) (v.view.shape.rows * v.view.shape.cols)) m.tiles_eq)
      m.indices_eq
    ∙ pairs_of-packed m.pairs _

module _ (R : Numbers) where
  open R use {Num}

  -- A filtered view mirrors the layout, and shows the tiles that the filter lets through.
  pub filter_layout-Mirrors :
      (stored : Layout Num) (vis : Tile → Bool)
      → Mirrors stored (filter_layout R stored vis)
        × (occupied (filter_layout R stored vis).view.tiles ≡ filter vis (occupied stored.tiles))
  unfolding filter_layout
  filter_layout-Mirrors stored vis =
      let pairs = visible_from vis 0 stored.tiles in
      let shown =
        occupied-normalize R (map slot_of pairs) stored.shape.cols stored.row_sizes stored.col_sizes
        ∙ occupied-slots pairs in
      (
        record {
          pairs = pairs;
          tiles_eq = shown;
          indices_eq = refl;
          placed =
              placed-visible_from vis stored.tiles 0 stored.tiles
                (λ j. ap (get_elem? stored.tiles) (omega arith));
          canonical = normalize-IsCanonical R _ _ _ _;
        },
        shown ∙ fst-visible_from vis 0 stored.tiles,
      )

  -- An overlay reorders a view that mirrors the layout: nothing on screen is lost or added, and the
  -- indices follow the tiles.
  pub apply_overlay-Mirrors :
      (stored : Layout Num) (v : View Num) (o : Option (Overlay Num)) (m : Mirrors stored v)
      → (v' : View Num) × (apply_overlay R v o ≡ some v')
        × (m' : Mirrors stored v') × Perm m'.pairs m.pairs
  unfolding apply_overlay arranged
  apply_overlay-Mirrors stored v none m = (v, refl, m, Perm.refl m.pairs)
  apply_overlay-Mirrors stored v (some o) m =
      let sorted = sort_by (after_in o.order) m.pairs in
      (
        arranged R o sorted,
        rw (pairs_of-Mirrors stored v m) refl,
        record {
          pairs = sorted;
          tiles_eq = occupied-normalize R _ _ _ _ ∙ occupied-slots sorted;
          indices_eq = refl;
          placed = All-sort_by (after_in o.order) _ m.pairs m.placed;
          canonical = normalize-IsCanonical R _ _ _ _;
        },
        sort_by-perm (after_in o.order) m.pairs,
      )
