-- ===== src/Grid/View/Overlays.antt =====
-- The order that an overlay of grid/viewLayout.ts puts a view in, and the overlay that a view seeds.
pub mod Ranks
pub mod Seeds
use multimux.Base.{
  ℕ, some_inj, All-map, ◌+◌, ◌≤◌, ◌≡◌, ◌≢◌, refl, sym, ap, ◌∙◌, Bool, true, false, none, some, List,
  [], ◌∷◌, Option, any, ◌&&◌, ◌||◌, if◌then◌else◌, leb, str_eq, Bool-cases, inl, inr, map, arith,
  filter, All, Str, str_eq_iff, str_eq_refl, is_some, not, subst,
}
use mathlib.Core.List.{Perm}
use multimux.Base.Sort.{
  sort_by, sort_by-perm, IsSorted, sort_by-IsSorted, sort_by_of_IsSorted, filter-sort_by,
}
use multimux.Grid.Numbers.{Numbers}
use multimux.Grid.Sizes.{Shape, normalize_sizes}
use multimux.Grid.Model.{Tile, Layout, occupied, normalize}
use multimux.Grid.Model.Packing.{
  IsCanonical-unique, occupied-normalize, cols-normalize, normalize-IsCanonical,
}
use multimux.Grid.View.{
  View, Overlay, tile_key, order_of, seed_overlay, rank_from, after_in, arranged, apply_overlay,
  rank_after, snd_of, fst_of, or_nil,
}
use multimux.Grid.View.Mirrors.{Mirrors, pairs_of-Mirrors, occupied-slots}
use multimux.Grid.View.Overlays.Ranks.{
  named, misplaced, after-asym, after-chain, unnamed-same, IsSorted-misplaced,
}
use multimux.Grid.View.Overlays.Seeds.{
  DistinctKeys, Ranked, Ranked-IsSorted, seeded-Ranked, row_sizes-normalize, col_sizes-normalize,
  normalize_sizes-same, or_nil-some,
}

-- An overlay applied to a view that mirrors the stored layout shows the same tiles with their places.
-- Nowhere does a tile that the overlay names stand behind one that it does not name, or behind one
-- that its order has later (a key counts at its last place); the tiles that it does not name keep the
-- order that they had.
pub apply_overlay-IsSorted :
    (R : Numbers) (stored : Layout R.Num) (v : View R.Num) (o : Overlay R.Num)
    (m : Mirrors stored v)
    → (v' : View R.Num) × (sorted : List (Tile × ℕ)) × (apply_overlay R v (some o) ≡ some v')
      × (occupied v'.view.tiles ≡ map fst_of sorted)
      × (v'.indices ≡ map snd_of sorted)
      × Perm sorted m.pairs
      × IsSorted (misplaced o.order) sorted
      × (filter (λ p. not (named o.order p)) sorted ≡ filter (λ p. not (named o.order p)) m.pairs)
unfolding apply_overlay arranged
apply_overlay-IsSorted R stored v o m =
    let after = after_in o.order in
    let sorted = sort_by after m.pairs in
    (
      arranged R o sorted,
      sorted,
      rw (pairs_of-Mirrors stored v m) refl,
      occupied-normalize R _ _ _ _ ∙ occupied-slots sorted,
      refl,
      sort_by-perm after m.pairs,
      IsSorted-misplaced o.order sorted
          (sort_by-IsSorted after (after-asym o.order) (after-chain o.order) m.pairs),
      filter-sort_by after (λ p. not (named o.order p)) (unnamed-same o.order) m.pairs,
    )

-- Where a view mirrors the stored layout and no two tiles on screen have one key, applying the overlay
-- seeded from the view gives the same tiles in the same order, of the same places, the same rows and
-- columns, and the view's own sizes, made to fit that shape once more.
pub apply_overlay-seed_overlay :
    (R : Numbers) (stored : Layout R.Num) (v : View R.Num) (m : Mirrors stored v)
    → DistinctKeys (occupied v.view.tiles)
    → (v' : View R.Num) × (apply_overlay R v (some (seed_overlay v.view)) ≡ some v')
      × (v'.view.tiles ≡ v.view.tiles)
      × (v'.view.shape ≡ v.view.shape)
      × (v'.indices ≡ v.indices)
      × (v'.view.row_sizes
          ≡ some (normalize_sizes R v.view.shape v.view.row_sizes v.view.col_sizes).rows)
      × (v'.view.col_sizes
          ≡ some (normalize_sizes R v.view.shape v.view.row_sizes v.view.col_sizes).cols)
unfolding apply_overlay seed_overlay order_of arranged
apply_overlay-seed_overlay R stored v m d =
    let order = map tile_key (occupied v.view.tiles) in
    let keys : order ≡ map tile_key (map fst_of m.pairs) = ap (map tile_key) m.tiles_eq in
    let ranked : Ranked order 0 m.pairs =
      seeded-Ranked order 0 m.pairs (λ k r e. ap (λ ks. rank_from 0 ks k) keys ∙ e)
        (subst DistinctKeys m.tiles_eq d) in
    let same =
      sort_by_of_IsSorted (after_in order) m.pairs (Ranked-IsSorted order 0 m.pairs ranked) in
    let v' = arranged R (seed_overlay v.view) m.pairs in
    let (shape, tiles) =
      IsCanonical-unique v'.view v.view (normalize-IsCanonical R _ _ _ _) m.canonical
        (occupied-normalize R _ _ _ _ ∙ occupied-slots m.pairs ∙ sym m.tiles_eq)
        (cols-normalize R _ _ _ _ ∙ omega (arith, m.canonical.cols_low, m.canonical.cols_high)) in
    let (rs, row_eq, row_length) = m.canonical.row_fit in
    let (cs, col_eq, col_length, widths) = m.canonical.col_fit in
    let row_same = or_nil-some v.view.row_sizes rs row_eq in
    let col_same = or_nil-some v.view.col_sizes cs col_eq in
    let sizes = normalize_sizes-same R shape row_same col_same in
    (
      v',
      rw (pairs_of-Mirrors stored v m, same) refl,
      tiles,
      shape,
      sym m.indices_eq,
      row_sizes-normalize R _ _ _ _ ∙ ap (λ z. some z.rows) sizes,
      col_sizes-normalize R _ _ _ _ ∙ ap (λ z. some z.cols) sizes,
    )
