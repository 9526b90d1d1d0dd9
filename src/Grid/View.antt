-- ===== src/Grid/View.antt =====
-- What a browser shows of the stored layout: `filterLayout` of grid/dirFilter.ts, and
-- grid/viewLayout.ts.
pub mod Keys
pub mod Mirrors
pub mod Overlays
pub mod Storage
use multimux.Base.{
  ℕ, zero, suc, ◌+◌, Bool, true, false, not, ◌&&◌, ◌||◌, Option, none, some, List, [], ◌∷◌, ◌++◌,
  map, if◌then◌else◌, leb, ltb, length, get_elem?, set, Str, str_eq, codes,
}
use multimux.Base.Sort.{sort_by}
use multimux.Base.Decimal.{decimal}
use multimux.Base.Json.{Json, Items, Fields, Item}
use mathlib.Core.Option
use multimux.Grid.Numbers.{Numbers}
use multimux.Grid.Model.{Tile, Layout, occupied, normalize}

-- `tileKey` of grid/model.ts
unfoldable pub tile_key : Tile → Str
tile_key t = t.server_id ++ (codes ":" ++ decimal t.session_id)

-- A layout that is on screen, with the index in the stored layout of each tile on it.
pub record View (N : Type 0) : Type 0 where
  pub view : Layout N
  pub indices : List ℕ

-- The loop of `filterLayout`, from index `i` on.
unfoldable pub visible_from : (Tile → Bool) → ℕ → List (Option Tile) → List (Tile × ℕ)
visible_from is_visible i [] = []
visible_from is_visible i (none ∷ tiles) = visible_from is_visible (i + 1) tiles
visible_from is_visible i (some t ∷ tiles) =
    let rest = visible_from is_visible (i + 1) tiles in if is_visible t then (t, i) ∷ rest else rest

abbrev pub fst_of : Tile × ℕ → Tile
fst_of p = p.0

abbrev pub snd_of : Tile × ℕ → ℕ
snd_of p = p.1

abbrev pub slot_of : Tile × ℕ → Option Tile
slot_of p = some p.0

-- One directory's arrangement.
pub record Overlay (N : Type 0) : Type 0 where
  pub cols : ℕ
  pub order : List Str
  pub row_sizes : List N
  pub col_sizes : List (List N)

-- `orderOf`
unfoldable pub order_of : {N : Type 0} → Layout N → List Str
order_of view = map tile_key (occupied view.tiles)

abbrev pub or_nil : {A : Type 0} → Option (List A) → List A
or_nil none = []
or_nil (some xs) = xs

unfoldable pub seed_overlay : {N : Type 0} → Layout N → Overlay N
seed_overlay view = record {
  cols = view.shape.cols;
  order = order_of view;
  row_sizes = or_nil view.row_sizes;
  col_sizes = or_nil view.col_sizes;
}

-- `new Map(order.map((key, i) => [key, i])).get(key)`: the last place of a key counts.
unfoldable pub rank_from : ℕ → List Str → Str → Option ℕ
rank_from i [] key = none
rank_from i (k ∷ order) key = elim (rank_from (i + 1) order key) [
  | some j ↦ some j
  | none ↦ if str_eq k key then some i else none
]

-- The comparison is positive: a key that has no rank is at infinity, and two such compare as equal.
abbrev pub rank_after : Option ℕ → Option ℕ → Bool
rank_after none none = false
rank_after none (some _) = true
rank_after (some _) none = false
rank_after (some a) (some b) = ltb b a

unfoldable pub after_in : List Str → Tile × ℕ → Tile × ℕ → Bool
after_in order a b =
    rank_after (rank_from 0 order (tile_key a.0)) (rank_from 0 order (tile_key b.0))

-- The tiles on screen with their indices. `none` where a tile has no entry in the indices, so that
-- the source would carry `undefined` along.
unfoldable pub pairs_of : List (Option Tile) → List ℕ → Option (List (Tile × ℕ))
pairs_of [] indices = some []
pairs_of (none ∷ tiles) [] = pairs_of tiles []
pairs_of (none ∷ tiles) (_ ∷ indices) = pairs_of tiles indices
pairs_of (some t ∷ tiles) [] = none
pairs_of (some t ∷ tiles) (i ∷ indices) = Option.map ((t, i) ∷◌) (pairs_of tiles indices)

unfoldable pub swap_order : List Str → ℕ → ℕ → List Str
swap_order order a b = elim (get_elem? order a) [
  | none ↦ order
  | some at_a ↦ elim (get_elem? order b) [
    | none ↦ order
    | some at_b ↦ set (set order a at_b) b at_a
  ]
]

module _ (R : Numbers) where
  open R use {Num}

  unfoldable pub filter_layout : Layout Num → (Tile → Bool) → View Num
  filter_layout layout is_visible =
      let visible = visible_from is_visible 0 layout.tiles in
      record {
        view =
            normalize R (map slot_of visible) layout.shape.cols layout.row_sizes layout.col_sizes;
        indices = map snd_of visible;
      }

  -- A sorted and packed view.
  unfoldable pub arranged : Overlay Num → List (Tile × ℕ) → View Num
  arranged overlay pairs = record {
    view =
        normalize R (map slot_of pairs) overlay.cols (some overlay.row_sizes)
          (some overlay.col_sizes);
    indices = map snd_of pairs;
  }

  unfoldable pub apply_overlay : View Num → Option (Overlay Num) → Option (View Num)
  apply_overlay v none = some v
  apply_overlay v (some overlay) =
      Option.map (λ pairs. arranged overlay (sort_by (after_in overlay.order) pairs))
        (pairs_of v.view.tiles v.indices)
