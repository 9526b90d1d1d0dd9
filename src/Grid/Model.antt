-- ===== src/Grid/Model.antt =====
-- The stored layout and its edits: grid/model.ts.
-- Column counts are whole numbers, so `Math.floor` of `clampCols` does nothing.
pub mod Slots
pub mod Swaps
pub mod Packing
pub mod Edits
use multimux.Base.{
  ℕ, zero, suc, ◌+◌, ◌-◌, ◌*◌, ◌/◌, max, min, Bool, true, false, not, ◌&&◌, Option, none, some,
  List, [], ◌∷◌, ◌++◌, map, ◌==◌, ltb, if◌then◌else◌, length, get_elem?, set, replicate, Str,
  str_eq,
}
use multimux.Grid.Numbers.{Numbers}
use multimux.Grid.Sizes.{Shape, Sizes, equal_sizes, normalize_sizes}

-- A tile that shows a session; the source's `Tile` is this or null, so `Option Tile`.
pub record Tile : Type 0 where
  pub server_id : Str
  pub session_id : ℕ

pub record Layout (N : Type 0) : Type 0 where
  pub shape : Shape
  pub tiles : List (Option Tile)
  pub row_sizes : Option (List N)
  pub col_sizes : Option (List (List N))

abbrev pub clamp_cols : ℕ → ℕ
clamp_cols cols = min 4 (max 1 cols)

-- `tiles.filter((t) => t !== null)`
abbrev pub occupied : List (Option Tile) → List Tile
occupied [] = []
occupied (none ∷ tiles) = occupied tiles
occupied (some t ∷ tiles) = t ∷ occupied tiles

-- `Math.max(1, Math.ceil(count / cols))`, for `cols` at least 1
abbrev pub rows_for : ℕ → ℕ → ℕ
rows_for count cols = max 1 ((count + cols - 1) / cols)

-- The loop that pads to `target` cells.
unfoldable pub pad : List (Option Tile) → ℕ → List (Option Tile)
pad tiles target = tiles ++ replicate (target - length tiles) none

-- `t === u` between an array and its copy: two objects are one if they are the same tile.
unfoldable pub same_slot : Option Tile → Option Tile → Bool
same_slot none none = true
same_slot none (some _) = false
same_slot (some _) none = false
same_slot (some t) (some u) = str_eq t.server_id u.server_id && t.session_id == u.session_id

-- `tiles.every((t, i) => t === other[i])`, for arrays of one length
unfoldable pub same_slots : List (Option Tile) → List (Option Tile) → Bool
unfolding same_slot
same_slots [] _ = true
same_slots (_ ∷ _) [] = false
same_slots (t ∷ ts) (u ∷ us) = same_slot t u && same_slots ts us

-- `(t) => (t && drop(t) ? null : t)`
unfoldable pub dropped : (Tile → Bool) → Option Tile → Option Tile
dropped drop none = none
dropped drop (some t) = if drop t then none else some t

-- A write past the end leaves holes, which read as `undefined`: as sizes they are no more usable
-- than the empty arrays that stand for them.
unfoldable pub set_grow {ℓ} : {A : Type ℓ} → List (List A) → ℕ → List A → List (List A)
set_grow [] zero v = v ∷ []
set_grow [] (suc i) v = [] ∷ set_grow [] i v
set_grow (x ∷ xs) zero v = v ∷ xs
set_grow (x ∷ xs) (suc i) v = x ∷ set_grow xs i v

module _ (R : Numbers) where
  open R use {Num}

  unfoldable pub normalize :
      List (Option Tile) → ℕ → Option (List Num) → Option (List (List Num)) → Layout Num
  unfolding pad
  normalize tiles cols row_sizes col_sizes =
      let c = clamp_cols cols in
      let packed = occupied tiles in
      let rows = rows_for (length packed) c in
      let shape : Shape = record { rows = rows; cols = c } in
      let sizes = normalize_sizes R shape row_sizes col_sizes in
      record {
        shape = shape;
        tiles = pad (map some packed) (rows * c);
        row_sizes = some sizes.rows;
        col_sizes = some sizes.cols;
      }

  unfoldable pub empty_layout : Layout Num
  empty_layout = normalize [] 2 none none

  unfoldable pub set_cols : Layout Num → ℕ → Layout Num
  set_cols layout cols = normalize layout.tiles cols layout.row_sizes layout.col_sizes

  unfoldable pub pack_after_removal : Layout Num → List (Option Tile) → Layout Num
  pack_after_removal layout tiles =
      normalize tiles (min layout.shape.cols (max 1 (length (occupied tiles)))) layout.row_sizes
        layout.col_sizes

  -- Past the end the source's write leaves holes and a null, which the packing filters out.
  unfoldable pub remove_tile : Layout Num → ℕ → Layout Num
  remove_tile layout index = pack_after_removal layout (set layout.tiles index none)

  unfoldable pub remove_tiles_where : Layout Num → (Tile → Bool) → Layout Num
  remove_tiles_where layout drop =
      let tiles = map (dropped drop) layout.tiles in
      if same_slots tiles layout.tiles then layout else pack_after_removal layout tiles

  unfoldable pub add_tile : Layout Num → Tile → Layout Num
  add_tile layout tile =
      let count = length (occupied layout.tiles) in
      let cols = if count == 1 && layout.shape.cols == 1 then 2 else layout.shape.cols in
      normalize (layout.tiles ++ some tile ∷ []) cols layout.row_sizes layout.col_sizes

  -- `none` where an index is out of range: the source then stores `undefined`, which no layout holds.
  unfoldable pub swap_tiles : Layout Num → ℕ → ℕ → Option (Layout Num)
  swap_tiles layout a b = elim (get_elem? layout.tiles a) [
    | none ↦ none
    | some at_a ↦ elim (get_elem? layout.tiles b) [
      | none ↦ none
      | some at_b ↦ some (
          normalize (set (set layout.tiles a at_b) b at_a) layout.shape.cols layout.row_sizes
            layout.col_sizes)
    ]
  ]

  unfoldable pub set_row_sizes : Layout Num → List Num → Layout Num
  set_row_sizes layout row_sizes =
      normalize layout.tiles layout.shape.cols (some row_sizes) layout.col_sizes

  abbrev or_empty : Option (List (List Num)) → List (List Num)
  or_empty none = []
  or_empty (some rows) = rows

  unfoldable pub set_col_sizes : Layout Num → ℕ → List Num → Layout Num
  set_col_sizes layout row sizes =
      let cols = or_empty layout.col_sizes in
      let padding = replicate (layout.shape.rows - length cols) (equal_sizes R layout.shape.cols) in
      normalize layout.tiles layout.shape.cols layout.row_sizes
        (some (set_grow (cols ++ padding) row sizes))

  -- `sizes?.length === rows ? sizes : own`
  abbrev pub fitting {ℓ} : {A : Type ℓ} → Option (List A) → ℕ → Option (List A) → Option (List A)
  fitting none rows own = own
  fitting (some sizes) rows own = if length sizes == rows then some sizes else own

  unfoldable pub adopt_sizes :
      Layout Num → Option (List Num) → Option (List (List Num)) → Layout Num
  adopt_sizes layout row_sizes col_sizes =
      let rows = layout.shape.rows in
      normalize layout.tiles layout.shape.cols (fitting row_sizes rows layout.row_sizes)
        (fitting col_sizes rows layout.col_sizes)
