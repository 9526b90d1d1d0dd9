-- ===== src/Grid/Sizes.antt =====
-- Track sizes: grid/sizes.ts, less `tileRect`.
pub mod Tracks
use multimux.Base.{
  ℕ, suc, ◌+◌, ◌-◌, ◌≤◌, Bool, true, false, not, ◌&&◌, ◌||◌, Option, none, some, List, [], ◌∷◌, leb,
  ltb, ◌==◌, if◌then◌else◌, length, get_elem?, get_or, set, all, replicate, tabulate, max,
}
use mathlib.Core.List.{foldl}
use multimux.Grid.Numbers.{Numbers}

-- `GridShape` of grid/model.ts
pub record Shape : Type 0 where
  pub rows : ℕ
  pub cols : ℕ

pub record Sizes (N : Type 0) : Type 0 where
  pub rows : List N
  pub cols : List (List N)

module _ (R : Numbers) where
  open R use {Num, of_nat, plus, minus, over, less, at_most, abs, is_finite, lower, upper}

  -- `EPS`
  abbrev eps : Num
  eps = over (of_nat 1) (of_nat 1_000_000)

  unfoldable pub equal_sizes : ℕ → List Num
  equal_sizes n = let count = max 1 n in replicate count (over (of_nat 1) (of_nat count))

  -- A stored track array is a list of numbers here, or missing.
  unfoldable pub usable : Option (List Num) → ℕ → Bool
  usable none count = false
  usable (some sizes) count =
      (length sizes == count)
      && all (λ v. is_finite v && less (of_nat 0) v) sizes
      && less (abs (minus (foldl plus (of_nat 0) sizes) (of_nat 1))) eps

  -- A track array as `normalizeSizes` keeps it: as stored, if that is usable.
  unfoldable pub kept : Option (List Num) → ℕ → List Num
  kept none count = equal_sizes count
  kept (some sizes) count = if usable (some sizes) count then sizes else equal_sizes count

  -- `Array.isArray(colSizes) ? colSizes[r] : undefined`
  abbrev pub stored_row : Option (List (List Num)) → ℕ → Option (List Num)
  stored_row none r = none
  stored_row (some rows) r = get_elem? rows r

  unfoldable pub normalize_sizes : Shape → Option (List Num) → Option (List (List Num)) → Sizes Num
  normalize_sizes shape row_sizes col_sizes = record {
    rows = kept row_sizes shape.rows;
    cols = tabulate shape.rows (λ r. kept (stored_row col_sizes r) shape.cols);
  }

  -- The clamped place of the boundary, before and after snapping.
  unfoldable pub clamped : Num → Num → Num → Num → Num
  clamped a pair delta low =
      let lo = lower low (over pair (of_nat 2)) in
      let hi = minus pair lo in lower hi (upper lo (plus a delta))

  unfoldable pub snapped : Num → Num → Num → Num
  snapped pair snap next =
      if less (of_nat 0) snap && at_most (abs (minus next (over pair (of_nat 2)))) snap
      then over pair (of_nat 2)
      else next

  -- `boundary` is an index of the source's array, which is never negative here. The two reads are
  -- in range where they are made.
  unfoldable pub resize_tracks : List Num → ℕ → Num → Num → Num → List Num
  resize_tracks sizes boundary delta low snap =
      if leb (length sizes) (boundary + 1)
      then sizes
      else (let a = get_or sizes boundary (of_nat 0) in
          let b = get_or sizes (boundary + 1) (of_nat 0) in
          let pair = plus a b in
          let next = snapped pair snap (clamped a pair delta low) in
          set (set sizes boundary next) (boundary + 1) (minus pair next))
