-- ===== src/Grid/Sizes/Tracks.antt =====
-- How many tracks `normalizeSizes` and `resizeTracks` give back, and which they leave alone.
use multimux.Base.{
  ℕ, ◌≤◌, max, ◌≡◌, true, Option, none, some, List, arith, length, length-replicate,
  length-tabulate, All, All-tabulate,
}
use multimux.Grid.Numbers.{Numbers}
use multimux.Grid.Sizes.{Shape, equal_sizes, usable, kept, stored_row, normalize_sizes}

module _ (R : Numbers) where
  open R use {Num, of_nat, plus, minus}

  pub length-equal_sizes : (n : ℕ) → length (equal_sizes R n) ≡ max 1 n
  unfolding equal_sizes
  length-equal_sizes n = length-replicate (max 1 n) _

  length_of_usable : (sizes : List Num) (n : ℕ) → usable R (some sizes) n ≡ true → length sizes ≡ n
  unfolding usable
  length_of_usable sizes n h = ground arith

  pub length-kept : (s : Option (List Num)) (n : ℕ) → 1 ≤ n → length (kept R s n) ≡ n
  unfolding kept
  length-kept none n h = omega (arith, length-equal_sizes n)
  length-kept (some sizes) n h = ground (arith, length-equal_sizes n, length_of_usable sizes n)

  -- Whatever was stored, there is one row height for each row and one width for each column.
  pub normalize_sizes_fit :
      (shape : Shape) (rs : Option (List Num)) (cs : Option (List (List Num)))
      → 1 ≤ shape.rows
      → 1 ≤ shape.cols
      → (length (normalize_sizes R shape rs cs).rows ≡ shape.rows)
        × (length (normalize_sizes R shape rs cs).cols ≡ shape.rows)
        × All (λ ws. length ws ≡ shape.cols) (normalize_sizes R shape rs cs).cols
  unfolding normalize_sizes
  normalize_sizes_fit shape rs cs hr hc = (
    length-kept rs shape.rows hr,
    length-tabulate shape.rows _,
    All-tabulate _ shape.rows _ (λ r. length-kept (stored_row R cs r) shape.cols hc),
  )
