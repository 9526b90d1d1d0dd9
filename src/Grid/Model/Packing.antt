-- ===== src/Grid/Model/Packing.antt =====
-- What `normalize` gives back: the canonical form, with no session lost.
use multimux.Base.{
  ℕ, zero, suc, ◌-◌, ◌*◌, ◌≤◌, ◌<◌, max, ◌≡◌, refl, sym, ap, ap₂, ◌∙◌, Option, none, some, List, [],
  ◌∷◌, ◌++◌, map, arith, length, get_elem?, replicate, All, length-append, length-replicate,
  length-map,
}
use multimux.Grid.Numbers.{Numbers}
use multimux.Grid.Sizes.{Shape, normalize_sizes}
use multimux.Grid.Sizes.Tracks.{normalize_sizes_fit}
use multimux.Grid.Model.{Tile, Layout, clamp_cols, occupied, rows_for, pad, normalize}
use multimux.Grid.Model.Slots.{occupied-pad}

-- The canonical form that the comment on `normalize` promises.
pub record IsCanonical {N : Type 0} (l : Layout N) : Type 0 where
  pub cols_low : 1 ≤ l.shape.cols
  pub cols_high : l.shape.cols ≤ 4
  pub rows_eq : l.shape.rows ≡ rows_for (length (occupied l.tiles)) l.shape.cols
  pub packed : l.tiles ≡ pad (map some (occupied l.tiles)) (l.shape.rows * l.shape.cols)
  pub row_fit : (rs : List N) × (l.row_sizes ≡ some rs) × (length rs ≡ l.shape.rows)
  pub col_fit :
      (cs : List (List N)) × (l.col_sizes ≡ some cs)
      × (length cs ≡ l.shape.rows)
      × All (λ ws. length ws ≡ l.shape.cols) cs

-- Enough rows for every tile, and none to spare.
pub rows_for_bounds :
    (n c : ℕ) → 1 ≤ c → c ≤ 4 → (n ≤ rows_for n c * c) × ((rows_for n c - 1) * c < max 1 n)
rows_for_bounds n zero lo hi = absurd (omega arith)
rows_for_bounds n (suc zero) lo hi = omega arith
rows_for_bounds n (suc (suc zero)) lo hi = omega arith
rows_for_bounds n (suc (suc (suc zero))) lo hi = omega arith
rows_for_bounds n (suc (suc (suc (suc zero)))) lo hi = omega arith
rows_for_bounds n (suc (suc (suc (suc (suc c))))) lo hi = absurd (omega arith)

length-pad : (ts : List Tile) (n : ℕ) → length ts ≤ n → length (pad (map some ts) n) ≡ n
unfolding pad
length-pad ts n h = omega (
  arith,
  length-append (map some ts) (replicate (n - length (map some ts)) none),
  length-replicate {A = Option Tile} (n - length (map some ts)) none,
  length-map ts (λ t. some t),
)

get_elem?-pad :
    (ts : List Tile) (n i : ℕ)
    → i < length ts
    → get_elem? (pad (map some ts) n) i ≡ get_elem? (map some ts) i
unfolding pad
get_elem?-pad ts n i h = go ts i (replicate (n - length (map some ts)) none) h
  where
    go :
        (us : List Tile) (j : ℕ) (rest : List (Option Tile))
        → j < length us
        → get_elem? (map some us ++ rest) j ≡ get_elem? (map some us) j
    go [] j rest k = absurd (omega arith)
    go (u ∷ us) zero rest k = refl
    go (u ∷ us) (suc j) rest k = go us j rest (omega arith)

module _ (R : Numbers) where
  open R use {Num}

  module _ (tiles : List (Option Tile)) (cols : ℕ) (rs : Option (List Num))
      (cs : Option (List (List Num))) where
    pub occupied-normalize : occupied (normalize R tiles cols rs cs).tiles ≡ occupied tiles
    unfolding normalize
    occupied-normalize = occupied-pad (occupied tiles) _

    pub cols-normalize : (normalize R tiles cols rs cs).shape.cols ≡ clamp_cols cols
    unfolding normalize
    cols-normalize = refl

    pub normalize-IsCanonical : IsCanonical (normalize R tiles cols rs cs)
    unfolding normalize
    normalize-IsCanonical =
        let c = clamp_cols cols in
        let rows = rows_for (length (occupied tiles)) c in
        let shape : Shape = record { rows = rows; cols = c } in
        let same = occupied-pad (occupied tiles) (rows * c) in
        let fit = normalize_sizes_fit R shape rs cs (omega arith) (omega arith) in
        record {
          cols_low = omega arith;
          cols_high = omega arith;
          rows_eq = rw same;
          packed = rw same;
          row_fit = ((normalize_sizes R shape rs cs).rows, refl, fit.0);
          col_fit = ((normalize_sizes R shape rs cs).cols, refl, fit.1, fit.2);
        }

-- The grid of a canonical layout: as many cells as its shape says, the last row not empty unless it
-- is the only one, and the sessions at the front in order.
pub IsCanonical-grid :
    {N : Type 0} (l : Layout N)
    → IsCanonical l
    → (length l.tiles ≡ l.shape.rows * l.shape.cols)
      × ((l.shape.rows - 1) * l.shape.cols < max 1 (length (occupied l.tiles)))
      × ((i : ℕ)
          → i < length (occupied l.tiles)
          → get_elem? l.tiles i ≡ get_elem? (map some (occupied l.tiles)) i)
IsCanonical-grid l k =
    let bounds = rows_for_bounds (length (occupied l.tiles)) l.shape.cols k.cols_low k.cols_high in
    (
      ap length k.packed ∙ length-pad (occupied l.tiles) _ (rw k.rows_eq bounds.0),
      rw k.rows_eq bounds.1,
      λ i h. ap (λ ts. get_elem? ts i) k.packed ∙ get_elem?-pad (occupied l.tiles) _ i h,
    )

-- The sessions and the columns determine the canonical form, sizes apart.
pub IsCanonical-unique :
    {N M : Type 0} (l : Layout N) (l' : Layout M)
    → IsCanonical l
    → IsCanonical l'
    → occupied l.tiles ≡ occupied l'.tiles
    → l.shape.cols ≡ l'.shape.cols
    → (l.shape ≡ l'.shape) × (l.tiles ≡ l'.tiles)
IsCanonical-unique l l' k k' s c =
    let rows : l.shape.rows ≡ l'.shape.rows =
      k.rows_eq ∙ ap₂ (λ ts n. rows_for (length ts) n) s c ∙ sym k'.rows_eq in
    (
      λ i. record { rows = rows i; cols = c i },
      k.packed ∙ ap₂ (λ ts n. pad (map some ts) n) s (ap₂ (λ m n. m * n) rows c) ∙ sym k'.packed,
    )
