-- ===== src/Grid/Model/Edits.antt =====
-- Every edit of a layout (the exported operations of grid/model.ts that take one), against the
-- arrangement that it stands for: the sessions in order, and the number of columns.
use multimux.Base.{
  ℕ, ◌<◌, max, min, ◌≡◌, refl, sym, ◌∙◌, inl, inr, Bool, not, ◌&&◌, Option, none, some, List, [],
  ◌∷◌, ◌++◌, ◌==◌, if◌then◌else◌, arith, length, get_elem?, set, filter, any, erase_idx,
  get_elem?_of_lt, lt-length_of_get_elem?, Bool-cases, subst,
}
use multimux.Grid.Numbers.{Numbers}
use multimux.Grid.Model.{
  Tile, Layout, clamp_cols, occupied, pad, normalize, set_cols, pack_after_removal, remove_tile,
  remove_tiles_where, add_tile, swap_tiles, set_row_sizes, set_col_sizes, adopt_sizes,
}
use multimux.Grid.Model.Slots.{occupied-append, occupied-dropped, same_slots-dropped}
use multimux.Grid.Model.Swaps.{
  packed, get_elem?-packed, occupied-set-none, swap_sessions, occupied-swap,
}
use multimux.Grid.Model.Packing.{
  IsCanonical, occupied-normalize, cols-normalize, normalize-IsCanonical,
}

pub data Edit (N : Type 0) : Type 0 where
  columns : ℕ → Edit N
  remove : ℕ → Edit N
  remove_where : (Tile → Bool) → Edit N
  insert : Tile → Edit N
  swap : ℕ → ℕ → Edit N
  resize_rows : List N → Edit N
  resize_cols : ℕ → List N → Edit N
  adopt : Option (List N) → Option (List (List N)) → Edit N

unfoldable pub edit : (R : Numbers) → Edit R.Num → Layout R.Num → Option (Layout R.Num)
edit R (columns cols) l = some (set_cols R l cols)
edit R (remove i) l = some (remove_tile R l i)
edit R (remove_where drop) l = some (remove_tiles_where R l drop)
edit R (insert t) l = some (add_tile R l t)
edit R (swap a b) l = swap_tiles R l a b
edit R (resize_rows rs) l = some (set_row_sizes R l rs)
edit R (resize_cols r ws) l = some (set_col_sizes R l r ws)
edit R (adopt rs cs) l = some (adopt_sizes R l rs cs)

-- What a layout stands for, sizes apart.
pub record Arrangement : Type 0 where
  pub sessions : List Tile
  pub cols : ℕ

abbrev pub arrangement : {N : Type 0} → Layout N → Arrangement
arrangement l = record { sessions = occupied l.tiles; cols = l.shape.cols }

abbrev pub narrowed : List Tile → ℕ → Arrangement
narrowed ts cols = record { sessions = ts; cols = min cols (max 1 (length ts)) }

-- The same edits on an arrangement.
abbrev pub arrange : {N : Type 0} → Edit N → Arrangement → Arrangement
arrange (columns cols) a = record a { cols = clamp_cols cols }
arrange (remove i) a = narrowed (erase_idx a.sessions i) a.cols
arrange (remove_where drop) a =
    if any drop a.sessions then narrowed (filter (λ t. not (drop t)) a.sessions) a.cols else a
arrange (insert t) a = record {
  sessions = a.sessions ++ t ∷ [];
  cols = if length a.sessions == 1 && a.cols == 1 then 2 else a.cols;
}
arrange (swap i j) a = record a { sessions = swap_sessions a.sessions i j }
arrange (resize_rows rs) a = a
arrange (resize_cols r ws) a = a
arrange (adopt rs cs) a = a

-- The edit's indices, where it swaps, are cells of the grid.
abbrev pub InRange : {N : Type 0} → Edit N → Layout N → Type 0
InRange (swap i j) l = (i < length l.tiles) × (j < length l.tiles)
InRange _ l = Unit

-- `l'` is canonical, and stands for `a`.
pub record Shows {N : Type 0} (l : Layout N) (a : Arrangement) : Type 0 where
  pub canonical : IsCanonical l
  pub sessions_eq : occupied l.tiles ≡ a.sessions
  pub cols_eq : l.shape.cols ≡ a.cols

module _ (R : Numbers) where
  open R use {Num}

  normalize-Shows :
      (tiles : List (Option Tile)) (cols : ℕ) (rs : Option (List Num))
      (cs : Option (List (List Num))) (a : Arrangement)
      → occupied tiles ≡ a.sessions
      → clamp_cols cols ≡ a.cols
      → Shows (normalize R tiles cols rs cs) a
  normalize-Shows tiles cols rs cs a s c = record {
    canonical = normalize-IsCanonical R tiles cols rs cs;
    sessions_eq = occupied-normalize R tiles cols rs cs ∙ s;
    cols_eq = cols-normalize R tiles cols rs cs ∙ c;
  }

  module _ (l : Layout Num) (k : IsCanonical l) where
    removal-Shows :
        (tiles : List (Option Tile)) (ts : List Tile)
        → occupied tiles ≡ ts
        → Shows (pack_after_removal R l tiles) (narrowed ts l.shape.cols)
    unfolding pack_after_removal
    removal-Shows tiles ts e =
        normalize-Shows tiles _ l.row_sizes l.col_sizes (narrowed ts l.shape.cols) e
          (rw e (omega (arith, k.cols_low, k.cols_high)))

    at_cells :
        (P : List (Option Tile) → Type 0) → ((n : ℕ) → P (packed (occupied l.tiles) n)) → P l.tiles
    unfolding pad
    at_cells P h = subst P (sym k.packed) (h _)

    occupied-remove : (i : ℕ) → occupied (set l.tiles i none) ≡ erase_idx (occupied l.tiles) i
    occupied-remove i =
        at_cells (λ ts. occupied (set ts i none) ≡ erase_idx (occupied l.tiles) i)
          (λ n. occupied-set-none (occupied l.tiles) n i)

    remove_tile-Shows :
        (i : ℕ) → Shows (remove_tile R l i) (arrange {N = Num} (remove i) (arrangement l))
    unfolding remove_tile
    remove_tile-Shows i = removal-Shows _ _ (occupied-remove i)

    remove_tiles_where-Shows :
        (drop : Tile → Bool)
        → Shows
            (remove_tiles_where R l drop)
            (arrange {N = Num} (remove_where drop) (arrangement l))
    unfolding remove_tiles_where
    remove_tiles_where-Shows drop = elim (Bool-cases (any drop (occupied l.tiles))) [
      | inl e ↦
          rw (same_slots-dropped drop l.tiles, e)
            (removal-Shows _ _ (occupied-dropped drop l.tiles))
      | inr e ↦
          rw (same_slots-dropped drop l.tiles, e)
            (record { canonical = k; sessions_eq = refl; cols_eq = refl })
    ]

    kept_cols : clamp_cols l.shape.cols ≡ l.shape.cols
    kept_cols = omega (arith, k.cols_low, k.cols_high)

    add_tile-Shows :
        (t : Tile) → Shows (add_tile R l t) (arrange {N = Num} (insert t) (arrangement l))
    unfolding add_tile
    add_tile-Shows t =
        normalize-Shows _ _ l.row_sizes l.col_sizes (arrange {N = Num} (insert t) (arrangement l))
          (occupied-append l.tiles (some t ∷ [])) (ground (arith, k.cols_low, k.cols_high))

    -- The layout that `swapTiles` gives, once its two reads are known.
    swapped : Option Tile → Option Tile → ℕ → ℕ → Layout Num
    swapped p q i j = normalize R (set (set l.tiles i q) j p) l.shape.cols l.row_sizes l.col_sizes

    swap_tiles-some :
        (i j : ℕ) {p q : Option Tile}
        → get_elem? l.tiles i ≡ some p
        → get_elem? l.tiles j ≡ some q
        → swap_tiles R l i j ≡ some (swapped p q i j)
    unfolding swap_tiles swapped
    swap_tiles-some i j {p} {q} e f = rw (e, f, swap_tiles) refl

    occupied-swapped :
        (i j : ℕ) (p q : Option Tile)
        → get_elem? l.tiles i ≡ some p
        → get_elem? l.tiles j ≡ some q
        → occupied (set (set l.tiles i q) j p) ≡ swap_sessions (occupied l.tiles) i j
    occupied-swapped i j p q =
        at_cells
          (λ ts.
            get_elem? ts i ≡ some p
            → get_elem? ts j ≡ some q
            → occupied (set (set ts i q) j p) ≡ swap_sessions (occupied l.tiles) i j)
          (λ n e f.
            rw
              (get_elem?-packed (occupied l.tiles) n i e, get_elem?-packed (occupied l.tiles) n j f)
              (occupied-swap (occupied l.tiles) n i j
                (lt-length_of_get_elem? (packed (occupied l.tiles) n) i e)
                (lt-length_of_get_elem? (packed (occupied l.tiles) n) j f)))

    swap_tiles-Shows :
        (i j : ℕ)
        → i < length l.tiles
        → j < length l.tiles
        → (l' : Layout Num) × (swap_tiles R l i j ≡ some l')
          × Shows l' (arrange {N = Num} (swap i j) (arrangement l))
    unfolding swapped
    swap_tiles-Shows i j hi hj =
        let (p, e) = get_elem?_of_lt l.tiles i hi in
        let (q, f) = get_elem?_of_lt l.tiles j hj in
        (
          swapped p q i j,
          swap_tiles-some i j e f,
          normalize-Shows _ _ l.row_sizes l.col_sizes (arrange {N = Num} (swap i j) (arrangement l))
              (occupied-swapped i j p q e f) kept_cols,
        )

  -- Every edit in range of a canonical layout gives a canonical layout, and it shows what the edit
  -- makes of the arrangement.
  pub edit-Shows :
      (e : Edit Num) (l : Layout Num)
      → IsCanonical l
      → InRange e l
      → (l' : Layout Num) × (edit R e l ≡ some l') × Shows l' (arrange e (arrangement l))
  unfolding edit set_cols set_row_sizes set_col_sizes adopt_sizes
  edit-Shows (columns cols) l k h = (_, refl, normalize-Shows _ _ _ _ _ refl refl)
  edit-Shows (remove i) l k h = (_, refl, remove_tile-Shows l k i)
  edit-Shows (remove_where drop) l k h = (_, refl, remove_tiles_where-Shows l k drop)
  edit-Shows (insert t) l k h = (_, refl, add_tile-Shows l k t)
  edit-Shows (swap i j) l k h = swap_tiles-Shows l k i j h.0 h.1
  edit-Shows (resize_rows rs) l k h =
      (_, refl, normalize-Shows _ _ _ _ (arrangement l) refl (kept_cols l k))
  edit-Shows (resize_cols r ws) l k h =
      (_, refl, normalize-Shows _ _ _ _ (arrangement l) refl (kept_cols l k))
  edit-Shows (adopt rs cs) l k h =
      (_, refl, normalize-Shows _ _ _ _ (arrangement l) refl (kept_cols l k))
