-- ===== src/Grid/Page/Screen/Places.antt =====
-- A tile on screen is found in the stored layout.
use multimux.Base.{
  ℕ, zero, suc, ◌-◌, ◌*◌, ◌≤◌, ◌≡◌, refl, sym, ap, ◌∙◌, true, Option, none, some, List, [], ◌∷◌,
  ◌++◌, map, arith, length, get_elem?, filter, replicate, All-get_elem?, some_inj, subst, Str,
}
use multimux.Grid.Numbers.{Numbers}
use multimux.Grid.Model.{Tile, Layout, occupied, pad, clamp_cols}
use multimux.Grid.Model.Packing.{IsCanonical, IsCanonical-unique, cols-normalize}
use multimux.Grid.View.{View, Overlay, filter_layout, apply_overlay, fst_of, snd_of}
use multimux.Grid.View.Mirrors.{Mirrors, PlacedIn, filter_layout-Mirrors, apply_overlay-Mirrors}
use multimux.Grid.DirFilter.{SessionsByServer}
use multimux.Grid.Page.Screen.{is_shown, real_index, screen}

get_elem?-replicate-none :
    {A : Type 0} (k i : ℕ) (t : A) → get_elem? (replicate k none) i ≡ some (some t) → ⊥
get_elem?-replicate-none zero i t h = cc
get_elem?-replicate-none (suc k) zero t h = cc
get_elem?-replicate-none (suc k) (suc i) t h = get_elem?-replicate-none k i t h

-- The pair that a slot shows
shown_pair :
    (pairs : List (Tile × ℕ)) (k i : ℕ) (t : Tile)
    → get_elem? (map some (map fst_of pairs) ++ replicate k none) i ≡ some (some t)
    → (j : ℕ) × (get_elem? pairs i ≡ some (t, j)) × (get_elem? (map snd_of pairs) i ≡ some j)
shown_pair [] k i t h = absurd (get_elem?-replicate-none k i t h)
shown_pair ((u, j) ∷ pairs) k zero t h = (j, ap (λ x. some (x, j)) (some_inj (some_inj h)), refl)
shown_pair ((u, j) ∷ pairs) k (suc i) t h = shown_pair pairs k i t h

Mirrors-place :
    {N : Type 0} (stored : Layout N) (v : View N) (m : Mirrors stored v) (i : ℕ) (t : Tile)
    → get_elem? v.view.tiles i ≡ some (some t)
    → (j : ℕ) × (get_elem? v.indices i ≡ some j) × (get_elem? stored.tiles j ≡ some (some t))
unfolding pad
Mirrors-place stored v m i t h =
    let n = v.view.shape.rows * v.view.shape.cols in
    let tiles = m.canonical.packed ∙ ap (λ ts. pad (map some ts) n) m.tiles_eq in
    let (j, e, f) =
      shown_pair m.pairs (n - length (map some (map fst_of m.pairs))) i t
        (sym (ap (λ ts. get_elem? ts i) tiles) ∙ h) in
    (
      j,
      ap (λ is. get_elem? is i) m.indices_eq ∙ f,
      All-get_elem? (PlacedIn stored.tiles) m.pairs i m.placed e,
    )

filter-true : {A : Type 0} (xs : List A) → filter (λ x. true) xs ≡ xs
filter-true [] = refl
filter-true (x ∷ xs) = ap (x ∷◌) (filter-true xs)

clamp_cols_id : (c : ℕ) → 1 ≤ c → c ≤ 4 → clamp_cols c ≡ c
clamp_cols_id c lo hi = omega arith

module _ (R : Numbers) where
  open R use {Num}

  -- With all directories on screen, the screen has the stored layout's slots.
  unfiltered-tiles :
      (stored : Layout Num) (by_server : SessionsByServer)
      → IsCanonical stored
      → (filter_layout R stored (is_shown none by_server)).view.tiles ≡ stored.tiles
  unfolding is_shown
  unfiltered-tiles stored by_server k =
      let (m, shown) = filter_layout-Mirrors R stored (λ t. true) in
      (IsCanonical-unique (filter_layout R stored (λ t. true)).view stored m.canonical k
        (shown ∙ filter-true (occupied stored.tiles))
        (unfold filter_layout in
          cols-normalize R _ stored.shape.cols stored.row_sizes stored.col_sizes
          ∙ clamp_cols_id stored.shape.cols k.cols_low k.cols_high)).1

  apply_overlay-none : (v : View Num) → apply_overlay R v none ≡ some v
  unfolding apply_overlay
  apply_overlay-none v = refl

  -- The place that the page takes for a tile on screen is a place of the stored layout with that tile,
  -- whatever is filtered and however an overlay reorders it. The stored layout is canonical, and only
  -- a filtered screen has an overlay.
  pub real_index-places :
      (stored : Layout Num) (active : Option (List Str)) (by_server : SessionsByServer)
      (overlay : Option (Overlay Num)) (v : View Num) (i : ℕ) (t : Tile)
      → IsCanonical stored
      → (active ≡ none → overlay ≡ none)
      → screen R active by_server overlay stored ≡ some v
      → get_elem? v.view.tiles i ≡ some (some t)
      → (j : ℕ) × (real_index active v i ≡ some j) × (get_elem? stored.tiles j ≡ some (some t))
  unfolding real_index screen
  real_index-places stored none by_server overlay v i t k fits e h =
      (i, refl, sym (ap (λ ts. get_elem? ts i) same) ∙ h)
    where
      same : v.view.tiles ≡ stored.tiles
      same =
          ap (λ (x : View Num). x.view.tiles)
            (some_inj (
              sym e
              ∙ ap (apply_overlay R (filter_layout R stored (is_shown none by_server))) (fits refl)
              ∙ apply_overlay-none (filter_layout R stored (is_shown none by_server))))
          ∙ unfiltered-tiles stored by_server k
  real_index-places stored (some dirs) by_server overlay v i t k fits e h =
      let base = filter_layout-Mirrors R stored (is_shown (some dirs) by_server) in
      let (u, made, m, _) = apply_overlay-Mirrors R stored _ overlay base.0 in
      Mirrors-place stored v (subst (Mirrors stored) (some_inj (sym made ∙ e)) m) i t h
