-- ===== src/Grid/Tests.antt =====
-- Runs of the grid's model, and its theorems at concrete inputs.
use Prim.Native.Nat.{Ordering}
use mathlib.Core.List.{Perm, reverse}
use multimux.Base.{
  ◌/◌, if◌then◌else◌, ℕ, ◌-◌, ◌*◌, ◌%◌, ◌<◌, max, ◌≡◌, refl, Bool, not, Option, none, some, List,
  [], ◌∷◌, map, ◌==◌, arith, length, get_elem?, filter, any, Any, Str, str_eq, codes, starts_with,
  ne_of_str_eq,
}
use multimux.Base.Decimal.{decimal}
use multimux.Base.Json.{Item}
use multimux.Base.Sort.{IsSorted}
use multimux.Grid.Sizes.{equal_sizes, normalize_sizes}
use multimux.Grid.Model.{Tile, Layout, occupied, normalize, swap_tiles}
use multimux.Grid.Model.Packing.{IsCanonical, normalize-IsCanonical, IsCanonical-grid}
use multimux.Grid.Model.Edits.{swap, edit, arrange, arrangement, Shows, edit-Shows}
use multimux.Grid.View.{
  fst_of, snd_of, View, Overlay, tile_key, seed_overlay, filter_layout, apply_overlay, visible_from,
}
use multimux.Grid.View.Keys.{tile_key_inj}
use multimux.Grid.View.Storage.{view_overlay, set_view_overlay, view_overlay-set}
use multimux.Grid.View.Mirrors.{Mirrors, filter_layout-Mirrors, apply_overlay-Mirrors}
use multimux.Grid.View.Overlays.{apply_overlay-IsSorted, apply_overlay-seed_overlay}
use multimux.Grid.View.Overlays.Ranks.{named, misplaced}
use multimux.Grid.View.Overlays.Seeds.{DistinctKeys}
use multimux.Grid.DirFilter.{
  DirButton, dir_buttons, ring_of, split_under_dir, trim_slashes, closer, subdir_of,
}
use multimux.Grid.DirFilter.Under.{IsClosest, split_under_dir-IsClosest}
use multimux.Grid.DirFilter.Buttons.{buttons_for, running_in, all_sessions, dir_buttons-filter}
use multimux.Grid.DirFilter.Ring.{DistinctPaths, walk, walk-slot}
use multimux.Grid.Mobile.{MobileSession, reconcile_mobile_selection, entry_of, contains}
use multimux.Grid.Mobile.Selection.{reconcile_lem}
use multimux.Grid.Ended.{ended_tile_keys}
use multimux.Grid.Ended.Keys.{DistinctIds, ended_at, ended_tile_keys-contains}
use multimux.Grid.Samples.{
  parts, tile_a, tile_b, tile_c, three, session_at, local, sessions, by_server, roots,
}

abbrev ap_tiles : Option (Layout ℕ) → List (Option Tile)
ap_tiles none = []
ap_tiles (some l) = l.tiles

three-IsCanonical : IsCanonical three
three-IsCanonical = normalize-IsCanonical parts _ _ _ _

packed_tiles : three.tiles ≡ some tile_a ∷ some tile_b ∷ some tile_c ∷ none ∷ []
unfolding normalize
packed_tiles = refl

equal_thirds : equal_sizes parts 3 ≡ 280 ∷ 280 ∷ 280 ∷ []
unfolding equal_sizes
equal_thirds = refl

swap_with_free :
    ap_tiles (edit parts (swap 0 3) three) ≡ some tile_b ∷ some tile_c ∷ some tile_a ∷ none ∷ []
unfolding edit swap_tiles normalize
swap_with_free = refl

edit-Shows_example :
    (l' : Layout ℕ) × (edit parts (swap 0 3) three ≡ some l')
    × Shows l' (arrange {N = ℕ} (swap 0 3) (arrangement three))
unfolding packed_tiles
edit-Shows_example = edit-Shows parts (swap 0 3) three three-IsCanonical (omega arith, omega arith)

IsCanonical-grid_example :
    (length three.tiles ≡ three.shape.rows * three.shape.cols)
    × ((three.shape.rows - 1) * three.shape.cols < max 1 (length (occupied three.tiles)))
    × ((i : ℕ)
        → i < length (occupied three.tiles)
        → get_elem? three.tiles i ≡ get_elem? (map some (occupied three.tiles)) i)
IsCanonical-grid_example = IsCanonical-grid three three-IsCanonical

tile_key_a : tile_key tile_a ≡ codes "local:7"
unfolding tile_key decimal
tile_key_a = refl

-- Everything but the first tile.
abbrev not_a : Tile → Bool
not_a t = not (t.session_id == 7)

abbrev filtered : View ℕ
filtered = filter_layout parts three not_a

filtered_view : filtered.indices ≡ 1 ∷ 2 ∷ []
unfolding filter_layout visible_from normalize
filtered_view = refl

filter_layout-Mirrors_example :
    Mirrors three filtered × (occupied filtered.view.tiles ≡ filter not_a (occupied three.tiles))
filter_layout-Mirrors_example = filter_layout-Mirrors parts three not_a

abbrev mirrored : Mirrors three filtered
mirrored = (filter_layout-Mirrors parts three not_a).0

abbrev reordered : Overlay ℕ
reordered = record { cols = 1; order = codes "box:3" ∷ []; row_sizes = []; col_sizes = [] }

apply_overlay-Mirrors_example :
    (v' : View ℕ) × (apply_overlay parts filtered (some reordered) ≡ some v')
    × (m' : Mirrors three v') × Perm m'.pairs mirrored.pairs
apply_overlay-Mirrors_example = apply_overlay-Mirrors parts three filtered (some reordered) mirrored

apply_overlay-IsSorted_example :
    (v' : View ℕ) × (sorted : List (Tile × ℕ)) × (apply_overlay parts filtered (some reordered)
      ≡ some v')
    × (occupied v'.view.tiles ≡ map fst_of sorted)
    × (v'.indices ≡ map snd_of sorted)
    × Perm sorted mirrored.pairs
    × IsSorted (misplaced reordered.order) sorted
    × (filter (λ p. not (named reordered.order p)) sorted
        ≡ filter (λ p. not (named reordered.order p)) mirrored.pairs)
apply_overlay-IsSorted_example = apply_overlay-IsSorted parts three filtered reordered mirrored

filtered-DistinctKeys : DistinctKeys (occupied filtered.view.tiles)
unfolding filter_layout visible_from normalize
filtered-DistinctKeys = (((λ e. cc (tile_key_inj tile_b tile_c e)), tt), (tt, tt))

apply_overlay-seed_overlay_example :
    (v' : View ℕ) × (apply_overlay parts filtered (some (seed_overlay filtered.view)) ≡ some v')
    × (v'.view.tiles ≡ filtered.view.tiles)
    × (v'.view.shape ≡ filtered.view.shape)
    × (v'.indices ≡ filtered.indices)
    × (v'.view.row_sizes
        ≡ some
            (normalize_sizes parts filtered.view.shape filtered.view.row_sizes
              filtered.view.col_sizes).rows)
    × (v'.view.col_sizes
        ≡ some
            (normalize_sizes parts filtered.view.shape filtered.view.row_sizes
              filtered.view.col_sizes).cols)
apply_overlay-seed_overlay_example =
    apply_overlay-seed_overlay parts three filtered mirrored filtered-DistinctKeys

split_root : split_under_dir roots (codes "/r/mux/web/") ≡ some (2, codes "web")
unfolding split_under_dir closer subdir_of str_eq trim_slashes starts_with
split_root = refl

split_under_dir-IsClosest_example :
    IsClosest
      (reverse roots)
      (trim_slashes (codes "/r/mux/web/"))
      (split_under_dir roots (codes "/r/mux/web/"))
split_under_dir-IsClosest_example = split_under_dir-IsClosest roots (codes "/r/mux/web/")

-- Any order will do here: this one puts the first of two names in front.
abbrev as_met : Str → Str → Ordering
as_met _ _ = Ordering.lt

abbrev buttons : List DirButton
buttons = dir_buttons as_met (local ∷ []) by_server

dir_buttons-filter_example :
    filter (λ b. str_eq b.path (codes "/r/mux")) buttons
    ≡ buttons_for
        (codes "/r/mux")
        (running_in (codes "/r/mux") (all_sessions by_server (local ∷ [])))
dir_buttons-filter_example = dir_buttons-filter as_met (local ∷ []) by_server (codes "/r/mux")

abbrev mux : DirButton
mux = record { path = codes "/r/mux"; name = codes "mux"; count = 1 }

abbrev web : DirButton
web = record { path = codes "/r/web"; name = codes "web"; count = 1 }

two_paths : DistinctPaths (mux ∷ web ∷ [])
unfolding str_eq
two_paths = ((ne_of_str_eq _ _ refl, tt), (tt, tt))

walk-slot_example :
    get_elem? (ring_of (mux ∷ web ∷ [])) (4 % 3) ≡ some (walk mux (web ∷ []) two_paths 4)
walk-slot_example = walk-slot mux (web ∷ []) two_paths 4

abbrev listed : MobileSession
listed = entry_of local (session_at 7 (codes "/r/mux") (codes "running"))

reconcile_lem_example :
    (reconcile_mobile_selection (record { key = none; index = 4 }) []
      ≡ record { key = none; index = 0 })
    × ((t : MobileSession) × (get_elem?
            (listed ∷ [])
            (reconcile_mobile_selection (record { key = none; index = 4 }) (listed ∷ [])).index
          ≡ some t)
        × ((reconcile_mobile_selection (record { key = none; index = 4 }) (listed ∷ [])).key
            ≡ some t.key))
    × ((key : Str)
        → none ≡ some key
        → Any (λ t. t.key ≡ key) (listed ∷ [])
        → (reconcile_mobile_selection (record { key = none; index = 4 }) (listed ∷ [])).key
          ≡ some key)
reconcile_lem_example = reconcile_lem (record { key = none; index = 4 }) listed []

distinct_sessions : DistinctIds sessions
distinct_sessions = ((omega arith, (omega arith, tt)), ((omega arith, tt), (tt, tt)))

ended_tile_keys-contains_example :
    contains (ended_tile_keys three (codes "local") sessions) (codes "local:9")
    ≡ any (ended_at (codes "local") sessions (codes "local:9")) (occupied three.tiles)
ended_tile_keys-contains_example =
    ended_tile_keys-contains three (codes "local") sessions (codes "local:9") distinct_sessions

abbrev web_overlay : Overlay ℕ
web_overlay = record {
  cols = 2;
  order = codes "local:12" ∷ [];
  row_sizes = 840 ∷ [];
  col_sizes = (420 ∷ 420 ∷ []) ∷ [];
}

abbrev whole : ℕ → ℕ
whole n = n / 840

abbrev stored_overlays : Item ℕ
stored_overlays =
    Item.doc (set_view_overlay (λ n. n * 840) Item.corrupt (codes "/r/web") web_overlay)

view_overlay-set_example : view_overlay whole stored_overlays (codes "/r/web") ≡ (
    if str_eq (codes "/r/web") (codes "/r/web")
    then some web_overlay
    else view_overlay whole Item.corrupt (codes "/r/web"))
view_overlay-set_example =
    view_overlay-set whole (λ n. n * 840) Item.corrupt (codes "/r/web") (codes "/r/web") web_overlay
      refl
