-- ===== src/Grid/Page/Screen.antt =====
-- What the grid page shows, and the edits that its buttons make.
--
-- The selection of directories is null, here `none`, for all of them. `activeSet` holds the same
-- strings as `activeDirs`. Requests to a daemon are not part of the edits.
pub mod Attach
pub mod Places
use multimux.Base.{
  ℕ, suc, Bool, true, false, not, ◌&&◌, ◌||◌, Option, none, some, List, [], ◌∷◌, ◌++◌, map,
  if◌then◌else◌, ◌==◌, leb, length, get_elem?, filter, any, find?, is_some, Str, str_eq,
}
use multimux.Grid.Numbers.{Numbers}
use multimux.Grid.Types.{Session, Server, running}
use multimux.Grid.Model.{
  Tile, Layout, occupied, add_tile, remove_tile, remove_tiles_where, swap_tiles,
}
use multimux.Grid.View.{
  View, Overlay, tile_key, visible_from, filter_layout, apply_overlay, order_of, seed_overlay,
  swap_order,
}
use multimux.Grid.DirFilter.{
  SessionsByServer, DirButton, effective_dirs, cycle_solo, forward, back, non_empty,
}
use multimux.Grid.Mobile.{contains}
use multimux.Grid.Ended.{ended_tile_keys}

-- `toggleDir`, `addDir`, `showDir`, and the selection after `closeDir`
unfoldable pub toggle_dir : Option (List Str) → Str → Option (List Str)
toggle_dir none path = some (path ∷ [])
toggle_dir (some []) path = some (path ∷ [])
toggle_dir (some (p ∷ [])) path = if str_eq p path then none else some (path ∷ [])
toggle_dir (some (p ∷ q ∷ ps)) path = some (path ∷ [])

unfoldable pub add_dir : Option (List Str) → Str → Option (List Str)
add_dir none path = some (path ∷ [])
add_dir (some prev) path = if contains prev path then some prev else some (prev ++ path ∷ [])

unfoldable pub show_dir : Option (List Str) → Str → Option (List Str)
show_dir none path = none
show_dir (some prev) path = if contains prev path then some prev else none

unfoldable pub without_dir : Option (List Str) → Str → Option (List Str)
without_dir none path = none
without_dir (some prev) path = non_empty (some (filter (λ p. not (str_eq p path)) prev))

-- The keys of the rotation, with Ctrl and Alt held and no pane's text on screen
pub data Key : Type 0 where
  arrow_right arrow_left digit_0 other : Key

abbrev only_dir : Option Str → Option (List Str)
only_dir none = none
only_dir (some []) = none
only_dir (some (c ∷ path)) = some ((c ∷ path) ∷ [])

-- The selection that a key makes; none for any other key
unfoldable pub on_key : Option Str → List DirButton → Key → Option (Option (List Str))
on_key solo dirs arrow_right = some (only_dir (cycle_solo solo dirs forward))
on_key solo dirs arrow_left = some (only_dir (cycle_solo solo dirs back))
on_key solo dirs digit_0 = some none
on_key solo dirs other = none

-- `sessionFor`
unfoldable pub session_for : SessionsByServer → Tile → Option Session
session_for by_server t = find? (λ s. s.id == t.session_id) (by_server t.server_id)

abbrev pub dir_in : List Str → Option Session → Bool
dir_in dirs none = false
dir_in dirs (some s) = contains dirs s.dir

-- The test that the page gives to `filterLayout`
unfoldable pub is_shown : Option (List Str) → SessionsByServer → Tile → Bool
is_shown none by_server t = true
is_shown (some dirs) by_server t = dir_in dirs (session_for by_server t)

-- `realIndex`
unfoldable pub real_index : {N : Type 0} → Option (List Str) → View N → ℕ → Option ℕ
real_index none v i = some i
real_index (some dirs) v i = get_elem? v.indices i

-- The tiles that are mounted but not shown, with their places in the stored layout
unfoldable pub offscreen : {N : Type 0} → Option (List Str) → Layout N → Layout N → List (Tile × ℕ)
offscreen none layout view = []
offscreen (some dirs) layout view =
    filter (λ e. not (contains (map tile_key (occupied view.tiles)) (tile_key e.0)))
      (visible_from (λ t. true) 0 layout.tiles)

-- `placed`
unfoldable pub placed : {N : Type 0} → Layout N → List Str
placed layout = map tile_key (occupied layout.tiles)

-- The running sessions without a tile
abbrev free_in : List Str → Option (List Str) → Server → Session → Bool
free_in keys active server s =
    running s
    && not (contains keys (tile_key (record { server_id = server.id; session_id = s.id })))
    && elim active [ none ↦ true | some dirs ↦ contains dirs s.dir ]

unfoldable pub unplaced :
    List Str → Option (List Str) → SessionsByServer → List Server → List (Server × Session)
unplaced keys active by_server [] = []
unplaced keys active by_server (server ∷ servers) =
    map (λ s. (server, s)) (filter (free_in keys active server) (by_server server.id))
    ++ unplaced keys active by_server servers

-- `doomed` of `closeDir`, as tiles
unfoldable pub doomed : Str → SessionsByServer → List Server → List Tile
doomed path by_server [] = []
doomed path by_server (server ∷ servers) =
    map (λ s. record { server_id = server.id; session_id = s.id })
      (filter (λ s. running s && str_eq s.dir path) (by_server server.id))
    ++ doomed path by_server servers

-- `endedByServer`: a server counts if its sessions have been loaded and it is not out of reach.
unfoldable pub ended_by_server :
    {N : Type 0}
    → Layout N
    → (Server → Bool)
    → SessionsByServer
    → List Server
    → List (Server × List Str)
ended_by_server layout counts by_server [] = []
ended_by_server layout counts by_server (server ∷ servers) =
    let rest = ended_by_server layout counts by_server servers in
    if counts server
    then elim (ended_tile_keys layout server.id (by_server server.id)) [
      | [] ↦ rest
      | key ∷ keys ↦ (server, key ∷ keys) ∷ rest
    ]
    else rest

-- What the edits below change; the keys are of the tile to focus and of the active one.
pub record Desk (N : Type 0) : Type 0 where
  pub layout : Layout N
  pub selected : Option (List Str)
  pub focus_key : Option Str
  pub active_key : Option Str

-- `if (session) showDir(session.dir)`
abbrev pub showing : Option (List Str) → Option Session → Option (List Str)
showing selected none = selected
showing selected (some s) = show_dir selected s.dir

-- What a drop of a tile on another slot asks for
pub data Drop : Type 0 where
  nothing : Drop
  reorder : List Str → Drop
  swap : ℕ → ℕ → Drop

abbrev swap_of : Option ℕ → Option ℕ → Drop
swap_of none to = nothing
swap_of (some from) none = nothing
swap_of (some from) (some to) = if from == to then nothing else swap from to

module _ (R : Numbers) where
  open R use {Num}

  unfoldable pub attach_session : SessionsByServer → Desk Num → Tile → Desk Num
  attach_session by_server d t = if contains (placed d.layout) (tile_key t) then d else record d {
    selected = showing d.selected (session_for by_server t);
    layout = add_tile R d.layout t;
  }

  unfoldable pub place_session : Desk Num → Server → Session → Desk Num
  place_session d server s =
      let t : Tile = record { server_id = server.id; session_id = s.id } in
      record {
        selected = show_dir d.selected s.dir;
        layout = add_tile R d.layout t;
        focus_key = some (tile_key t);
        active_key = some (tile_key t);
      }

  unfoldable pub terminate_session : Desk Num → ℕ → Bool → Desk Num
  terminate_session d tile_index confirmed =
      if confirmed then record d { layout = remove_tile R d.layout tile_index } else d

  unfoldable pub close_dir : SessionsByServer → List Server → Desk Num → Str → Bool → Desk Num
  close_dir by_server servers d path confirmed = elim (doomed path by_server servers) [
    | [] ↦ d
    | t ∷ ts ↦
        if confirmed
        then record d {
          layout =
              remove_tiles_where R d.layout (λ u. contains (map tile_key (t ∷ ts)) (tile_key u));
          selected = without_dir d.selected path;
        }
        else d
  ]

  -- The layout on screen, with its places
  unfoldable pub screen :
      Option (List Str) → SessionsByServer → Option (Overlay Num) → Layout Num → Option (View Num)
  screen active by_server overlay layout =
      apply_overlay R (filter_layout R layout (is_shown active by_server)) overlay

  -- `onDrop` on slot `i`, of a tile dragged from the slot that the text reads as
  unfoldable pub on_drop : Bool → Option (List Str) → View Num → Option ℕ → ℕ → Drop
  on_drop soloed active v none i = nothing
  on_drop soloed active v (some from) i =
      let keys = order_of v.view in
      if leb (length v.view.tiles) from
      then nothing
      else if soloed
      then (if leb (length keys) from || leb (length keys) i || from == i
          then nothing
          else reorder (swap_order keys from i))
      else swap_of (real_index active v from) (real_index active v i)
