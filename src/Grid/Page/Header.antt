-- ===== src/Grid/Page/Header.antt =====
-- What the grid page does for its header and for events: the directories it offers to the launcher, the
-- server it aims at, the edits of an overlay, and which lists a daemon's event refreshes.
use multimux.Base.{
  Bool, false, ◌&&◌, ◌||◌, Option, none, some, List, [], ◌∷◌, ◌++◌, if◌then◌else◌, any, find?, Str,
  str_eq, codes, starts_with,
}
use multimux.Grid.Types.{Session, Server, running}
use multimux.Grid.Model.{Tile, Layout, occupied}
use multimux.Grid.View.{Overlay, tile_key, seed_overlay}
use multimux.Grid.DirFilter.{SessionsByServer}
use multimux.Grid.Mobile.{contains}
use multimux.Grid.Page.Screen.{session_for}

-- `VisibleDir`
pub record VisibleDir : Type 0 where
  pub server_id : Str
  pub dir : Str

abbrev is_seen : List VisibleDir → Str → Str → Bool
is_seen out server_id dir = any (λ v. str_eq v.server_id server_id && str_eq v.dir dir) out

-- `add`; `out` holds what is in `seen`
unfoldable pub add_visible : List VisibleDir → Str → Option Str → List VisibleDir
add_visible out server_id none = out
add_visible out server_id (some []) = out
add_visible out server_id (some (c ∷ dir)) =
    if is_seen out server_id (c ∷ dir)
    then out
    else out ++ record { server_id = server_id; dir = c ∷ dir } ∷ []

abbrev dir_of : Option Session → Option Str
dir_of none = none
dir_of (some s) = some s.dir

-- The loops over the sessions of a server, over the servers, and over the tiles
unfoldable pub add_sessions : List Str → Str → List VisibleDir → List Session → List VisibleDir
add_sessions active server_id out [] = out
add_sessions active server_id out (s ∷ ss) =
    add_sessions active server_id
      (if running s && contains active s.dir then add_visible out server_id (some s.dir) else out)
      ss

unfoldable pub add_servers :
    List Str → SessionsByServer → List VisibleDir → List Server → List VisibleDir
add_servers active by_server out [] = out
add_servers active by_server out (server ∷ servers) =
    add_servers active by_server (add_sessions active server.id out (by_server server.id)) servers

unfoldable pub add_tiles : SessionsByServer → List VisibleDir → List Tile → List VisibleDir
add_tiles by_server out [] = out
add_tiles by_server out (t ∷ ts) =
    add_tiles by_server (add_visible out t.server_id (dir_of (session_for by_server t))) ts

unfoldable pub visible_dirs :
    {N : Type 0} → Option (List Str) → SessionsByServer → List Server → Layout N → List VisibleDir
visible_dirs none by_server servers view = add_tiles by_server [] (occupied view.tiles)
visible_dirs (some active) by_server servers view = add_servers active by_server [] servers

-- `activeTile`, and `targetServerId`
abbrev is_active : Option Str → Tile → Bool
is_active none t = false
is_active (some key) t = str_eq (tile_key t) key

unfoldable pub target_server : {N : Type 0} → Layout N → Option Str → Option Str
target_server layout active_key = elim (find? (is_active active_key) (occupied layout.tiles)) [
  | none ↦ none
  | some t ↦ some t.server_id
]

abbrev or_seed : {N : Type 0} → Option (Overlay N) → Layout N → Overlay N
or_seed none view = seed_overlay view
or_seed (some o) view = o

-- `editOverlay`: the overlay from then on, and what is stored for a directory
unfoldable pub edit_overlay :
    {N : Type 0}
    → Option Str
    → Option (Overlay N)
    → Layout N
    → (Overlay N → Overlay N)
    → Bool
    → Option (Overlay N) × List (Str × Overlay N)
edit_overlay none overlay view update persist_edit = (overlay, [])
edit_overlay (some dir) overlay view update persist_edit =
    let next = update (or_seed overlay view) in
    (some next, if persist_edit then (dir, next) ∷ [] else [])

-- `onServerEvent`: whether the sender's sessions and the layout are asked for
unfoldable pub on_server_event : Str → Bool × Bool
on_server_event type = (
  starts_with (codes "session_") type
      || str_eq type (codes "git_changed")
      || str_eq type (codes "hello"),
  str_eq type (codes "layout_changed") || str_eq type (codes "hello"),
)
