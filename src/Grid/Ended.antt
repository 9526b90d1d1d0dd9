-- ===== src/Grid/Ended.antt =====
-- Tiles whose session has ended: grid/endedSessions.ts.
pub mod Keys
use mathlib.Core.List.{foldl}
use multimux.Base.{
  ℕ, Bool, true, false, not, ◌&&◌, ◌||◌, Option, none, some, List, [], ◌∷◌, ◌++◌, if◌then◌else◌,
  ◌==◌, Str, str_eq,
}
use multimux.Grid.Types.{Session, running}
use multimux.Grid.Model.{Tile, Layout}
use multimux.Grid.View.{tile_key}
use multimux.Grid.Mobile.{contains}

-- `byId.get(id)`: the session that was set last
unfoldable pub by_id : List Session → ℕ → Option Session
by_id [] id = none
by_id (s ∷ sessions) id = elim (by_id sessions id) [
  | some later ↦ some later
  | none ↦ if s.id == id then some s else none
]

-- `!session || session.status !== "running"`
abbrev pub is_over : Option Session → Bool
is_over none = true
is_over (some s) = not (running s)

-- `Set.prototype.add`
unfoldable pub add_key : List Str → Str → List Str
add_key keys key = if contains keys key then keys else keys ++ key ∷ []

abbrev pub ends : Str → List Session → Tile → Bool
ends server_id sessions t = str_eq t.server_id server_id && is_over (by_id sessions t.session_id)

unfoldable pub end_tile : Str → List Session → List Str → Option Tile → List Str
end_tile server_id sessions keys none = keys
end_tile server_id sessions keys (some t) =
    if ends server_id sessions t then add_key keys (tile_key t) else keys

unfoldable pub ended_tile_keys : {N : Type 0} → Layout N → Str → List Session → List Str
ended_tile_keys layout server_id sessions = foldl (end_tile server_id sessions) [] layout.tiles
