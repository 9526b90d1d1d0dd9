-- ===== src/Term/Tile/Claims.antt =====
-- When a terminal claims the size of the shared window.
use multimux.Base.{◌≡◌, ◌&&◌, List}
use multimux.Term.Tile.{Tile, Effect, follows}
use multimux.Term.Tile.Claimless.{claims, is_connected, Claimless}

-- What an operation gives after its guard and its claim.
abbrev Asks : Tile → Tile × List Effect → Type 0
Asks t r = claims r.1 ≡ is_connected t && follows t.policy
