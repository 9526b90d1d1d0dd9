-- ===== src/Term/Tile/Close.antt =====
-- Why a socket closed: `lookupSessions` and `classifyClose` of term/TerminalTile.tsx.
use multimux.Base.{ℕ, ◌||◌, Option, none, some, List, if◌then◌else◌, ◌==◌, find?}
use multimux.Grid.Types.{Session, running}
use multimux.Api.{Result, ok, err, Response, is_ok}

-- `SessionsLookup`
pub data Lookup : Type 0 where
  no_auth retry_later : Lookup
  found : List Session → Lookup

-- What `lookupSessions` makes of a response; the parameter is `json()`.
unfoldable pub lookup_of : (Response → Option (List Session)) → Result Response → Lookup
lookup_of json (err e) = retry_later
lookup_of json (ok r) =
    if r.status == 401 || r.status == 403
    then no_auth
    else if is_ok r
    then elim (json r) [ none ↦ retry_later | some sessions ↦ found sessions ]
    else retry_later

-- What `classifyClose` tells
pub data Kind : Type 0 where
  retry gone_exited gone_missing gone_auth : Kind

abbrev kind_of : Option Session → Kind
kind_of none = gone_missing
kind_of (some s) = if running s then retry else gone_exited

unfoldable pub classify_close : Lookup → ℕ → Kind
classify_close no_auth id = gone_auth
classify_close retry_later id = retry
classify_close (found sessions) id = kind_of (find? (λ s. s.id == id) sessions)
