-- ===== src/Grid/Mobile.antt =====
-- The phone view's session list: grid/mobileModel.ts.
pub mod Visits
pub mod Loops
pub mod Order
pub mod Selection
use mathlib.Core.List.{foldl}
use multimux.Base.{
  ℕ, ◌-◌, Bool, true, false, not, ◌&&◌, Option, none, some, List, [], ◌∷◌, ◌++◌, map, filter,
  if◌then◌else◌, length, get_elem?, min, any, find_idx?, Str, str_eq, codes,
}
use multimux.Base.Decimal.{decimal}
use multimux.Grid.Types.{Session, Server, running}
use multimux.Grid.Model.{Tile, Layout}
use multimux.Grid.View.{tile_key}
use multimux.Grid.DirFilter.{SessionsByServer}

pub record MobileSession : Type 0 where
  pub key : Str
  pub server : Server
  pub session : Session

pub record MobileSelection : Type 0 where
  pub key : Option Str
  pub index : ℕ

-- `${server.id}:${session.id}`
unfoldable pub session_key : Server → Session → Str
session_key server session = server.id ++ (codes ":" ++ decimal session.id)

abbrev pub entry_of : Server → Session → MobileSession
entry_of server session = record {
  key = session_key server session;
  server = server;
  session = session;
}

-- What the first loops put into `sessionByKey`, in order.
abbrev pub running_entries : SessionsByServer → List Server → List MobileSession
running_entries by_server [] = []
running_entries by_server (server ∷ servers) =
    map (entry_of server) (filter running (by_server server.id))
    ++ running_entries by_server servers

-- `sessionByKey.get(key)`: the entry that was set last
unfoldable pub get_entry : List MobileSession → Str → Option MobileSession
get_entry [] key = none
get_entry (e ∷ entries) key = elim (get_entry entries key) [
  | some later ↦ some later
  | none ↦ if str_eq e.key key then some e else none
]

-- A set of strings
unfoldable pub contains : List Str → Str → Bool
contains seen key = any (λ k. str_eq k key) seen

pub record Collected : Type 0 where
  pub seen : List Str
  pub result : List MobileSession

unfoldable pub collect : Option MobileSession → Str → Collected → Collected
collect none key st = st
collect (some e) key st =
    if contains st.seen key
    then st
    else record { seen = key ∷ st.seen; result = st.result ++ e ∷ [] }

module _ (servers : List Server) (by_server : SessionsByServer) where
  abbrev pub entries : List MobileSession
  entries = running_entries by_server servers

  unfoldable pub visit : Str → Collected → Collected
  visit key st = collect (get_entry entries key) key st

  -- The loop over the tiles of the layout.
  unfoldable pub visit_tile : Collected → Option Tile → Collected
  visit_tile st none = st
  visit_tile st (some t) =
      if any (λ server. str_eq server.id t.server_id) servers then visit (tile_key t) st else st

  -- The loops over the servers and their sessions.
  unfoldable pub visit_session : Server → Collected → Session → Collected
  visit_session server st session = visit (session_key server session) st

  unfoldable pub visit_server : Collected → Server → Collected
  visit_server st server = foldl (visit_session server) st (by_server server.id)

  unfoldable pub collected : List (Option Tile) → Collected
  collected tiles =
      foldl visit_server (foldl visit_tile (record { seen = []; result = [] }) tiles) servers

  unfoldable pub order_mobile_sessions : {N : Type 0} → Layout N → List MobileSession
  order_mobile_sessions layout = (collected layout.tiles).result

-- `session.key === previous.key`, where null is no key
abbrev pub is_key : Option Str → MobileSession → Bool
is_key none s = false
is_key (some key) s = str_eq s.key key

abbrev pub key_at : List MobileSession → ℕ → Option Str
key_at sessions i = elim (get_elem? sessions i) [ none ↦ none | some s ↦ some s.key ]

-- `retained >= 0 ? retained : Math.min(index, count - 1)`
abbrev pub chosen : Option ℕ → ℕ → ℕ → ℕ
chosen none index count = min index (count - 1)
chosen (some retained) index count = retained

unfoldable pub reconcile_mobile_selection : MobileSelection → List MobileSession → MobileSelection
reconcile_mobile_selection previous [] = record { key = none; index = 0 }
reconcile_mobile_selection previous (s ∷ sessions) =
    let retained = find_idx? (is_key previous.key) (s ∷ sessions) in
    let index = chosen retained previous.index (length (s ∷ sessions)) in
    record { key = key_at (s ∷ sessions) index; index = index }
