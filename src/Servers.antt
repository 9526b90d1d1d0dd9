-- ===== src/Servers.antt =====
-- The daemons that a browser knows: servers.ts.
--
-- `loadStored` and `save` read and write one list under one key; the list is the model's state, and
-- is empty where the storage holds no list. A new server's id is what `crypto.randomUUID` gives.
pub mod Consent
pub mod Stored
mod Tests
use multimux.Base.{
  ℕ, Bool, true, false, not, ◌&&◌, ◌||◌, Option, none, some, List, [], ◌∷◌, ◌++◌, map, filter,
  if◌then◌else◌, ◌==◌, Str, str_eq, codes,
}
use multimux.Grid.Types.{Server}

-- With the page's own origin
unfoldable pub local_server : Str → Server
local_server origin = record {
  id = codes "local";
  origin = origin;
  name = codes "local";
  token = none;
}

unfoldable pub list_servers : Str → List Server → List Server
list_servers origin stored = local_server origin ∷ stored

-- `origin.replace(/\/$/, "")`
unfoldable pub without_slash : Str → Str
without_slash [] = []
without_slash (c ∷ []) = if c == 47 then [] else c ∷ []
without_slash (c ∷ d ∷ s) = c ∷ without_slash (d ∷ s)

unfoldable pub add_server : Str → Str → Str → List Server → List Server × Server
add_server uuid origin name stored =
    let s : Server = record {
      id = uuid;
      origin = without_slash origin;
      name = name;
      token = none;
    } in
    (stored ++ s ∷ [], s)

unfoldable pub set_server_token : Str → Str → List Server → List Server
set_server_token id token = map (λ s. if str_eq s.id id then record s { token = some token } else s)

unfoldable pub remove_server : Str → List Server → List Server
remove_server id = filter (λ s. not (str_eq s.id id))

-- What reaches the page while the consent popup is open: a message, with its origin and the type and
-- token of its data, and the poll, with whether the popup is closed.
pub data Event : Type 0 where
  message : Str → Option Str → Str → Event
  poll : Bool → Event

pub data Effect : Type 0 where
  -- `setServerToken`
  store_token : Str → Str → Effect
  close_popup : Effect
  on_token : Effect

abbrev is_token : Option Str → Bool
is_token none = false
is_token (some type) = str_eq type (codes "multimux-token")

-- `onMsg`, and the poll; the flag is whether the page still listens.
unfoldable pub on_consent : Server → Bool → Event → Bool × List Effect
on_consent s false e = (false, [])
on_consent s true (message origin type token) =
    if not (str_eq origin s.origin) || not (is_token type)
    then (true, [])
    else (false, store_token s.id token ∷ close_popup ∷ on_token ∷ [])
on_consent s true (poll closed) = (not closed, [])

-- `connectServer`, with whether the popup was blocked, and what then happens
unfoldable pub connect_all : Server → Bool → List Event → Bool × List Effect
connect_all s listening [] = (listening, [])
connect_all s listening (e ∷ es) =
    let (on, now) = on_consent s listening e in
    let (end, later) = connect_all s on es in (end, now ++ later)

unfoldable pub connect_server : Server → Bool → List Event → Bool × List Effect
connect_server s blocked es = connect_all s (not blocked) es
