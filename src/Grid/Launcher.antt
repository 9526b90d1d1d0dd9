-- ===== src/Grid/Launcher.antt =====
-- Launching sessions: grid/useSessionLauncher.ts, for one list of servers.
--
-- The hook's state is a record. What an operation sends to a daemon is a request, which carries what
-- its closure remembers, and its answer is a call of the function that ends it. An effect that runs
-- again makes the requests of its earlier runs stale: the runs are numbered. The history of a
-- directory without one is empty; an id of 0 is none, as in the source.
pub mod System
pub mod Current
pub mod Own
mod Tests
use multimux.Base.{
  ℕ, suc, ◌+◌, Bool, true, false, not, ◌&&◌, ◌||◌, Option, none, some, List, [], ◌∷◌, ◌++◌, map,
  if◌then◌else◌, ◌==◌, ltb, filter, any, find?, is_some, Str, str_eq, codes, trim,
}
use multimux.Grid.Types.{Session, Tool, Dir, Server}
use multimux.Grid.DirFilter.{trim_slashes, split_under_dir}
use multimux.Api.{is_empty}

-- `RecentDir`
pub record Recent : Type 0 where
  pub dir_id : ℕ
  pub subdir : Str
  pub path : Str

-- A launch that succeeded
pub record Batch : Type 0 where
  pub server : Server
  pub sessions : List Session

pub record Launcher : Type 0 where
  -- `serverId` and `serverRef`
  pub server_id : Str
  pub tools : List Tool
  pub dirs : List Dir
  pub tool_id : ℕ
  -- `history[id] ?? []`
  pub history : ℕ → List Str
  pub error : Str
  pub loading : Bool
  pub busy : Bool
  -- the runs of the two effects so far
  pub load_run : ℕ
  pub history_run : ℕ

pub data Request : Type 0 where
  -- the tools and the directories
  load : ℕ → Server → Request
  -- the subdirs of every directory
  histories : ℕ → Server → List Dir → Request
  -- DELETE, with what the history was
  removal : Server → Str → Recent → List Str → Request
  creation : Server → Str → ℕ → ℕ → Str → Request

-- Of a non-empty path
unfoldable pub join_path : Str → Str → Str
join_path base [] = trim_slashes base
join_path base (c ∷ subdir) = trim_slashes base ++ (codes "/" ++ c ∷ subdir)

-- `{ ...all, [id]: items }`
abbrev pub with_items : (ℕ → List Str) → ℕ → List Str → ℕ → List Str
with_items all id items d = if d == id then items else all d

-- `Object.fromEntries`
unfoldable pub from_entries : (ℕ → List Str) → List (ℕ × List Str) → ℕ → List Str
from_entries all [] = all
from_entries all ((id, items) ∷ entries) = from_entries (with_items all id items) entries

abbrev pub but : Str → List Str → List Str
but item = filter (λ s. not (str_eq s item))

abbrev pub first_id : List Tool → ℕ
first_id [] = 0
first_id (t ∷ ts) = t.id

-- `dirs.map((dir) => dir.id).join(",")`, compared
unfoldable pub same_ids : List Dir → List Dir → Bool
same_ids [] [] = true
same_ids [] (e ∷ es) = false
same_ids (d ∷ ds) [] = false
same_ids (d ∷ ds) (e ∷ es) = d.id == e.id && same_ids ds es

abbrev pub is_none : {A : Type 0} → List A → Bool
is_none [] = true
is_none (x ∷ xs) = false

abbrev pub asking : Option Server → (Server → Request) → List Request
asking none request = []
asking (some server) request = request server ∷ []

-- The state after `selectServer`, before the effects
abbrev pub reset : Launcher → Str → Launcher
reset l id = record l {
  server_id = id;
  tools = [];
  dirs = [];
  tool_id = 0;
  history = λ _. [];
  error = [];
  loading = true;
}

unfoldable pub select_tool : Launcher → ℕ → Launcher
select_tool l id = record l { tool_id = id; error = [] }

-- The answers to `histories`, of run `n`; the list of a request that failed is empty.
unfoldable pub on_histories : Launcher → ℕ → List (ℕ × List Str) → Launcher
on_histories l n pairs =
    if n == l.history_run then record l { history = from_entries (λ _. []) pairs } else l

-- The end of `removal`, with what it threw
unfoldable pub on_removed : Launcher → Str → Recent → List Str → Option Str → Launcher
on_removed l issued_for recent previous none = l
on_removed l issued_for recent previous (some reason) =
    if str_eq l.server_id issued_for
    then record l {
      history = with_items l.history recent.dir_id previous;
      error = codes "couldn't forget " ++ recent.path ++ codes ": " ++ reason;
    }
    else l

unfoldable pub can_launch : Launcher → Bool
can_launch l = not l.loading && not l.busy && ltb 0 l.tool_id && not (is_none l.dirs)

abbrev pub used_first : Launcher → Str → ℕ → Str → Launcher
used_first l issued_for dir_id used =
    if not (is_empty used) && str_eq l.server_id issued_for
    then record l { history = with_items l.history dir_id (used ∷ but used (l.history dir_id)) }
    else l

-- The end of `creation`: what it threw, or the sessions; and what `launch` gives
unfoldable pub on_created :
    Launcher → Server → Str → ℕ → Str → Str → Option (List Session) → Launcher × Option Batch
on_created l server issued_for dir_id subdir reason none =
    (record l { error = codes "launch failed: " ++ reason; busy = false }, none)
on_created l server issued_for dir_id subdir reason (some sessions) = (
  record (used_first l issued_for dir_id (trim subdir)) { busy = false },
  some (record { server = server; sessions = sessions }),
)

module _ (servers : List Server) where
  unfoldable pub server_of : Str → Option Server
  server_of id = find? (λ s. str_eq s.id id) servers

  -- A run of the first effect
  abbrev pub loads : Launcher → List Request
  loads l = asking (server_of l.server_id) (load l.load_run)

  -- A run of the second
  abbrev pub asks_histories : Launcher → List Request
  asks_histories l =
      if is_none l.dirs
      then []
      else asking (server_of l.server_id) (λ s. histories l.history_run s l.dirs)

  -- `setDirs`, with the effect that depends on the ids
  unfoldable pub set_dirs : Launcher → List Dir → Launcher × List Request
  set_dirs l dirs =
      if same_ids l.dirs dirs
      then (record l { dirs = dirs }, [])
      else (let next = record l { dirs = dirs; history_run = suc l.history_run } in
          (next, asks_histories next))

  -- `initial`
  unfoldable pub initial : Option Str → Str
  initial id = go id servers
    where
      first : List Server → Str
      first [] = []
      first (s ∷ ss) = s.id

      go : Option Str → List Server → Str
      go none ss = first ss
      go (some id) ss = if any (λ s. str_eq s.id id) ss then id else first ss

  unfoldable pub mount : Option Str → Launcher × List Request
  mount id =
      let l : Launcher = record {
        server_id = initial id;
        tools = [];
        dirs = [];
        tool_id = 0;
        history = λ _. [];
        error = [];
        loading = true;
        busy = false;
        load_run = 0;
        history_run = 0;
      } in
      (l, loads l)

  -- Effects whose dependencies are the same do not run again.
  unfoldable pub select_server : Launcher → Str → Launcher × List Request
  select_server l id =
      if str_eq id l.server_id
      then (if is_none l.dirs
          then (reset l id, [])
          else (record (reset l id) { history_run = suc l.history_run }, []))
      else (let next = record (reset l id) {
        load_run = suc l.load_run;
        history_run = suc l.history_run;
      } in
          (next, loads next))

  -- The answer to `load`, of run `n`; none if one of its two requests failed
  unfoldable pub on_loaded :
      Launcher → ℕ → Server → Option (List Tool × List Dir) → Launcher × List Request
  on_loaded l n server none =
      if n == l.load_run
      then set_dirs
          (record l { tools = []; error = codes "can't reach " ++ server.name; loading = false }) []
      else (l, [])
  on_loaded l n server (some (tools, dirs)) =
      if n == l.load_run
      then set_dirs
          (record l { tools = tools; tool_id = first_id tools; error = []; loading = false }) dirs
      else (l, [])

  unfoldable pub forget : Launcher → Recent → Launcher × List Request
  forget l recent = elim (server_of l.server_id) [
    | none ↦ (l, [])
    | some server ↦
        let previous = l.history recent.dir_id in
        (
          record l { history = with_items l.history recent.dir_id (but recent.subdir previous) },
          removal server l.server_id recent previous ∷ [],
        )
  ]

  -- No request if it gives null at once
  unfoldable pub launch : Launcher → ℕ → Str → Launcher × List Request
  launch l dir_id subdir = elim (server_of l.server_id) [
    | none ↦ (l, [])
    | some server ↦ if not (can_launch l) || dir_id == 0 then (l, []) else (
      record l { busy = true; error = [] },
      creation server l.server_id l.tool_id dir_id subdir ∷ [],
    )
  ]

recents_of : (ℕ → List Str) → Dir → List Recent
recents_of history dir =
    map (λ s. record { dir_id = dir.id; subdir = s; path = join_path dir.path s }) (history dir.id)

unfoldable pub recents : (ℕ → List Str) → List Dir → List Recent
unfolding recents_of
recents history [] = []
recents history (dir ∷ dirs) = recents_of history dir ++ recents history dirs

-- The location the picker opens at
unfoldable pub start : Launcher → Option Str → Option Str → Option (ℕ × Str)
start l none target_server = none
start l (some target) none = if is_none l.dirs then none else split_under_dir l.dirs target
start l (some target) (some server) =
    if str_eq server l.server_id && not (is_none l.dirs)
    then split_under_dir l.dirs target
    else none

-- `"tools" | "dirs" | null`
pub data Unconfigured : Type 0 where
  no_tools no_dirs configured : Unconfigured

unfoldable pub unconfigured : Launcher → Unconfigured
unconfigured l =
    if not l.loading && is_empty l.error && is_none l.tools
    then no_tools
    else if not l.loading && is_empty l.error && is_none l.dirs
    then no_dirs
    else configured
