-- ===== src/Grid/Launcher/System.antt =====
-- The launcher and the daemons: what is asked, and what is answered when.
use multimux.Base.{ℕ, ◌≡◌, Option, none, some, List, [], ◌++◌, get_elem?, Str}
use multimux.Grid.Types.{Session, Tool, Dir, Server}
use multimux.Grid.Launcher.{
  Recent, Launcher, Request, load, mount, select_server, select_tool, on_loaded, on_histories,
  forget, on_removed, launch, on_created,
}

-- The launcher, and every request that it has sent. An answer may come at any time, and more than once.
pub record System : Type 0 where
  pub model : Launcher
  pub out : List Request

abbrev pub doing : System → Launcher × List Request → System
doing s r = record { model = r.0; out = r.1 ++ s.out }

abbrev pub becoming : System → Launcher → System
becoming s l = record s { model = l }

-- What each daemon has, by its id
module _ (servers : List Server) (daemon : Str → List Tool × List Dir) where
  pub data Step (s : System) : System → Type 0 where
    choose : (id : Str) → Step s (doing s (select_server servers s.model id))
    choose_tool : (id : ℕ) → Step s (becoming s (select_tool s.model id))
    answer :
        (i n : ℕ) (server : Server)
        → get_elem? s.out i ≡ some (load n server)
        → Step s (doing s (on_loaded servers s.model n server (some (daemon server.id))))
    no_answer :
        (i n : ℕ) (server : Server)
        → get_elem? s.out i ≡ some (load n server)
        → Step s (doing s (on_loaded servers s.model n server none))
    tell_history :
        (n : ℕ) (pairs : List (ℕ × List Str)) → Step s (becoming s (on_histories s.model n pairs))
    drop : (recent : Recent) → Step s (doing s (forget servers s.model recent))
    dropped :
        (id : Str) (recent : Recent) (previous : List Str) (reason : Option Str)
        → Step s (becoming s (on_removed s.model id recent previous reason))
    go : (dir_id : ℕ) (subdir : Str) → Step s (doing s (launch servers s.model dir_id subdir))
    gone :
        (server : Server) (id : Str) (dir_id : ℕ) (subdir reason : Str)
        (sessions : Option (List Session))
        → Step s (becoming s (on_created s.model server id dir_id subdir reason sessions).0)

  pub data Reach : System → Type 0 where
    begin :
        (id : Option Str)
        → Reach (doing (record { model = (mount servers id).0; out = [] }) (mount servers id))
    later : {s t : System} → Reach s → Step s t → Reach t
