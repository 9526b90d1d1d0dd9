-- ===== src/Grid/Types.antt =====
-- What the daemon reports: `Session`, `Tool` and `Dir` of grid/types.ts, and the type `Server` of
-- servers.ts. A field that the source marks optional is an `Option`.
use multimux.Base.{ℕ, Bool, Option, Str, str_eq, codes}

-- `Session["gitState"]`
pub data GitState : Type 0 where
  untracked modified clean : GitState

pub record Session : Type 0 where
  pub id : ℕ
  pub tmux_name : Str
  pub tool_id : ℕ
  pub dir : Str
  pub status : Str
  pub label : Option Str
  pub repo_url : Option Str
  pub branch : Option Str
  pub git_state : Option GitState
  pub ahead : Option ℕ
  pub behind : Option ℕ
  pub no_upstream : Option Bool

pub record Tool : Type 0 where
  pub id : ℕ
  pub name : Str
  pub command : Str

pub record Dir : Type 0 where
  pub id : ℕ
  pub name : Str
  pub path : Str

pub record Server : Type 0 where
  pub id : Str
  pub origin : Str
  pub name : Str
  pub token : Option Str

-- `session.status === "running"`
unfoldable pub running : Session → Bool
running s = str_eq s.status (codes "running")
