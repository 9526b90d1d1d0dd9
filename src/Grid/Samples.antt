-- ===== src/Grid/Samples.antt =====
-- Numbers, sessions and layouts for the tests. A size is a whole number of 840ths here.
use multimux.Base.{
  ℕ, ◌+◌, ◌-◌, ◌*◌, ◌/◌, min, max, true, none, some, List, [], ◌∷◌, leb, ltb, Str, codes,
}
use multimux.Grid.Numbers.{Numbers}
use multimux.Grid.Model.{Tile, Layout, normalize}
use multimux.Grid.Types.{Session, Dir, Server}

abbrev pub parts : Numbers
parts = record {
  Num = ℕ;
  of_nat = λ n. n * 840;
  plus = λ a b. a + b;
  minus = λ a b. a - b;
  over = λ a b. a * 840 / b;
  less = ltb;
  at_most = leb;
  abs = λ a. a;
  is_finite = λ _. true;
  lower = min;
  upper = max;
}

abbrev pub tile_a : Tile
tile_a = record { server_id = codes "local"; session_id = 7 }

abbrev pub tile_b : Tile
tile_b = record { server_id = codes "local"; session_id = 12 }

abbrev pub tile_c : Tile
tile_c = record { server_id = codes "box"; session_id = 3 }

abbrev pub three : Layout ℕ
three = normalize parts (some tile_a ∷ none ∷ some tile_b ∷ some tile_c ∷ []) 2 none none

abbrev pub session_at : ℕ → Str → Str → Session
session_at n path state = record {
  id = n;
  tmux_name = codes "mm";
  tool_id = 1;
  dir = path;
  status = state;
  label = none;
  repo_url = none;
  branch = none;
  git_state = none;
  ahead = none;
  behind = none;
  no_upstream = none;
}

abbrev pub local : Server
local = record {
  id = codes "local";
  origin = codes "https://a";
  name = codes "local";
  token = none;
}

abbrev pub sessions : List Session
sessions =
    session_at 7 (codes "/r/mux") (codes "running")
    ∷ session_at 12 (codes "/r/web") (codes "running")
    ∷ session_at 9 (codes "/r/mux") (codes "dead")
    ∷ []

abbrev pub by_server : Str → List Session
by_server _ = sessions

abbrev pub roots : List Dir
roots =
    record { id = 1; name = codes "r"; path = codes "/r/" }
    ∷ record { id = 2; name = codes "mux"; path = codes "/r/mux" }
    ∷ []
