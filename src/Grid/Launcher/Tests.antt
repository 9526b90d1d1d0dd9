-- ===== src/Grid/Launcher/Tests.antt =====
-- The launcher at work: a late answer, a forgotten directory, and a launch.
use multimux.Base.{
  ◌≡◌, refl, Bool, true, false, none, some, List, [], ◌∷◌, map, Str, codes, str_eq, trim,
  trim_start, trim_end, is_space,
}
use multimux.Grid.Types.{Tool, Dir, Server}
use multimux.Grid.DirFilter.{trim_slashes}
use multimux.Grid.Samples.{local, roots, sessions}
use multimux.Grid.Launcher.{
  Recent, Launcher, load, join_path, from_entries, same_ids, server_of, set_dirs, initial, mount,
  select_server, on_loaded, on_histories, forget, on_removed, can_launch, launch, on_created,
  recents,
}
use multimux.Grid.Launcher.System.{System, doing, Reach, begin, later, choose, answer}
use multimux.Grid.Launcher.Current.{Offer}
use multimux.Grid.Launcher.Own.{Reach-Offer}

abbrev box : Server
box = record { id = codes "box"; origin = codes "https://b"; name = codes "box"; token = none }

abbrev both : List Server
both = local ∷ box ∷ []

abbrev shell : Tool
shell = record { id = 4; name = codes "sh"; command = codes "sh" }

-- Only the first server's daemon has directories.
abbrev daemon : Str → List Tool × List Dir
daemon id = if_local (str_eq id (codes "local"))
  where
    if_local : Bool → List Tool × List Dir
    if_local true = (shell ∷ [], roots)
    if_local false = (shell ∷ [], [])

abbrev first_seen : Launcher
first_seen = (mount both none).0

abbrev offered : Launcher
offered = (on_loaded both first_seen 0 local (some (shell ∷ [], roots))).0

abbrev with_history : Launcher
with_history = on_histories offered 1 ((1, codes "mux" ∷ codes "web" ∷ []) ∷ (2, []) ∷ [])

mount_asks : (mount both none).1 ≡ load 0 local ∷ []
unfolding mount initial server_of str_eq
mount_asks = refl

-- The answer of the server that was left is dropped.
late_answer :
    (on_loaded both
      (select_server both first_seen (codes "box")).0
      0
      local
      (some (shell ∷ [], roots))).0.dirs
    ≡ []
unfolding mount initial select_server on_loaded str_eq
late_answer = refl

remembered :
    map (λ (r : Recent). r.path) (recents with_history.history with_history.dirs)
    ≡ codes "/r/mux" ∷ codes "/r/web" ∷ []
unfolding mount initial on_loaded set_dirs same_ids on_histories from_entries recents join_path
    trim_slashes
remembered = refl

web : Recent
web = record { dir_id = 1; subdir = codes "web"; path = codes "/r/web" }

-- What could not be forgotten is back.
not_forgotten :
    (on_removed
        (forget both with_history web).0
        (codes "local")
        web
        (with_history.history 1)
        (some (codes "no"))).history
      1
    ≡ codes "mux" ∷ codes "web" ∷ []
unfolding web mount initial on_loaded set_dirs same_ids on_histories from_entries forget server_of
    on_removed str_eq
not_forgotten = refl

-- The directory of a launch comes first, once.
launched_first :
    (on_created
        (launch both with_history 1 (codes " web")).0
        local
        (codes "local")
        1
        (codes " web")
        []
        (some sessions)).0.history
      1
    ≡ codes "web" ∷ codes "mux" ∷ []
unfolding mount initial on_loaded set_dirs same_ids on_histories from_entries server_of launch
    can_launch on_created trim trim_start trim_end is_space str_eq
launched_first = refl

abbrev begun : System
begun = doing (record { model = (mount both none).0; out = [] }) (mount both none)

abbrev switched : System
switched = doing begun (select_server both begun.model (codes "box"))

abbrev late : System
late = doing switched (on_loaded both switched.model 0 local (some (daemon (codes "local"))))

late-Reach : Reach both daemon late
unfolding mount initial select_server server_of str_eq
late-Reach = later (later (begin none) (choose (codes "box"))) (answer 1 0 local refl)

Reach-Offer_example : Offer both daemon late.model
Reach-Offer_example = Reach-Offer both daemon late late-Reach
