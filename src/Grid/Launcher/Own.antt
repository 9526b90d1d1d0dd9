-- ===== src/Grid/Launcher/Own.antt =====
-- What the launcher offers belongs to the server that is selected, however its answers come.
use multimux.Base.{
  ℕ, refl, inl, inr, Bool, true, false, not, ◌&&◌, Option, none, some, List, [], ◌∷◌, if◌then◌else◌,
  ◌==◌, All-append, All-get_elem?, by_true, by_false, Bool-cases, Str, str_eq, trim, ◌||◌,
}
use multimux.Grid.Types.{Session, Tool, Dir, Server}
use multimux.Api.{is_empty}
use multimux.Grid.Launcher.{
  Recent, Launcher, Request, removal, creation, server_of, loads, mount, select_tool, on_histories,
  forget, on_removed, launch, used_first, on_created, with_items, but, can_launch,
}
use multimux.Grid.Launcher.System.{
  System, Step, choose, choose_tool, answer, no_answer, tell_history, drop, dropped, go, gone,
  Reach, begin, later,
}
use multimux.Grid.Launcher.Current.{
  Offer, nothing_yet, Owns, After, loads-Current, select_server-Owns, on_loaded-Owns,
  on_loaded-none, Owns-same,
}

module _ (servers : List Server) (daemon : Str → List Tool × List Dir) where
  forget-Owns :
      (l : Launcher) (recent : Recent) (out : List Request)
      → Owns servers daemon l out
      → After servers daemon out (forget servers l recent)
  unfolding forget
  forget-Owns l recent out h = go (server_of servers l.server_id)
    where
      previous : List Str
      previous = l.history recent.dir_id

      forgot : Launcher
      forgot = record l {
        history = with_items l.history recent.dir_id (but recent.subdir previous);
      }

      go :
          (o : Option Server)
          → After servers daemon out (elim o [
            | none ↦ (l, [])
            | some server ↦ (forgot, removal server l.server_id recent previous ∷ [])
          ])
      go none = h
      go (some server) =
          let same = Owns-same servers daemon l forgot out refl refl refl refl refl h in
          record { current = (tt, same.current); offer = same.offer }

  launch-Owns :
      (l : Launcher) (dir_id : ℕ) (subdir : Str) (out : List Request)
      → Owns servers daemon l out
      → After servers daemon out (launch servers l dir_id subdir)
  unfolding launch
  launch-Owns l dir_id subdir out h = go (server_of servers l.server_id)
    where
      started : Launcher
      started = record l { busy = true; error = [] }

      ask : Server → Launcher × List Request
      ask server = (started, creation server l.server_id l.tool_id dir_id subdir ∷ [])

      go :
          (o : Option Server)
          → After servers daemon out (elim o [
            | none ↦ (l, [])
            | some server ↦ if not (can_launch l) || dir_id == 0 then (l, []) else ask server
          ])
      go none = h
      go (some server) = elim (Bool-cases (not (can_launch l) || dir_id == 0)) [
        | inl e ↦ by_true (After servers daemon out) (l, []) (ask server) e h
        | inr e ↦
            let same = Owns-same servers daemon l started out refl refl refl refl refl h in
            by_false (After servers daemon out) (l, []) (ask server) e
              (record { current = (tt, same.current); offer = same.offer })
      ]

  if-Owns :
      (b : Bool) (l l' : Launcher) (out : List Request)
      → Owns servers daemon l out
      → Owns servers daemon l' out
      → Owns servers daemon (if b then l else l') out
  if-Owns true l l' out h k = h
  if-Owns false l l' out h k = k

  on_histories-Owns :
      (l : Launcher) (n : ℕ) (pairs : List (ℕ × List Str)) (out : List Request)
      → Owns servers daemon l out
      → Owns servers daemon (on_histories l n pairs) out
  unfolding on_histories
  on_histories-Owns l n pairs out h =
      if-Owns (n == l.history_run) _ l out
        (Owns-same servers daemon l _ out refl refl refl refl refl h) h

  on_removed-Owns :
      (l : Launcher) (id : Str) (recent : Recent) (previous : List Str) (reason : Option Str)
      (out : List Request)
      → Owns servers daemon l out
      → Owns servers daemon (on_removed l id recent previous reason) out
  unfolding on_removed
  on_removed-Owns l id recent previous none out h = h
  on_removed-Owns l id recent previous (some reason) out h =
      if-Owns (str_eq l.server_id id) _ l out
        (Owns-same servers daemon l _ out refl refl refl refl refl h) h

  on_created-Owns :
      (l : Launcher) (server : Server) (id : Str) (dir_id : ℕ) (subdir reason : Str)
      (sessions : Option (List Session)) (out : List Request)
      → Owns servers daemon l out
      → Owns servers daemon (on_created l server id dir_id subdir reason sessions).0 out
  unfolding on_created
  on_created-Owns l server id dir_id subdir reason none out h =
      Owns-same servers daemon l _ out refl refl refl refl refl h
  on_created-Owns l server id dir_id subdir reason (some sessions) out h =
      let used = trim subdir in
      Owns-same servers daemon (used_first l id dir_id used) _ out refl refl refl refl refl (
        if-Owns (not (is_empty used) && str_eq l.server_id id) _ l out
          (Owns-same servers daemon l _ out refl refl refl refl refl h) h)

  Step-Owns :
      {s t : System}
      → Step servers daemon s t
      → Owns servers daemon s.model s.out
      → Owns servers daemon t.model t.out
  unfolding select_tool
  Step-Owns {s} (choose id) h = select_server-Owns servers daemon s.model id s.out h
  Step-Owns {s} (choose_tool id) h =
      Owns-same servers daemon s.model _ s.out refl refl refl refl refl h
  Step-Owns {s} (answer i n server e) h =
      on_loaded-Owns servers daemon s.model n server s.out (All-get_elem? _ s.out i h.current e) h
  Step-Owns {s} (no_answer i n server e) h = on_loaded-none servers daemon s.model n server s.out h
  Step-Owns {s} (tell_history n pairs) h = on_histories-Owns s.model n pairs s.out h
  Step-Owns {s} (drop recent) h = forget-Owns s.model recent s.out h
  Step-Owns {s} (dropped id recent previous reason) h =
      on_removed-Owns s.model id recent previous reason s.out h
  Step-Owns {s} (go dir_id subdir) h = launch-Owns s.model dir_id subdir s.out h
  Step-Owns {s} (gone server id dir_id subdir reason sessions) h =
      on_created-Owns s.model server id dir_id subdir reason sessions s.out h

  mount-Owns : (id : Option Str) → After servers daemon [] (mount servers id)
  unfolding mount
  mount-Owns id = record {
    current =
        let l = (mount servers id).0 in
        All-append _ (loads servers l) [] (loads-Current servers daemon l) tt;
    offer = nothing_yet refl refl;
  }

  Reach-Owns : {s : System} → Reach servers daemon s → Owns servers daemon s.model s.out
  Reach-Owns (begin id) = mount-Owns id
  Reach-Owns (later r st) = Step-Owns st (Reach-Owns r)

  -- Whatever servers are selected, and however late or often answers come: the launcher offers no
  -- tools and no directories, or it is not loading and offers exactly those of the selected server's
  -- daemon; if each daemon has the same all along.
  pub Reach-Offer : (s : System) → Reach servers daemon s → Offer servers daemon s.model
  Reach-Offer s r = (Reach-Owns r).offer
