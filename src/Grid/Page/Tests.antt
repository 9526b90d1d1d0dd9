-- ===== src/Grid/Page/Tests.antt =====
-- The grid page at work: an edit on its way, a burst of refreshes, attaching, and places on screen.
use Prim.Native.Nat.{Ordering}
use multimux.Base.{
  map, starts_with, ℕ, ◌≡◌, refl, inl, ◌⊎◌, true, false, ◌||◌, none, some, List, [], ◌∷◌, get_elem?,
  Any, Str, codes, str_eq,
}
use multimux.Grid.Model.{Tile, Layout, occupied, normalize, remove_tile}
use multimux.Grid.Model.Packing.{IsCanonical, normalize-IsCanonical}
use multimux.Grid.Types.{Session, Server, running}
use multimux.Grid.View.{View, tile_key, visible_from, filter_layout, apply_overlay}
use multimux.Grid.Mobile.{contains}
use multimux.Base.Decimal.{decimal}
use multimux.Grid.DirFilter.{effective_dirs, dir_buttons}
use multimux.Grid.Samples.{parts, tile_b, three, local, by_server, sessions, session_at}
use multimux.Grid.Page.LayoutSync.{
  LayoutSync, Fetch, adopt_layout, flush_layout, persist, writing, refresh_layout, loaded,
}
use multimux.Grid.Page.LayoutSync.System.{
  System, answered, edit, store, ask, serve, Reach, start, later, edited, stored, asked, served,
}
use multimux.Grid.Page.LayoutSync.Agreement.{answered-last}
use multimux.Grid.Page.LayoutSync.Drain.{Drains, Drains-last}
use multimux.Grid.Page.SessionSync.{SessionSync, on_sessions}
use multimux.Grid.Page.SessionSync.FollowUp.{refresh_all, any_of, follow_up_for, burst-settles}
use multimux.Grid.Page.Screen.{
  Desk, session_for, placed, is_shown, real_index, screen, attach_session,
}
use multimux.Grid.Page.Header.{
  VisibleDir, add_visible, add_sessions, add_servers, visible_dirs, target_server, edit_overlay,
  on_server_event,
}
use multimux.Grid.Page.Screen.Attach.{attach_session-is_shown}
use multimux.Grid.Page.Screen.Places.{real_index-places}

abbrev fresh_page : LayoutSync ℕ
fresh_page = record {
  layout = three;
  maximized = none;
  pending_write = none;
  write_in_flight = false;
  edit_serial = 0;
  settled = false;
}

abbrev opened_page : System ℕ
opened_page = record { page = fresh_page; daemon = three; write = none; reads = []; last = none }

-- A tile goes away, the daemon stores that, and then answers a question that was asked before.
abbrev without_first : Layout ℕ → Layout ℕ
without_first l = remove_tile parts l 0

abbrev asked_first : System ℕ
asked_first = asked parts opened_page true

abbrev then_edited : System ℕ
then_edited = edited parts asked_first without_first

abbrev then_stored : System ℕ
then_stored = stored parts then_edited (without_first three)

abbrev question : Fetch
question = record { writing_at_issue = false; edit_serial = 0; settle = true }

abbrev then_served : System ℕ
then_served = served parts then_stored 0 question

edited-Reach : Reach parts then_edited
unfolding refresh_layout
edited-Reach =
    later
      (later
        (start (record {
          no_pending = refl;
          no_flight = refl;
          no_write = refl;
          no_reads = refl;
          no_edit = refl;
        }))
        (ask true))
      (edit without_first)

served-Reach : Reach parts then_served
unfolding persist flush_layout refresh_layout adopt_layout
served-Reach = later (later edited-Reach (store (without_first three) refl)) (serve 0 question refl)

answered-last_example :
    ((answered parts then_served 0 question (without_first three)).page.layout
      ≡ then_served.page.layout)
    ⊎ ((answered parts then_served 0 question (without_first three)).page.layout
        ≡ loaded parts (without_first three))
answered-last_example =
    answered-last parts then_served 0 question (without_first three) (without_first three)
      served-Reach refl refl

Drains-last_example :
    (t : System ℕ) × Drains parts then_served t
    × (writing t.page ≡ false)
    × (t.page.layout ≡ then_served.page.layout)
    × (t.daemon ≡ without_first three)
Drains-last_example = Drains-last parts then_served (without_first three) served-Reach refl

abbrev new_server : SessionSync
new_server = record {
  sessions = none;
  loaded = false;
  settled = false;
  in_flight = none;
  settles = false;
}

abbrev burst : SessionSync × List Server
burst = refresh_all new_server local (true ∷ false ∷ false ∷ [])

burst-settles_example :
    (burst.1 ≡ local ∷ [])
    × ((on_sessions burst.0 none (some local)).1 ≡ follow_up_for (true ∷ false ∷ false ∷ []) local)
    × ((on_sessions
          (on_sessions burst.0 none (some local)).0
          (some sessions)
          (some local)).0.in_flight
        ≡ none)
    × ((on_sessions
          (on_sessions burst.0 none (some local)).0
          (some sessions)
          (some local)).0.settled
        ≡ (false || any_of (true ∷ false ∷ false ∷ [])))
burst-settles_example =
    burst-settles new_server local local true (false ∷ false ∷ []) none (some sessions) refl

abbrev more_sessions : Str → List Session
more_sessions _ = session_at 20 (codes "/r/doc") (codes "running") ∷ sessions

abbrev in_order : Str → Str → Ordering
in_order _ _ = Ordering.lt

-- Only /r/mux is on screen.
abbrev desk : Desk ℕ
desk = record {
  layout = three;
  selected = some (codes "/r/mux" ∷ []);
  focus_key = none;
  active_key = none;
}

abbrev new_tile : Tile
new_tile = record { server_id = codes "local"; session_id = 20 }

attach_session-is_shown_example :
    Any
      (λ u. u ≡ new_tile)
      (occupied
        (filter_layout parts (attach_session parts more_sessions desk new_tile).layout (
          is_shown
            (effective_dirs
              (attach_session parts more_sessions desk new_tile).selected
              (dir_buttons in_order (local ∷ []) more_sessions))
            more_sessions)).view.tiles)
unfolding session_for placed contains normalize tile_key str_eq decimal running
attach_session-is_shown_example =
    attach_session-is_shown parts in_order (local ∷ []) more_sessions desk new_tile
      (session_at 20 (codes "/r/doc") (codes "running")) (inl refl) refl refl refl

three_packed : IsCanonical three
three_packed = normalize-IsCanonical parts _ _ _ _

abbrev web_only : View ℕ
web_only = filter_layout parts three (is_shown (some (codes "/r/web" ∷ [])) by_server)

real_index-places_example :
    (j : ℕ) × (real_index (some (codes "/r/web" ∷ [])) web_only 0 ≡ some j)
    × (get_elem? three.tiles j ≡ some (some tile_b))
unfolding screen apply_overlay filter_layout is_shown session_for visible_from contains normalize
    str_eq
real_index-places_example =
    real_index-places parts three (some (codes "/r/web" ∷ [])) by_server none web_only 0 tile_b
      three_packed (λ e. refl) refl refl

-- A hidden session's directory is offered once, and a dead session's is not.
offered :
    map
      (λ (v : VisibleDir). v.dir)
      (visible_dirs
        (some (codes "/r/web" ∷ codes "/r/mux" ∷ []))
        by_server
        (local ∷ local ∷ [])
        three)
    ≡ codes "/r/mux" ∷ codes "/r/web" ∷ []
unfolding visible_dirs add_servers add_sessions add_visible running contains str_eq
offered = refl

aimed_at : target_server three (some (codes "box:3")) ≡ some (codes "box")
unfolding target_server normalize tile_key decimal str_eq
aimed_at = refl

kept_in_memory : (edit_overlay none none three (λ o. o) true).1 ≡ []
unfolding edit_overlay
kept_in_memory = refl

says_hello : on_server_event (codes "hello") ≡ (true, true)
unfolding on_server_event starts_with str_eq
says_hello = refl
