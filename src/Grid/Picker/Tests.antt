-- ===== src/Grid/Picker/Tests.antt =====
-- The picker at work: the landing view, going down and back, and a crumb that leads nowhere new.
use Prim.Native.Nat.{Ordering}
use multimux.Base.{
  ◌≡◌, refl, true, false, none, some, List, [], ◌∷◌, map, arith, Str, codes, str_eq, starts_with,
}
use multimux.Base.Sort.{sort_by}
use multimux.Grid.Samples.{roots}
use multimux.Grid.DirFilter.{trim_slashes, split_under_dir, closer, subdir_of, last_part}
use multimux.Grid.Mobile.{contains}
use multimux.Grid.Launcher.{Recent, join_path}
use multimux.Grid.Picker.Rows.{
  Row, Group, join_subdir, full_path, child_row, current_rows, groups, includes, matches, visible,
  segments, crumbs_below, crumbs,
}
use multimux.Grid.Picker.State.{
  Picker, ask_children, launch_in, open_picker, navigate, same_place, on_children, loading_children,
  spot, move, key_down, arrow_right, arrow_left, arrow_up, enter,
}
use multimux.Grid.Picker.Paths.{full_path-split_under_dir, arrow_left-returns}

abbrev by_code : Str → Str → Ordering
by_code a b = Ordering.lt

abbrev as_typed : Str → Str
as_typed s = s

abbrev labels : List Group → List (List Str)
labels gs = map (λ (g : Group). map (λ (r : Row). r.label) g.rows) gs

abbrev recent_web : Recent
recent_web = record { dir_id = 1; subdir = codes "web"; path = codes "/r/web" }

-- A directory in use is not among the recent ones, and comes once.
landing :
    labels (
      groups as_typed by_code roots
        (recent_web ∷ [])
        (codes "/r/web" ∷ codes "/x" ∷ codes "/r/web/" ∷ [])
        none
        [])
    ≡ (codes "/r/web" ∷ []) ∷ (codes "r" ∷ codes "mux" ∷ []) ∷ []
unfolding groups current_rows split_under_dir closer subdir_of str_eq trim_slashes starts_with
    full_path join_path contains sort_by
landing = refl

-- Hidden directories come when the filter reaches for one.
hidden :
    (labels (
        visible as_typed []
          (groups as_typed by_code roots [] [] (some (1, [])) (codes ".git" ∷ codes "web" ∷ [])))
      ≡ (codes "web" ∷ []) ∷ [])
    × (labels (
          visible as_typed
            (codes ".")
            (groups as_typed by_code roots [] [] (some (1, [])) (codes ".git" ∷ codes "web" ∷ [])))
        ≡ (codes ".git" ∷ []) ∷ [])
unfolding groups visible matches includes last_part starts_with
hidden = (refl, refl)

way_up :
    crumbs roots (some (1, codes "a/b"))
    ≡ (codes "r", (1, [])) ∷ (codes "a", (1, codes "a")) ∷ (codes "b", (1, codes "a/b")) ∷ []
unfolding crumbs crumbs_below segments join_subdir
way_up = refl

abbrev at_root : Picker
at_root = (open_picker (some (1, []))).0

abbrev told : Picker
told = on_children at_root 0 (1, []) (some (codes "web" ∷ codes "mux" ∷ []))

abbrev below : List Row
below = child_row (1, []) (codes "web") ∷ child_row (1, []) (codes "mux") ∷ []

abbrev highlighted : Picker
highlighted = (key_down told below arrow_up).0

launches : (key_down highlighted below enter).1 ≡ launch_in (1, codes "mux") ∷ []
unfolding open_picker on_children key_down move spot join_subdir
launches = refl

goes_down : (key_down highlighted below arrow_right).1 ≡ ask_children 1 (1, codes "mux") ∷ []
unfolding open_picker on_children key_down move spot join_subdir navigate same_place str_eq
goes_down = refl

-- The crumb of the place itself: the children are gone, none are asked for, and they count as loading.
same_crumb :
    ((navigate told (some (1, []))).1 ≡ [])
    × (loading_children told ≡ false)
    × (loading_children (navigate told (some (1, []))).0 ≡ true)
unfolding open_picker on_children navigate same_place loading_children str_eq
same_crumb = (refl, refl, refl)

full_path-split_under_dir_example :
    full_path roots (2, codes "web") ≡ trim_slashes (codes "/r/mux/web/")
unfolding split_under_dir closer subdir_of str_eq trim_slashes starts_with
full_path-split_under_dir_example =
    full_path-split_under_dir roots (codes "/r/mux/web/") (2, codes "web")
      (((λ e. absurd (omega (arith, e))), tt), (tt, tt)) refl

arrow_left-returns_example :
    (key_down (key_down highlighted below arrow_right).0 [] arrow_left).0.place ≡ some (1, [])
unfolding open_picker on_children key_down move spot
arrow_left-returns_example =
    arrow_left-returns highlighted below [] (1, []) (codes "mux") refl refl refl
