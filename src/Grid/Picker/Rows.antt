-- ===== src/Grid/Picker/Rows.antt =====
-- The rows of the directory picker, and its crumbs: grid/DirPicker.tsx.
--
-- A place is a configured directory's id and a subdir below it. `localeCompare` and `toLowerCase` are
-- parameters.
use Prim.Native.Nat.{Ordering}
use multimux.Base.{
  ℕ, Bool, true, false, not, ◌&&◌, ◌||◌, Option, none, some, List, [], ◌∷◌, ◌++◌, map,
  if◌then◌else◌, ◌==◌, take, filter, any, find?, Str, codes, starts_with,
}
use multimux.Base.Sort.{sort_by}
use multimux.Grid.Types.{Dir}
use multimux.Grid.DirFilter.{last_part, split_under_dir, is_gt}
use multimux.Grid.Mobile.{contains}
use multimux.Grid.Launcher.{Recent, join_path, is_none}

-- `LaunchTarget`
abbrev pub Place : Type 0
Place = ℕ × Str

pub data RowKind : Type 0 where
  current recent place child : RowKind

pub record Row : Type 0 where
  pub kind : RowKind
  pub label : Str
  pub hint : Str
  pub dir_id : ℕ
  pub subdir : Str
  pub recent : Option Recent

unfoldable pub join_subdir : Str → Str → Str
join_subdir [] name = name
join_subdir (c ∷ subdir) name = c ∷ subdir ++ (codes "/" ++ name)

abbrev pub has_slash : Str → Bool
has_slash = any (λ c. c == b'/')

-- `s.slice(0, s.lastIndexOf("/"))`, and nothing where there is no slash
unfoldable pub drop_last : Str → Str
drop_last [] = []
drop_last (c ∷ s) = if has_slash s then c ∷ drop_last s else []

abbrev pub path_of : Option Dir → Str
path_of none = []
path_of (some d) = d.path

unfoldable pub full_path : List Dir → Place → Str
full_path dirs at = join_path (path_of (find? (λ d. d.id == at.0) dirs)) at.1

abbrev pub child_row : Place → Str → Row
child_row at name = record {
  kind = child;
  label = name;
  hint = [];
  dir_id = at.0;
  subdir = join_subdir at.1 name;
  recent = none;
}

abbrev place_row : Dir → Row
place_row d = record {
  kind = place;
  label = d.name;
  hint = d.path;
  dir_id = d.id;
  subdir = [];
  recent = none;
}

abbrev recent_row : Recent → Row
recent_row r = record {
  kind = RowKind.recent;
  label = r.path;
  hint = [];
  dir_id = r.dir_id;
  subdir = r.subdir;
  recent = some r;
}

abbrev current_row : List Dir → Place → Row
current_row dirs target = record {
  kind = current;
  label = full_path dirs target;
  hint = [];
  dir_id = target.0;
  subdir = target.1;
  recent = none;
}

-- The loop over `currentDirs`, with the paths seen so far
unfoldable pub current_rows : List Dir → List Str → List Str → List Row
current_rows dirs seen [] = []
current_rows dirs seen (p ∷ ps) =
    let rest = λ (seen : List Str). current_rows dirs seen ps in
    elim (split_under_dir dirs p) [
      | none ↦ rest seen
      | some target ↦
          let path = full_path dirs target in
          if contains seen path then rest seen else current_row dirs target ∷ rest (path ∷ seen)
    ]

pub record Group : Type 0 where
  pub title : Str
  pub rows : List Row

abbrev titled : Str → List Row → List Group
titled title [] = []
titled title (r ∷ rows) = record { title = title; rows = r ∷ rows } ∷ []

-- `toLowerCase`, `localeCompare`, and the props
module _ (lower : Str → Str) (locale : Str → Str → Ordering) (dirs : List Dir)
    (recents : List Recent) (current_dirs : List Str) where
  unfoldable pub groups : Option Place → List Str → List Group
  groups (some at) children = record { title = []; rows = map (child_row at) children } ∷ []
  groups none children =
      let rows =
        sort_by (λ a b. is_gt (locale a.label b.label) false) (current_rows dirs [] current_dirs) in
      let paths = map (λ (r : Row). r.label) rows in
      let rest = take 8 (
        filter (λ (r : Recent). not (contains paths (full_path dirs (r.dir_id, r.subdir))))
          recents) in
      titled (codes "Current") rows
      ++ titled (codes "Recent") (map recent_row rest)
      ++ record { title = codes "Places"; rows = map place_row dirs } ∷ []

-- `hay.includes(needle)`
unfoldable pub includes : Str → Str → Bool
includes needle [] = starts_with needle []
includes needle (c ∷ hay) = starts_with needle (c ∷ hay) || includes needle hay

abbrev is_current : RowKind → Bool
is_current current = true
is_current _ = false

-- The test of a row, with the trimmed filter in lower case
unfoldable pub matches : (Str → Str) → Str → Row → Bool
matches lower needle row =
    (is_current row.kind
      || starts_with (codes ".") needle
      || not (starts_with (codes ".") (last_part [] row.label)))
    && (is_none needle || includes needle (lower row.label) || includes needle (lower row.hint))

unfoldable pub visible : (Str → Str) → Str → List Group → List Group
visible lower needle [] = []
visible lower needle (g ∷ gs) =
    titled g.title (filter (matches lower needle) g.rows) ++ visible lower needle gs

abbrev pub flat : List Group → List Row
flat [] = []
flat (g ∷ gs) = g.rows ++ flat gs

abbrev some_segment : Str → List Str
some_segment [] = []
some_segment (c ∷ cur) = (c ∷ cur) ∷ []

-- The segments of a subdir, with what has been read of one
unfoldable pub segments : Str → Str → List Str
segments cur [] = some_segment cur
segments cur (c ∷ s) =
    let ended = segments [] s in
    let longer = segments (cur ++ c ∷ []) s in
    if c == b'/' then some_segment cur ++ ended else longer

unfoldable pub crumbs_below : ℕ → Str → List Str → List (Str × Place)
crumbs_below id above [] = []
crumbs_below id above (name ∷ names) =
    let below = join_subdir above name in (name, (id, below)) ∷ crumbs_below id below names

abbrev name_of : Option Dir → Str
name_of none = codes "dir"
name_of (some d) = d.name

-- The crumbs, each with the place that it leads to
unfoldable pub crumbs : List Dir → Option Place → List (Str × Place)
crumbs dirs none = []
crumbs dirs (some at) =
    (name_of (find? (λ d. d.id == at.0) dirs), (at.0, [])) ∷ crumbs_below at.0 [] (segments [] at.1)
