-- ===== src/Grid/DirFilter.antt =====
-- The directory filter: grid/dirFilter.ts, less `filterLayout` (Grid/View).
pub mod Stored
pub mod Buttons
pub mod Under
pub mod Ring
use Prim.Native.Nat.{Ordering}
use mathlib.Core.List.{foldl}
use mathlib.Core.Option
use multimux.Base.{
  ℕ, zero, suc, ◌+◌, ◌-◌, ◌%◌, Bool, true, false, not, ◌&&◌, ◌||◌, Option, none, some, List, [],
  ◌∷◌, ◌++◌, map, if◌then◌else◌, ◌==◌, ltb, length, get_elem?, drop, filter, any, find_idx?, Str,
  str_eq, starts_with, codes,
}
use multimux.Base.Sort.{sort_by}
use multimux.Base.Json.{Json, Items, Item}
use multimux.Grid.Types.{Session, Dir, Server, running}

-- `every((s) => typeof s === "string")`, with the strings
unfoldable pub strings_of : {N : Type 0} → Items N → Option (List Str)
strings_of Items.nil = some []
strings_of (Items.cons (Json.str s) rest) = Option.map (s ∷◌) (strings_of rest)
strings_of (Items.cons _ rest) = none

abbrev pub non_empty : Option (List Str) → Option (List Str)
non_empty none = none
non_empty (some []) = none
non_empty (some (s ∷ ss)) = some (s ∷ ss)

-- What an item holds selects: a text alone is the form that one directory was stored in.
unfoldable pub selected_dirs : {N : Type 0} → Item N → Option (List Str)
unfolding strings_of
selected_dirs (Item.doc (Json.str s)) = some (s ∷ [])
selected_dirs (Item.doc (Json.arr items)) = non_empty (strings_of items)
selected_dirs _ = none

unfoldable pub items_of : {N : Type 0} → List Str → Items N
items_of [] = Items.nil
items_of (s ∷ ss) = Items.cons (Json.str s) (items_of ss)

-- The value that `setSelectedDirs` stores.
unfoldable pub set_selected_dirs : {N : Type 0} → Option (List Str) → Json N
unfolding items_of
set_selected_dirs none = Json.null
set_selected_dirs (some []) = Json.null
set_selected_dirs (some (s ∷ [])) = Json.str s
set_selected_dirs (some (s ∷ r ∷ rest)) = Json.arr (items_of (s ∷ r ∷ rest))

abbrev only : Option (List Str) → Option Str
only (some (s ∷ [])) = some s
only _ = none

unfoldable pub solo_dir : {N : Type 0} → Item N → Option Str
unfolding selected_dirs
solo_dir item = only (selected_dirs item)

-- An empty path is falsy.
unfoldable pub set_solo_dir : {N : Type 0} → Option Str → Json N
unfolding set_selected_dirs
set_solo_dir none = set_selected_dirs none
set_solo_dir (some []) = set_selected_dirs none
set_solo_dir (some (c ∷ s)) = set_selected_dirs (some ((c ∷ s) ∷ []))

-- `path.replace(/\/+$/, "")`
unfoldable pub trim_slashes : Str → Str
trim_slashes [] = []
trim_slashes (c ∷ s) = elim (trim_slashes s) [
  | [] ↦ if c == b'/' then [] else c ∷ []
  | d ∷ r ↦ c ∷ d ∷ r
]

-- The last of `s.split("/")`, with what has been read of it.
unfoldable pub last_part : Str → Str → Str
last_part cur [] = cur
last_part cur (c ∷ s) = last_part (if c == b'/' then [] else cur ++ c ∷ []) s

unfoldable pub leaf_name : Str → Str
unfolding trim_slashes last_part
leaf_name path = elim (last_part [] (trim_slashes path)) [ [] ↦ path | c ∷ s ↦ c ∷ s ]

pub record DirButton : Type 0 where
  pub path : Str
  pub name : Str
  pub count : ℕ

-- `Record<string, Session[]>` as `sessionsByServer[id] ?? []` reads it
abbrev pub SessionsByServer : Type 0
SessionsByServer = Str → List Session

-- `counts.set(dir, (counts.get(dir) ?? 0) + 1)`, in the order of a Map
unfoldable pub bump : List (Str × ℕ) → Str → List (Str × ℕ)
bump [] dir = (dir, 1) ∷ []
bump ((d, n) ∷ counts) dir = if str_eq d dir then (d, n + 1) ∷ counts else (d, n) ∷ bump counts dir

unfoldable pub count_sessions : List (Str × ℕ) → List Session → List (Str × ℕ)
count_sessions counts [] = counts
count_sessions counts (s ∷ sessions) =
    count_sessions (if running s then bump counts s.dir else counts) sessions

unfoldable pub count_servers : SessionsByServer → List (Str × ℕ) → List Server → List (Str × ℕ)
count_servers by_server counts [] = counts
count_servers by_server counts (server ∷ servers) =
    count_servers by_server (count_sessions counts (by_server server.id)) servers

unfoldable pub button_of : Str × ℕ → DirButton
button_of p = record { path = p.0; name = leaf_name p.0; count = p.1 }

abbrev pub is_gt : Ordering → Bool → Bool
is_gt Ordering.gt tie = true
is_gt Ordering.lt tie = false
is_gt Ordering.eq tie = tie

-- `localeCompare` is the browser's.
unfoldable pub button_after : (Str → Str → Ordering) → DirButton → DirButton → Bool
button_after locale a b = is_gt (locale a.name b.name) (is_gt (locale a.path b.path) false)

unfoldable pub dir_buttons :
    (Str → Str → Ordering) → List Server → SessionsByServer → List DirButton
dir_buttons locale servers by_server =
    sort_by (button_after locale) (map button_of (count_servers by_server [] servers))

-- The subdir of `target` below `base`, where `base` contains it.
unfoldable pub subdir_of : Str → Str → Option Str
subdir_of target base =
    if str_eq target base
    then some []
    else if starts_with (base ++ codes "/") target
    then some (drop (suc (length base)) target)
    else none

abbrev pub shorter : Str → Option (ℕ × Str) → Bool
shorter subdir none = true
shorter subdir (some best) = ltb (length subdir) (length best.1)

-- One round of the loop of `splitUnderDir`.
unfoldable pub closer : Str → Option (ℕ × Str) → Dir → Option (ℕ × Str)
closer target best d = elim (subdir_of target (trim_slashes d.path)) [
  | none ↦ best
  | some subdir ↦ if shorter subdir best then some (d.id, subdir) else best
]

unfoldable pub split_under_dir : List Dir → Str → Option (ℕ × Str)
split_under_dir dirs path = foldl (closer (trim_slashes path)) none dirs

-- `dirs.some((d) => d.path === path)`, and `available.has(path)`
unfoldable pub has_button : List DirButton → Str → Bool
has_button dirs path = any (λ d. str_eq d.path path) dirs

unfoldable pub effective_solo : Option Str → List DirButton → Option Str
unfolding has_button
effective_solo none dirs = none
effective_solo (some path) dirs = if has_button dirs path then some path else none

unfoldable pub effective_dirs : Option (List Str) → List DirButton → Option (List Str)
unfolding has_button
effective_dirs none dirs = none
effective_dirs (some selected) dirs = non_empty (some (filter (has_button dirs) selected))

-- `1 | -1`
pub data Step : Type 0 where
  forward back : Step

-- `a === b`
unfoldable pub same_solo : Option Str → Option Str → Bool
same_solo none none = true
same_solo none (some _) = false
same_solo (some _) none = false
same_solo (some a) (some b) = str_eq a b

abbrev pub ring_of : List DirButton → List (Option Str)
ring_of dirs = none ∷ map (λ d. some d.path) dirs

-- `(at + step + n) % n`
abbrev pub moved : ℕ → Step → ℕ → ℕ
moved at forward n = (at + 1 + n) % n
moved at back n = (at + n - 1) % n

-- `Math.max(ring.indexOf(solo), 0)`
unfoldable pub slot_of_solo : List (Option Str) → Option Str → ℕ
unfolding same_solo
slot_of_solo ring solo = Option.get_or (find_idx? (λ s. same_solo s solo) ring) 0

abbrev at_slot : Option (Option Str) → Option Str
at_slot none = none
at_slot (some s) = s

-- The index is in range.
unfoldable pub cycle_solo : Option Str → List DirButton → Step → Option Str
unfolding slot_of_solo
cycle_solo solo [] step = none
cycle_solo solo (d ∷ dirs) step =
    let ring = ring_of (d ∷ dirs) in
    at_slot (get_elem? ring (moved (slot_of_solo ring solo) step (length ring)))
