-- ===== src/Grid/Picker/State.antt =====
-- The state and the keys of the directory picker: grid/DirPicker.tsx.
--
-- No place is the landing view. The answers of the daemon come as events; the effect that asks for the
-- children of a place runs again when the place changes, and its runs are numbered.
use multimux.Base.{
  ℕ, suc, ◌-◌, Bool, true, false, not, ◌&&◌, Option, none, some, List, [], ◌∷◌, if◌then◌else◌, ◌==◌,
  length, get_elem?, is_some, Str, str_eq,
}
use multimux.Grid.DirFilter.{Step, forward, back, moved}
use multimux.Grid.Picker.Rows.{Place, Row, drop_last}

pub record Picker : Type 0 where
  -- `at`
  pub place : Option Place
  pub children : List Str
  pub children_of : Option Place
  pub needle : Str
  -- none for -1
  pub highlight : Option ℕ
  -- the runs of the effect so far
  pub run : ℕ

-- What the picker does
pub data Act : Type 0 where
  ask_children : ℕ → Place → Act
  launch_in : Place → Act
  close : Act

-- `here`, compared; `${dirId}:${subdir}` tells the two parts
unfoldable pub same_place : Option Place → Option Place → Bool
same_place none none = true
same_place none (some q) = false
same_place (some p) none = false
same_place (some p) (some q) = p.0 == q.0 && str_eq p.1 q.1

abbrev asks : ℕ → Option Place → List Act
asks run none = []
asks run (some p) = ask_children run p ∷ []

-- The first run of the effect
unfoldable pub open_picker : Option Place → Picker × List Act
open_picker start = (
  record {
    place = start;
    children = [];
    children_of = none;
    needle = [];
    highlight = none;
    run = 0;
  },
  asks 0 start,
)

-- With the effect, which depends on the place
unfoldable pub navigate : Picker → Option Place → Picker × List Act
navigate p next =
    let there : Picker = record p {
      place = next;
      children = [];
      children_of = none;
      needle = [];
      highlight = none;
    } in
    if same_place p.place next
    then (there, [])
    else (record there { run = suc p.run }, asks (suc p.run) next)

-- The answer to run `n`, which asked for `at`; none if it failed
unfoldable pub on_children : Picker → ℕ → Place → Option (List Str) → Picker
on_children p n at none =
    if n == p.run then record p { children = []; children_of = some at } else p
on_children p n at (some names) =
    if n == p.run then record p { children = names; children_of = some at } else p

unfoldable pub loading_children : Picker → Bool
loading_children p = is_some p.place && not (same_place p.children_of p.place)

unfoldable pub set_filter : Picker → Str → Picker
set_filter p text = record p { needle = text; highlight = none }

-- The row that is highlighted, at the index `spot`
unfoldable pub spot : Picker → List Row → Option Row
spot p rows = elim p.highlight [ none ↦ none | some i ↦ get_elem? rows i ]

abbrev stepped : Option ℕ → Step → ℕ → ℕ
stepped none forward n = 0
stepped none back n = n - 1
stepped (some i) step n = moved i step n

unfoldable pub move : Picker → List Row → Step → Picker
move p [] step = p
move p (r ∷ rows) step = record p {
  highlight = some (stepped p.highlight step (length (r ∷ rows)));
}

abbrev pub place_of : Row → Place
place_of row = (row.dir_id, row.subdir)

-- The place of the back button, which is not there on the landing view
abbrev pub parent : Place → Option Place
parent (id, []) = none
parent (id, c ∷ subdir) = some (id, drop_last (c ∷ subdir))

pub data Key : Type 0 where
  escape arrow_down arrow_up arrow_right arrow_left enter other : Key

-- `keyDown`, with the rows on screen
unfoldable pub key_down : Picker → List Row → Key → Picker × List Act
key_down p rows escape = (p, close ∷ [])
key_down p rows arrow_down = (move p rows forward, [])
key_down p rows arrow_up = (move p rows back, [])
key_down p rows arrow_right = elim (spot p rows) [
  | none ↦ (p, [])
  | some row ↦ navigate p (some (place_of row))
]
key_down p rows arrow_left = elim p.place [ none ↦ (p, []) | some at ↦ navigate p (parent at) ]
key_down p rows enter = elim (spot p rows) [
  | none ↦ (p, elim p.place [ none ↦ [] | some at ↦ launch_in at ∷ [] ])
  | some row ↦ (p, launch_in (place_of row) ∷ [])
]
key_down p rows other = (p, [])
