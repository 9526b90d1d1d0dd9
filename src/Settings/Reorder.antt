-- ===== src/Settings/Reorder.antt =====
-- Reordering a settings list by drag and by keyboard: settings/useReorder.ts.
--
-- The hook's React state is a record, and its handlers and the ends of its request are events. The
-- rows are of any type with a number as id; an index is a whole number, which the code tests. Since
-- `move` asks whether `moved` gave the same array back, `moved` gives `none` for that.
pub mod Moves
pub mod Shown
mod Tests
use multimux.Base.{
  ℕ, zero, suc, ◌+◌, Bool, true, false, not, ◌&&◌, ◌||◌, Option, none, some, List, [], ◌∷◌, map,
  if◌then◌else◌, ◌==◌, leb, length, get_elem?, erase_idx, all, any, Str,
}
use multimux.Base.Int.{ℤ, pos, negsuc, ◌-ℤ◌}

-- `splice(i, 0, v)`
abbrev pub insert_at : {T : Type 0} → List T → ℕ → T → List T
insert_at xs zero v = v ∷ xs
insert_at [] (suc i) v = v ∷ []
insert_at (x ∷ xs) (suc i) v = x ∷ insert_at xs i v

-- The row at `from` is taken out and put in at `to`.
unfoldable pub relocated : {T : Type 0} → List T → ℕ → ℕ → Option (List T)
relocated items from to = elim (get_elem? items from) [
  | none ↦ none
  | some row ↦ some (insert_at (erase_idx items from) to row)
]

unfoldable pub moved : {T : Type 0} → List T → ℤ → ℤ → Option (List T)
moved items (negsuc from) to = none
moved items (pos from) (negsuc to) = none
moved items (pos from) (pos to) =
    if from == to || (leb (length items) from || leb (length items) to)
    then none
    else relocated items from to

pub record Reorder (T : Type 0) : Type 0 where
  -- the server's list
  pub items : List T
  pub pending : Option (List T)
  pub drag_index : Option ℕ
  pub over_index : Option ℕ
  pub error : Option Str

pub data Effect : Type 0 where
  -- `putJSON` of the ids in their new order
  put : List ℕ → Effect
  reload : Effect

pub data Event : Type 0 where
  drag_start drag_over drag_leave : ℕ → Event
  -- the row, and the whole number that the dropped text reads as
  drop : ℕ → Option ℤ → Event
  drag_end : Event
  key_up key_down : ℕ → Event
  -- how the request ended
  saved : Event
  failed : Str → Event

abbrev pub is_over : Option ℕ → ℕ → Bool
is_over none i = false
is_over (some o) i = o == i

-- `dragIndex ?? …`
abbrev pub drag_from : Option ℕ → Option ℤ → Option ℤ
drag_from (some i) raw = some (pos i)
drag_from none raw = raw

module _ {T : Type 0} (id : T → ℕ) where
  -- The ids match.
  unfoldable pub same : List T → List T → Bool
  same pending items =
      length pending == length items && all (λ p. any (λ i. id i == id p) items) pending

  -- The rows on screen.
  unfoldable pub ordered : Option (List T) → List T → List T
  ordered none items = items
  ordered (some pending) items = if same pending items then pending else items

  -- `save`, up to its request
  unfoldable pub save : Reorder T → List T → Reorder T × List Effect
  save s next = (record s { pending = some next; error = none }, put (map id next) ∷ [])

  unfoldable pub move : Reorder T → ℤ → ℤ → Reorder T × List Effect
  move s from to = elim (moved (ordered s.pending s.items) from to) [
    | none ↦ (s, [])
    | some next ↦ save s next
  ]

  unfoldable pub on_drop : Reorder T → ℕ → Option ℤ → Reorder T × List Effect
  on_drop s index raw =
      let let_go = record s { drag_index = none; over_index = none } in
      elim (drag_from s.drag_index raw) [
        | none ↦ (let_go, [])
        | some from ↦ move let_go from (pos index)
      ]

  unfoldable pub handle : Reorder T → Event → Reorder T × List Effect
  handle s (drag_start i) = (record s { drag_index = some i }, [])
  handle s (drag_over i) = (record s { over_index = some i }, [])
  handle s (drag_leave i) =
      (record s { over_index = if is_over s.over_index i then none else s.over_index }, [])
  handle s (drop i raw) = on_drop s i raw
  handle s drag_end = (record s { drag_index = none; over_index = none }, [])
  handle s (key_up i) = move s (pos i) (pos i -ℤ pos 1)
  handle s (key_down i) = move s (pos i) (pos (i + 1))
  handle s saved = (s, reload ∷ [])
  handle s (failed text) = (record s { pending = none; error = some text }, reload ∷ [])
