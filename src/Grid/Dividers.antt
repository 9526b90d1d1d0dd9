-- ===== src/Grid/Dividers.antt =====
-- Dragging the splitters of the grid: grid/GridDividers.tsx.
--
-- The drag is the component's state, the handlers are given the layout on screen, and what they call
-- is a list of effects. A divider's position on screen is not modelled.
pub mod Holds
mod Tests
use multimux.Base.{
  ℕ, Bool, true, false, not, ◌&&◌, ◌||◌, Option, none, some, List, [], ◌∷◌, ◌++◌, if◌then◌else◌,
  ◌==◌, get_elem?,
}
use multimux.Grid.Numbers.{Numbers}
use multimux.Grid.Sizes.{equal_sizes, resize_tracks}
use multimux.Grid.Model.{Layout, set_row_sizes, set_col_sizes}

pub data Axis : Type 0 where
  row_axis col_axis : Axis

pub record Drag (N : Type 0) : Type 0 where
  pub axis : Axis
  pub row : ℕ
  pub boundary : ℕ
  pub extent : N
  pub origin : N
  pub start : List N
  pub moved : Bool

-- What of a pointer event the handlers read
pub record Pointer (N : Type 0) : Type 0 where
  pub button : ℕ
  pub is_mouse : Bool
  pub client_x : N
  pub client_y : N

-- The container's box
pub record Box (N : Type 0) : Type 0 where
  pub width : N
  pub height : N

pub data Effect (N : Type 0) : Type 0 where
  preview commit : Layout N → Effect N
  begin_hold end_hold : Effect N

abbrev on_axis : {N : Type 0} → Axis → N → N → N
on_axis row_axis down across = down
on_axis col_axis down across = across

abbrev pub at_pointer : {N : Type 0} → Axis → Pointer N → N
at_pointer axis e = on_axis axis e.client_y e.client_x

module _ (R : Numbers) where
  open R use {Num, of_nat, minus, over, less}

  abbrev row_sizes : Layout Num → List Num
  row_sizes layout = elim layout.row_sizes [
    | none ↦ equal_sizes R layout.shape.rows
    | some sizes ↦ sizes
  ]

  abbrev col_sizes : Layout Num → ℕ → List Num
  col_sizes layout row = elim layout.col_sizes [
    | none ↦ equal_sizes R layout.shape.cols
    | some rows ↦ elim (get_elem? rows row) [
      | none ↦ equal_sizes R layout.shape.cols
      | some sizes ↦ sizes
    ]
  ]

  abbrev with_sizes : Layout Num → Axis → ℕ → List Num → Layout Num
  with_sizes layout row_axis row sizes = set_row_sizes R layout sizes
  with_sizes layout col_axis row sizes = set_col_sizes R layout row sizes

  -- `apply`: the layout that it calls back with
  unfoldable pub applied : Layout Num → Drag Num → Num → Layout Num
  applied layout d pos = with_sizes layout d.axis d.row (
      resize_tracks R d.start d.boundary (over (minus pos d.origin) d.extent)
        (over (of_nat 120) d.extent) (over (of_nat 8) d.extent))

  -- A container without a box is none.
  unfoldable pub start_drag :
      Option (Drag Num)
      → Layout Num
      → Pointer Num
      → Option (Box Num)
      → Axis
      → ℕ
      → ℕ
      → Option (Drag Num) × List (Effect Num)
  start_drag drag layout e none axis row boundary = (drag, [])
  start_drag drag layout e (some box) axis row boundary =
      if not (e.button == 0) && e.is_mouse then (drag, []) else (
        some (record {
          axis = axis;
          row = row;
          boundary = boundary;
          extent = on_axis axis box.height box.width;
          origin = at_pointer axis e;
          start = on_axis axis (row_sizes layout) (col_sizes layout row);
          moved = false;
        }),
        begin_hold ∷ [],
      )

  -- `pos !== d.origin`
  abbrev pub strays : Drag Num → Num → Bool
  strays d pos = less pos d.origin || less d.origin pos

  unfoldable pub move_drag :
      Option (Drag Num) → Layout Num → Pointer Num → Option (Drag Num) × List (Effect Num)
  move_drag none layout e = (none, [])
  move_drag (some d) layout e =
      let pos = at_pointer d.axis e in
      (some (record d { moved = d.moved || strays d pos }), preview (applied layout d pos) ∷ [])

  unfoldable pub end_drag :
      Option (Drag Num) → Layout Num → Pointer Num → Option (Drag Num) × List (Effect Num)
  end_drag none layout e = (none, [])
  end_drag (some d) layout e = (
    none,
    (if d.moved then commit (applied layout d (at_pointer d.axis e)) ∷ [] else []) ++ end_hold ∷ [],
  )

  -- The cleanup of the component's effect
  unfoldable pub unmount : Option (Drag Num) → Option (Drag Num) × List (Effect Num)
  unmount none = (none, [])
  unmount (some d) = (none, end_hold ∷ [])

  -- A double click
  unfoldable pub reset_sizes : Layout Num → Axis → ℕ → Layout Num
  reset_sizes layout row_axis row = set_row_sizes R layout (equal_sizes R layout.shape.rows)
  reset_sizes layout col_axis row = set_col_sizes R layout row (equal_sizes R layout.shape.cols)

pub data Event (N : Type 0) : Type 0 where
  pointer_down : Pointer N → Option (Box N) → Axis → ℕ → ℕ → Event N
  pointer_move pointer_up : Pointer N → Event N
  double_click : Axis → ℕ → Event N
  unmounted : Event N

module _ (R : Numbers) where
  open R use {Num}

  unfoldable pub handle :
      Option (Drag Num) → Layout Num → Event Num → Option (Drag Num) × List (Effect Num)
  handle drag layout (pointer_down e box axis row boundary) =
      start_drag R drag layout e box axis row boundary
  handle drag layout (pointer_move e) = move_drag R drag layout e
  handle drag layout (pointer_up e) = end_drag R drag layout e
  handle drag layout (double_click axis row) = (drag, commit (reset_sizes R layout axis row) ∷ [])
  handle drag layout unmounted = unmount R drag

  -- Each event with the layout on screen at the time
  unfoldable pub run :
      Option (Drag Num) → List (Layout Num × Event Num) → Option (Drag Num) × List (Effect Num)
  run drag [] = (drag, [])
  run drag ((layout, e) ∷ es) =
      let (drag', now) = handle drag layout e in
      let (drag'', later) = run drag' es in (drag'', now ++ later)
