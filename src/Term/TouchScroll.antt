-- ===== src/Term/TouchScroll.antt =====
-- Scrolling by touch: the handlers that term/touchScroll.ts installs on an element. Positions are
-- whole pixels. What a handler does to the page is a list of effects; `isReady` is read at the time
-- of a move, so its answer comes with the event.
pub mod Steps
pub mod Glides
pub mod Gestures
mod Tests
use multimux.Base.{
  ℕ, zero, suc, ◌+◌, ◌*◌, ◌/◌, Bool, true, false, not, ◌&&◌, ◌||◌, Option, none, some, List, [],
  ◌∷◌, ◌++◌, if◌then◌else◌, ◌==◌, ltb, leb, replicate,
}
use multimux.Base.Int.{ℤ, pos, negsuc, pos_part, neg_part, ◌+ℤ◌, ◌-ℤ◌, ◌*ℤ◌}

pub data Phase : Type 0 where
  pending scrolling rejected : Phase

pub record Gesture : Type 0 where
  pub pointer_id : ℕ
  pub start_x : ℤ
  pub start_y : ℤ
  pub last_y : ℤ
  pub remainder : ℤ
  pub phase : Phase

pub record Pointer : Type 0 where
  pub id : ℕ
  pub x : ℤ
  pub y : ℤ

-- The five listeners; the last stands for pointerup, pointercancel and lostpointercapture.
pub data Event : Type 0 where
  -- whether the pointer is a touch, and whether it is primary
  down : Pointer → Bool → Bool → Event
  -- what `isReady` answers
  move : Pointer → Bool → Event
  up : ℕ → Event

-- A wheel event of one line up or down, at a place; `deltaY` is -1 for up.
pub data Effect : Type 0 where
  wheel_up : ℤ → ℤ → Effect
  wheel_down : ℤ → ℤ → Effect
  capture : ℕ → Effect
  prevent_default : Effect

abbrev pub abs : ℤ → ℕ
abs a = pos_part a + neg_part a

-- `Math.trunc(remainder / PIXELS_PER_STEP)`
unfoldable pub steps_of : ℤ → ℤ
steps_of (pos n) = pos (n / 8)
steps_of (negsuc n) = pos 0 -ℤ pos (suc n / 8)

abbrev pub is_positive : ℤ → Bool
is_positive (pos n) = ltb 0 n
is_positive (negsuc n) = false

unfoldable pub wheels : Pointer → ℤ → Bool → List Effect
wheels p steps ready =
    if abs steps == 0 || not ready
    then []
    else replicate (abs steps) (if is_positive steps then wheel_up p.x p.y else wheel_down p.x p.y)

-- `emitMovement`, for a gesture that scrolls.
unfoldable pub emit_movement : Gesture → Pointer → Bool → Gesture × List Effect
emit_movement g p ready =
    let moved = g.remainder +ℤ (p.y -ℤ g.last_y) in
    let steps = steps_of moved in
    (record g { last_y = p.y; remainder = moved -ℤ steps *ℤ pos 8 }, wheels p steps ready)

-- `Math.hypot(dx, dy) < ACTIVATION_DISTANCE`
abbrev pub is_near : ℤ → ℤ → Bool
is_near dx dy = ltb (abs dx * abs dx + abs dy * abs dy) 144

unfoldable pub fresh : Pointer → Gesture
fresh p = record {
  pointer_id = p.id;
  start_x = p.x;
  start_y = p.y;
  last_y = p.y;
  remainder = pos 0;
  phase = pending;
}

unfoldable pub scroll : Gesture → Pointer → Bool → List Effect → Gesture × List Effect
scroll g p ready before =
    let (g', after) = emit_movement g p ready in (g', before ++ prevent_default ∷ after)

-- A move of the gesture's pointer, by phase.
unfoldable pub move_in : Phase → Gesture → Pointer → Bool → Gesture × List Effect
move_in rejected g p ready = (g, [])
move_in scrolling g p ready = scroll g p ready []
move_in pending g p ready =
    let dx = p.x -ℤ g.start_x in
    let dy = p.y -ℤ g.start_y in
    if is_near dx dy
    then (g, [])
    else if leb (abs dy) (abs dx)
    then (record g { phase = rejected }, [])
    else scroll (record g { phase = scrolling }) p ready (capture p.id ∷ [])

abbrev pub still : {E : Type 0} → Gesture × List E → Option Gesture × List E
still r = (some r.0, r.1)

unfoldable pub on_pointer_down :
    Option Gesture → Pointer → Bool → Bool → Option Gesture × List Effect
on_pointer_down (some g) p is_touch is_primary = (some g, [])
on_pointer_down none p is_touch is_primary =
    if not is_touch || not is_primary then (none, []) else (some (fresh p), [])

unfoldable pub on_pointer_move : Option Gesture → Pointer → Bool → Option Gesture × List Effect
on_pointer_move none p ready = (none, [])
on_pointer_move (some g) p ready =
    if p.id == g.pointer_id then still (move_in g.phase g p ready) else (some g, [])

unfoldable pub on_pointer_end : Option Gesture → ℕ → Option Gesture × List Effect
on_pointer_end none id = (none, [])
on_pointer_end (some g) id = if g.pointer_id == id then (none, []) else (some g, [])

unfoldable pub handle : Option Gesture → Event → Option Gesture × List Effect
handle st (down p is_touch is_primary) = on_pointer_down st p is_touch is_primary
handle st (move p ready) = on_pointer_move st p ready
handle st (up id) = on_pointer_end st id

-- The handlers over a sequence of events.
unfoldable pub handle_all : Option Gesture → List Event → Option Gesture × List Effect
handle_all st [] = (st, [])
handle_all st (e ∷ es) =
    let (st', now) = handle st e in let (st'', later) = handle_all st' es in (st'', now ++ later)
