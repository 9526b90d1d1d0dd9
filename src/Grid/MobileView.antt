-- ===== src/Grid/MobileView.antt =====
-- One session at a time on a small screen: the state and the handlers of grid/MobileSessionView.tsx.
--
-- An event comes with the list of sessions at the time. Positions are whole pixels. The font size, the
-- text of a pane and what is drawn are left out; a request's answer is an event.
pub mod Awaited
mod Tests
use multimux.Base.{
  ℕ, ◌+◌, ◌-◌, min, Bool, true, false, not, ◌&&◌, ◌||◌, Option, none, some, List, [], ◌∷◌,
  if◌then◌else◌, ◌==◌, ltb, leb, length, find_idx?, is_some, Str,
}
use multimux.Grid.Types.{Session, Server}
use multimux.Grid.Mobile.{
  MobileSession, MobileSelection, session_key, is_key, key_at, reconcile_mobile_selection,
}

-- `pointerStart`
pub record PointerStart : Type 0 where
  pub id : ℕ
  pub x : ℕ
  pub y : ℕ

pub record MobileView : Type 0 where
  pub selection : MobileSelection
  pub pending_key : Option Str
  pub pointer : Option PointerStart
  pub creator_open : Bool
  pub terminating : Bool

pub data Act : Type 0 where
  refresh : Act
  -- DELETE of a session
  request : Server → ℕ → Act
  focus_button : Act

-- The first effect, which runs when the sessions or the pending key have changed
unfoldable pub settle : List MobileSession → MobileView → MobileView
settle sessions v = elim (find_idx? (is_key v.pending_key) sessions) [
  | none ↦ record v { selection = reconcile_mobile_selection v.selection sessions }
  | some i ↦ record v { selection = record { key = v.pending_key; index = i }; pending_key = none }
]

-- `closeCreator`, with the effect that follows
unfoldable pub close_creator : MobileView → MobileView × List Act
close_creator v = (record v { creator_open = false }, focus_button ∷ [])

abbrev pub awaiting : MobileView → Server → List Session → MobileView
awaiting v server [] = v
awaiting v server (s ∷ started) = record v { pending_key = some (session_key server s) }

unfoldable pub created :
    List MobileSession → MobileView → Server → List Session → MobileView × List Act
created sessions v server started =
    let (next, acts) = close_creator (settle sessions (awaiting v server started)) in
    (next, refresh ∷ acts)

unfoldable pub terminate_selected : MobileView → Server → ℕ → Bool → MobileView × List Act
terminate_selected v server id confirmed =
    if confirmed then (record v { terminating = true }, request server id ∷ []) else (v, [])

-- With whether the target is a control
unfoldable pub on_pointer_down : MobileView → PointerStart → Bool → Bool → MobileView
on_pointer_down v e is_primary on_control =
    if not is_primary || is_some v.pointer || on_control then v else record v { pointer = some e }

-- The start that is cleared
abbrev pub start_of : Option PointerStart → ℕ → Option PointerStart
start_of none id = none
start_of (some s) id = if s.id == id then some s else none

unfoldable pub clear_pointer : MobileView → ℕ → MobileView × Option PointerStart
clear_pointer v id = elim (start_of v.pointer id) [
  | none ↦ (v, none)
  | some s ↦ (record v { pointer = none }, some s)
]

-- An offset of the selection: so many places on, or back
pub data Offset : Type 0 where
  on_by back_by : ℕ → Offset

abbrev moved_by : ℕ → Offset → ℕ → ℕ
moved_by i (on_by n) count = min (count - 1) (i + n)
moved_by i (back_by n) count = min (count - 1) (i - n)

unfoldable pub move_selection : List MobileSession → MobileView → Offset → MobileView
move_selection sessions v offset =
    let resolved = reconcile_mobile_selection v.selection sessions in
    let index = moved_by resolved.index offset (length sessions) in
    record v { selection = record { key = key_at sessions index; index = index } }

-- `Math.abs` of a difference
abbrev apart : ℕ → ℕ → ℕ
apart a b = (a - b) + (b - a)

abbrev pub swiped : List MobileSession → MobileView → Option PointerStart → ℕ → ℕ → MobileView
swiped sessions v none x y = v
swiped sessions v (some s) x y =
    if ltb (apart x s.x) 48 || leb (apart x s.x) (apart y s.y)
    then v
    else move_selection sessions v (if ltb x s.x then on_by 1 else back_by 1)

unfoldable pub on_pointer_up : List MobileSession → MobileView → ℕ → ℕ → ℕ → MobileView
on_pointer_up sessions v id x y =
    let (next, start) = clear_pointer v id in swiped sessions next start x y

pub data Key : Type 0 where
  arrow_down arrow_left arrow_right arrow_up end home other : Key

unfoldable pub on_key_down : List MobileSession → MobileView → Key → MobileView
on_key_down sessions v arrow_down = move_selection sessions v (back_by 1)
on_key_down sessions v arrow_left = move_selection sessions v (back_by 1)
on_key_down sessions v arrow_right = move_selection sessions v (on_by 1)
on_key_down sessions v arrow_up = move_selection sessions v (on_by 1)
on_key_down sessions v end = move_selection sessions v (on_by (length sessions))
on_key_down sessions v home = move_selection sessions v (back_by (length sessions))
on_key_down sessions v other = v

pub data Event : Type 0 where
  -- the list is another one
  listed : Event
  open_creator shut_creator : Event
  started : Server → List Session → Event
  terminate : Server → ℕ → Bool → Event
  -- the answer to DELETE, good or bad
  terminated : Event
  -- with whether it is primary, and whether the target is a control
  pointer_down : PointerStart → Bool → Bool → Event
  pointer_up : ℕ → ℕ → ℕ → Event
  -- cancelled, or the capture lost
  pointer_gone : ℕ → Event
  key_down : Key → Event

unfoldable pub handle : List MobileSession → MobileView → Event → MobileView × List Act
handle sessions v listed = (settle sessions v, [])
handle sessions v open_creator = (record v { creator_open = true }, [])
handle sessions v shut_creator = close_creator v
handle sessions v (started server ss) = created sessions v server ss
handle sessions v (terminate server id confirmed) = terminate_selected v server id confirmed
handle sessions v terminated = (record v { terminating = false }, refresh ∷ [])
handle sessions v (pointer_down e is_primary on_control) =
    (on_pointer_down v e is_primary on_control, [])
handle sessions v (pointer_up id x y) = (on_pointer_up sessions v id x y, [])
handle sessions v (pointer_gone id) = ((clear_pointer v id).0, [])
handle sessions v (key_down k) = (on_key_down sessions v k, [])

-- Each event with the sessions at the time
unfoldable pub run : MobileView → List (List MobileSession × Event) → MobileView
run v [] = v
run v ((sessions, e) ∷ es) = run (handle sessions v e).0 es
