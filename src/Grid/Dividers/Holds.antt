-- ===== src/Grid/Dividers/Holds.antt =====
-- The reflow gate is held while a splitter is dragged, and what is committed is what was dragged.
use multimux.Base.{
  ℕ, ◌≡◌, refl, ap, ◌∙◌, inl, inr, Bool, true, false, not, ◌&&◌, Option, none, some, List, [], ◌∷◌,
  ◌++◌, if◌then◌else◌, ◌==◌, is_some, by_true, by_false, Bool-cases,
}
use multimux.Grid.Numbers.{Numbers}
use multimux.Grid.Model.{Layout}
use multimux.Grid.Dividers.{
  Axis, Drag, Pointer, Box, Effect, preview, commit, begin_hold, end_hold, start_drag, move_drag,
  end_drag, unmount, applied, at_pointer, Event, pointer_down, pointer_move, pointer_up,
  double_click, unmounted, handle, run,
}
use multimux.Term.ReflowGate.{Gate, step, begin_reflow_hold, end_reflow_hold}

-- What the effects make of the reflow gate
abbrev pub on_gate : {N : Type 0} → Gate → List (Effect N) → Gate
on_gate g [] = g
on_gate g (preview l ∷ es) = on_gate g es
on_gate g (commit l ∷ es) = on_gate g es
on_gate g (begin_hold ∷ es) = on_gate (step g begin_reflow_hold).0 es
on_gate g (end_hold ∷ es) = on_gate (step g end_reflow_hold).0 es

on_gate-++ :
    {N : Type 0} (g : Gate) (xs ys : List (Effect N))
    → on_gate g (xs ++ ys) ≡ on_gate (on_gate g xs) ys
on_gate-++ g [] ys = refl
on_gate-++ g (preview l ∷ xs) ys = on_gate-++ g xs ys
on_gate-++ g (commit l ∷ xs) ys = on_gate-++ g xs ys
on_gate-++ g (begin_hold ∷ xs) ys = on_gate-++ (step g begin_reflow_hold).0 xs ys
on_gate-++ g (end_hold ∷ xs) ys = on_gate-++ (step g end_reflow_hold).0 xs ys

let_go : (g : Gate) → (step g end_reflow_hold).0.held ≡ false
unfolding step
let_go g = elim (Bool-cases g.held) [
  | inl e ↦
      by_true (λ (r : Gate × List ℕ). r.0.held ≡ false) (record g { held = false }, g.listeners)
        (g, []) e refl
  | inr e ↦
      by_false (λ (r : Gate × List ℕ). r.0.held ≡ false) (record g { held = false }, g.listeners)
        (g, []) e e
]

-- The gate is held exactly while there is a drag.
abbrev InStep : {N : Type 0} → Gate → Option (Drag N) × List (Effect N) → Type 0
InStep g r = (on_gate g r.1).held ≡ is_some r.0

module _ (R : Numbers) where
  open R use {Num}

  start_drag-InStep :
      (g : Gate) (drag : Option (Drag Num)) (layout : Layout Num) (e : Pointer Num)
      (box : Option (Box Num)) (axis : Axis) (row boundary : ℕ)
      → g.held ≡ is_some drag
      → InStep g (start_drag R drag layout e box axis row boundary)
  unfolding start_drag step
  start_drag-InStep g drag layout e none axis row boundary h = h
  start_drag-InStep g drag layout e (some box) axis row boundary h =
      elim (Bool-cases (not (e.button == 0) && e.is_mouse)) [
        | inl k ↦ by_true (InStep g) (drag, []) _ k h
        | inr k ↦ by_false (InStep g) (drag, []) _ k refl
      ]

  end_drag-InStep :
      (g : Gate) (drag : Option (Drag Num)) (layout : Layout Num) (e : Pointer Num)
      → g.held ≡ is_some drag
      → InStep g (end_drag R drag layout e)
  unfolding end_drag
  end_drag-InStep g none layout e h = h
  end_drag-InStep g (some d) layout e h = go d.moved
    where
      go :
          (b : Bool)
          → (on_gate g (
              (if b then commit (applied R layout d (at_pointer d.axis e)) ∷ [] else [])
              ++ end_hold ∷ [])).held
            ≡ false
      go true = let_go g
      go false = let_go g

  handle-InStep :
      (g : Gate) (drag : Option (Drag Num)) (layout : Layout Num) (e : Event Num)
      → g.held ≡ is_some drag
      → InStep g (handle R drag layout e)
  unfolding handle move_drag unmount
  handle-InStep g drag layout (pointer_down e box axis row boundary) h =
      start_drag-InStep g drag layout e box axis row boundary h
  handle-InStep g none layout (pointer_move e) h = h
  handle-InStep g (some d) layout (pointer_move e) h = h
  handle-InStep g drag layout (pointer_up e) h = end_drag-InStep g drag layout e h
  handle-InStep g drag layout (double_click axis row) h = h
  handle-InStep g none layout unmounted h = h
  handle-InStep g (some d) layout unmounted h = let_go g

  -- Whatever happens to the splitters, with whatever layouts on screen, a gate that only they hold is
  -- held exactly while one is dragged: no end of a drag, nor the component's own end, leaves the
  -- terminals waiting.
  pub run-InStep :
      (g : Gate) (drag : Option (Drag Num)) (es : List (Layout Num × Event Num))
      → g.held ≡ is_some drag
      → (on_gate g (run R drag es).1).held ≡ is_some (run R drag es).0
  unfolding run
  run-InStep g drag [] h = h
  run-InStep g drag ((layout, e) ∷ es) h =
      let (drag', now) = handle R drag layout e in
      let rest = run-InStep (on_gate g now) drag' es (handle-InStep g drag layout e h) in
      ap (λ (x : Gate). x.held) (on_gate-++ g now (run R drag' es).1) ∙ rest
