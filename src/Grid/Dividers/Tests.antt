-- ===== src/Grid/Dividers/Tests.antt =====
-- Splitters at work: a drag, a click, and a drag that the end of the component cuts off.
use multimux.Base.{ℕ, ◌≡◌, refl, true, none, some, Option, [], ◌∷◌, map, is_some}
use multimux.Grid.Model.{Layout}
use multimux.Grid.Samples.{parts, three}
use multimux.Grid.Dividers.{
  Pointer, Box, Effect, preview, commit, begin_hold, end_hold, row_axis, Event, pointer_down,
  pointer_move, pointer_up, unmounted, handle, run, start_drag, move_drag, end_drag,
}
use multimux.Grid.Dividers.Holds.{on_gate, run-InStep}
use multimux.Term.ReflowGate.{opened}

abbrev pointer_at : ℕ → Pointer ℕ
pointer_at y = record { button = 0; is_mouse = true; client_x = 5; client_y = y }

abbrev box : Option (Box ℕ)
box = some (record { width = 800; height = 600 })

abbrev press : Layout ℕ × Event ℕ
press = (three, pointer_down (pointer_at 300) box row_axis 0 0)

abbrev pull : Layout ℕ × Event ℕ
pull = (three, pointer_move (pointer_at 330))

abbrev loose : Layout ℕ × Event ℕ
loose = (three, pointer_up (pointer_at 330))

abbrev number_of : Effect ℕ → ℕ
number_of (preview l) = 0
number_of (commit l) = 1
number_of begin_hold = 2
number_of end_hold = 3

dragged : map number_of (run parts none (press ∷ pull ∷ loose ∷ [])).1 ≡ 2 ∷ 0 ∷ 1 ∷ 3 ∷ []
unfolding run handle start_drag move_drag end_drag
dragged = refl

clicked :
    map number_of (run parts none (press ∷ (three, pointer_up (pointer_at 300)) ∷ [])).1
    ≡ 2 ∷ 3 ∷ []
unfolding run handle start_drag move_drag end_drag
clicked = refl

run-InStep_example :
    (on_gate opened (run parts none (press ∷ pull ∷ (three, unmounted) ∷ [])).1).held
    ≡ is_some (run parts none (press ∷ pull ∷ (three, unmounted) ∷ [])).0
run-InStep_example = run-InStep parts opened none (press ∷ pull ∷ (three, unmounted) ∷ []) refl
