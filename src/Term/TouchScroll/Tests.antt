-- ===== src/Term/TouchScroll/Tests.antt =====
-- Runs of the touch handlers (term/touchScroll.ts).
use multimux.Base.{◌<◌, ◌≡◌, ◌⊎◌, refl, Bool, true, false, none, some, List, [], ◌∷◌}
use multimux.Base.Int.{ℤ, pos, ◌+ℤ◌, ◌-ℤ◌, ◌*ℤ◌}
use multimux.Term.TouchScroll.{
  pending, scrolling, Gesture, Pointer, down, move, wheel_up, capture, prevent_default, abs,
  is_near, steps_of, wheels, emit_movement, fresh, scroll, move_in, on_pointer_down,
  on_pointer_move, handle, handle_all,
}
use multimux.Term.TouchScroll.Glides.{ready_moves, height_after}
use multimux.Term.TouchScroll.Gestures.{touch-Accounts, turn, Answers, handle-acts, acts}

abbrev start : Pointer
start = record { id = 1; x = pos 50; y = pos 100 }

abbrev at : ℤ → ℤ → Pointer
at x y = record { id = 1; x = x; y = y }

-- A finger goes down the screen by twenty-one pixels, and back up by six.
abbrev a_swipe : List Pointer
a_swipe = at (pos 50) (pos 105) ∷ at (pos 52) (pos 121) ∷ at (pos 52) (pos 115) ∷ []

swiped :
    (handle_all none (down start true true ∷ ready_moves a_swipe)).1
    ≡ capture 1
      ∷ prevent_default
      ∷ wheel_up (pos 52) (pos 121)
      ∷ wheel_up (pos 52) (pos 121)
      ∷ prevent_default
      ∷ []
unfolding handle_all handle on_pointer_down on_pointer_move move_in scroll emit_movement wheels
    steps_of fresh ◌+ℤ◌ ◌-ℤ◌ ◌*ℤ◌
swiped = refl

-- A finger that goes sideways is left alone, also when it turns later.
sideways :
    (handle_all none
      (down start true true ∷ ready_moves (at (pos 70) (pos 100) ∷ at (pos 70) (pos 200) ∷ []))).1
    ≡ []
unfolding handle_all handle on_pointer_down on_pointer_move move_in scroll emit_movement wheels
    steps_of fresh ◌+ℤ◌ ◌-ℤ◌ ◌*ℤ◌
sideways = refl

swipe_turns : turn start a_swipe ≡ some true
unfolding ◌-ℤ◌
swipe_turns = refl

touch-Accounts_example :
    Answers
      (turn start a_swipe)
      (height_after start.y a_swipe -ℤ start.y)
      (handle_all none (down start true true ∷ ready_moves a_swipe)).1
touch-Accounts_example = touch-Accounts start a_swipe (refl, (refl, (refl, tt)))

acts_now : acts (handle (some (fresh start)) (move (at (pos 52) (pos 121)) true)).1 ≡ true
unfolding handle on_pointer_move move_in scroll emit_movement wheels steps_of fresh ◌+ℤ◌ ◌-ℤ◌ ◌*ℤ◌
acts_now = refl

handle-acts_example :
    (g : Gesture) × (p : Pointer) × (ready : Bool) × (some (fresh start) ≡ some g)
    × (move (at (pos 52) (pos 121)) true ≡ move p ready)
    × (p.id ≡ g.pointer_id)
    × ((g.phase ≡ scrolling)
        ⊎ ((g.phase ≡ pending)
            × (is_near (p.x -ℤ g.start_x) (p.y -ℤ g.start_y) ≡ false)
            × (abs (p.x -ℤ g.start_x) < abs (p.y -ℤ g.start_y))))
handle-acts_example = handle-acts (some (fresh start)) (move (at (pos 52) (pos 121)) true) acts_now
