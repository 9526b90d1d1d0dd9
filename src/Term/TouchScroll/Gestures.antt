-- ===== src/Term/TouchScroll/Gestures.antt =====
-- What a gesture adds up to.
use multimux.Base.{
  sym, ◌∙◌, ltb, if◌then◌else◌, ==_iff, ◌+◌, ◌*◌, ◌<◌, ◌≡◌, ◌⊎◌, refl, ap, inl, inr, Bool, true,
  false, Option, none, some, List, [], ◌∷◌, ◌++◌, leb, arith, Bool-cases,
}
use multimux.Base.Int.{ℤ, pos, ◌+ℤ◌, ◌-ℤ◌, ◌*ℤ◌, int_laws}
use multimux.Term.TouchScroll.{
  still, Phase, pending, scrolling, rejected, Gesture, Pointer, Event, down, move, up, Effect,
  capture, abs, is_near, fresh, scroll, move_in, on_pointer_down, on_pointer_move, on_pointer_end,
  handle, handle_all,
}
use multimux.Term.TouchScroll.Steps.{lines, lines-append}
use multimux.Term.TouchScroll.Glides.{
  Glides, scroll-Glides, run-Glides, run-rejected, zero-plus, ready_moves, height_after, AllOf,
}

-- Which way a touch turns: decided by its first move that is twelve pixels or more away from where it
-- went down, `true` if that is more up or down than sideways. `none` if no move goes so far.
abbrev pub turn : Pointer → List Pointer → Option Bool
turn p [] = none
turn p (q ∷ qs) =
    let across = abs (q.x -ℤ p.x) in
    let along = abs (q.y -ℤ p.y) in
    if ltb (across * across + along * along) (12 * 12) then turn p qs else some (ltb across along)

-- What is done for a touch that turned so and went `way` pixels down: nothing, or as many lines as
-- are in the way, but for less than one.
abbrev pub Answers : Option Bool → ℤ → List Effect → Type 0
Answers (some true) way es = (rest : ℤ) × (abs rest < 8) × (lines es *ℤ pos 8 +ℤ rest ≡ way)
Answers (some false) way es = es ≡ []
Answers none way es = es ≡ []

abbrev turned : Phase → Pointer → Gesture
turned ph p = record (fresh p) { phase = ph }

-- What the first move that is far enough makes of a touch that is pending.
move-pending :
    (p q : Pointer)
    → q.id ≡ p.id
    → handle (some (fresh p)) (move q true)
      ≡ still (
          if is_near (q.x -ℤ p.x) (q.y -ℤ p.y)
          then (fresh p, [])
          else if leb (abs (q.y -ℤ p.y)) (abs (q.x -ℤ p.x))
          then (turned rejected p, [])
          else scroll (turned scrolling p) q true (capture q.id ∷ []))
unfolding handle on_pointer_move move_in fresh
move-pending p q e = rw ((==_iff q.id p.id).1 e) refl

start-Glides :
    (p q : Pointer)
    → Glides p.id p.y q.y
        (pos 0 +ℤ lines (scroll (turned scrolling p) q true (capture q.id ∷ [])).1)
        (scroll (turned scrolling p) q true (capture q.id ∷ [])).0
unfolding fresh
start-Glides p q =
    scroll-Glides p.id p.y (pos 0) (turned scrolling p) q (capture q.id ∷ []) (unfold lines in refl)
      refl refl (unfold ◌*ℤ◌ in omega int_laws)

run-Answers :
    (y : ℤ) (p : Pointer) (ps : List Pointer)
    → AllOf p.id ps
    → Answers
        (turn p ps)
        (height_after y ps -ℤ p.y)
        (handle_all (some (fresh p)) (ready_moves ps)).1
unfolding handle_all
run-Answers y p [] a = refl
run-Answers y p (q ∷ qs) (e, a) = elim (Bool-cases (is_near (q.x -ℤ p.x) (q.y -ℤ p.y))) [
  | inl near ↦ rw (move-pending p q e, near) (run-Answers q.y p qs a)
  | inr far ↦ elim (Bool-cases (leb (abs (q.y -ℤ p.y)) (abs (q.x -ℤ p.x)))) [
    | inl flat ↦
        let level : ltb (abs (q.x -ℤ p.x)) (abs (q.y -ℤ p.y)) ≡ false = ground arith in
        rw (move-pending p q e, far, flat, level) (run-rejected (turned rejected p) qs refl)
    | inr steep ↦
        let upright : ltb (abs (q.x -ℤ p.x)) (abs (q.y -ℤ p.y)) ≡ true = ground arith in
        let now = scroll (turned scrolling p) q true (capture q.id ∷ []) in
        let (later, rest, (ph, id, at, s, h)) =
          run-Glides p.id p.y q.y (pos 0 +ℤ lines now.1) now.0 qs a (start-Glides p q) in
        let total : lines (now.1 ++ later.1) ≡ pos 0 +ℤ lines now.1 +ℤ lines later.1 =
          lines-append now.1 later.1 ∙ ap (◌+ℤ lines later.1) (sym (zero-plus (lines now.1))) in
        rw (move-pending p q e, far, steep, upright, rest)
          (later.0.remainder, s, ap (λ l. l *ℤ pos 8 +ℤ later.0.remainder) total ∙ h)
  ]
]

-- Whatever the moves of a touch, if all are of its pointer and come while wheel events are taken:
-- where the first that is twelve pixels or more away from the start is more up or down than
-- sideways, it scrolls by whole lines of eight pixels, which with a rest of less than one line add
-- up to the way from where it went down to where it is last; otherwise it does nothing.
pub touch-Accounts :
    (p : Pointer) (ps : List Pointer)
    → AllOf p.id ps
    → Answers
        (turn p ps)
        (height_after p.y ps -ℤ p.y)
        (handle_all none (down p true true ∷ ready_moves ps)).1
unfolding handle_all handle on_pointer_down
touch-Accounts p ps a = run-Answers p.y p ps a

-- Something is done to the page.
abbrev pub acts : List Effect → Bool
acts [] = false
acts (_ ∷ es) = true

-- Only a move does anything to the page: a move of the pointer whose touch is under way. The touch
-- scrolls already, or it is pending and the pointer has gone far enough, more up or down than
-- sideways.
pub handle-acts :
    (st : Option Gesture) (e : Event)
    → acts (handle st e).1 ≡ true
    → (g : Gesture) × (p : Pointer) × (ready : Bool) × (st ≡ some g)
      × (e ≡ move p ready)
      × (p.id ≡ g.pointer_id)
      × ((g.phase ≡ scrolling)
          ⊎ ((g.phase ≡ pending)
              × (is_near (p.x -ℤ g.start_x) (p.y -ℤ g.start_y) ≡ false)
              × (abs (p.x -ℤ g.start_x) < abs (p.y -ℤ g.start_y))))
unfolding handle on_pointer_down on_pointer_move on_pointer_end move_in
handle-acts (some g) (down p a b) h = absurd (ground arith)
handle-acts none (down p a b) h = absurd (ground arith)
handle-acts none (move p ready) h = absurd (ground arith)
handle-acts (some g) (move p ready) h = (g, p, ready, refl, refl, ground arith, moving g.phase refl)
  where
    moving :
        (ph : Phase)
        → g.phase ≡ ph
        → (g.phase ≡ scrolling)
          ⊎ ((g.phase ≡ pending)
              × (is_near (p.x -ℤ g.start_x) (p.y -ℤ g.start_y) ≡ false)
              × (abs (p.x -ℤ g.start_x) < abs (p.y -ℤ g.start_y)))
    moving scrolling q = inl q
    moving pending q = inr (q, ground arith, ground arith)
    moving rejected q = absurd (ground arith)
handle-acts none (up id) h = absurd (ground arith)
handle-acts (some g) (up id) h = absurd (ground arith)
