-- ===== src/Term/TouchScroll/Glides.antt =====
-- A touch that scrolls, and one that was rejected, over further moves (term/touchScroll.ts).
use multimux.Base.{
  ℕ, All, sym, ◌∙◌, ==_iff, ◌+◌, ◌*◌, ◌<◌, ◌≡◌, refl, ap, inl, inr, true, some, List, [], ◌∷◌, ◌++◌,
  map, ◌==◌, arith, Bool-cases,
}
use multimux.Base.Int.{ℤ, pos, pos_part, neg_part, ◌+ℤ◌, ◌-ℤ◌, ◌*ℤ◌, eq_of_parts, int_laws}
use multimux.Term.TouchScroll.{
  still, scrolling, rejected, Gesture, Pointer, Event, move, Effect, prevent_default, abs, steps_of,
  wheels, emit_movement, scroll, move_in, on_pointer_move, handle, handle_all,
}
use multimux.Term.TouchScroll.Steps.{steps_of-remainder, lines, lines-append, lines-wheels}

times8_parts :
    (a : ℤ) → pos_part (a *ℤ pos 8) + neg_part a * 8 ≡ neg_part (a *ℤ pos 8) + pos_part a * 8
unfolding ◌*ℤ◌
times8_parts a = ground arith

Accounts-step :
    (b r y l o s : ℤ)
    → b *ℤ pos 8 +ℤ r ≡ l -ℤ o
    → (b +ℤ s) *ℤ pos 8 +ℤ (r +ℤ (y -ℤ l) -ℤ s *ℤ pos 8) ≡ y -ℤ o
Accounts-step b r y l o s h = eq_of_parts _ _ (
    omega (
      int_laws,
      times8_parts b,
      times8_parts s,
      times8_parts (b +ℤ s),
      ap pos_part h,
      ap neg_part h,
    ))

plus-zero : (a : ℤ) → a +ℤ pos 0 ≡ a
plus-zero a = omega int_laws

plus_assoc : (a b c : ℤ) → a +ℤ b +ℤ c ≡ a +ℤ (b +ℤ c)
plus_assoc a b c = omega int_laws

pub zero-plus : (a : ℤ) → pos 0 +ℤ a ≡ a
zero-plus a = omega int_laws

lines-scroll :
    (p : Pointer) (steps : ℤ) (first : List Effect)
    → lines first ≡ pos 0
    → lines (first ++ prevent_default ∷ wheels p steps true) ≡ steps
unfolding lines
lines-scroll p steps first quiet =
    rw (lines-append first (prevent_default ∷ wheels p steps true), quiet, lines-wheels p steps)
      (zero-plus steps)

-- A gesture of the pointer `i` that scrolls, from the height `o` to the height `y` by `b` lines,
-- with less than a line over.
abbrev pub Glides : ℕ → ℤ → ℤ → ℤ → Gesture → Type 0
Glides i o y b g =
    (g.phase ≡ scrolling)
    × (g.pointer_id ≡ i)
    × (g.last_y ≡ y)
    × (abs g.remainder < 8)
    × (b *ℤ pos 8 +ℤ g.remainder ≡ y -ℤ o)

pub scroll-Glides :
    (i : ℕ) (o b : ℤ) (g : Gesture) (p : Pointer) (first : List Effect)
    → lines first ≡ pos 0
    → g.phase ≡ scrolling
    → g.pointer_id ≡ i
    → b *ℤ pos 8 +ℤ g.remainder ≡ g.last_y -ℤ o
    → Glides i o p.y (b +ℤ lines (scroll g p true first).1) (scroll g p true first).0
unfolding scroll emit_movement
scroll-Glides i o b g p first quiet ph e h =
    let r = g.remainder +ℤ (p.y -ℤ g.last_y) in
    (
      ph,
      e,
      refl,
      (steps_of-remainder r).0,
      rw (lines-scroll p (steps_of r) first quiet)
          (Accounts-step b g.remainder p.y g.last_y o (steps_of r) h),
    )

-- The moves of a gesture, all at a time when wheel events are taken.
abbrev pub ready_moves : List Pointer → List Event
ready_moves ps = map (λ p. move p true) ps

-- The height that a touch is at after its moves.
abbrev pub height_after : ℤ → List Pointer → ℤ
height_after y [] = y
height_after y (p ∷ ps) = height_after p.y ps

abbrev pub AllOf : ℕ → List Pointer → Type 0
AllOf i = All (λ q. q.id ≡ i)

move-scrolling :
    (g : Gesture) (p : Pointer)
    → g.phase ≡ scrolling
    → p.id ≡ g.pointer_id
    → handle (some g) (move p true) ≡ (some (scroll g p true []).0, (scroll g p true []).1)
unfolding handle on_pointer_move move_in
move-scrolling g p ph e = rw ((==_iff p.id g.pointer_id).1 e, ph) refl

pub run-Glides :
    (i : ℕ) (o y b : ℤ) (g : Gesture) (ps : List Pointer)
    → AllOf i ps
    → Glides i o y b g
    → (r : Gesture × List Effect) × (handle_all (some g) (ready_moves ps) ≡ (some r.0, r.1))
      × Glides i o (height_after y ps) (b +ℤ lines r.1) r.0
unfolding handle_all lines
run-Glides i o y b g [] a h = ((g, []), refl, rw (plus-zero b) h)
run-Glides i o y b g (p ∷ ps) (e, a) (ph, id, at, s, h) =
    let now = scroll g p true [] in
    let first = move-scrolling g p ph (e ∙ sym id) in
    let (later, rest, glides) =
      run-Glides i o p.y (b +ℤ lines now.1) now.0 ps a
        (scroll-Glides i o b g p [] refl ph id (rw at h)) in
    (
      (later.0, now.1 ++ later.1),
      rw (first, rest) refl,
      rw (lines-append now.1 later.1, ← plus_assoc b (lines now.1) (lines later.1)) glides,
    )

move-rejected :
    (g : Gesture) (p : Pointer) → g.phase ≡ rejected → handle (some g) (move p true) ≡ (some g, [])
unfolding handle on_pointer_move move_in
move-rejected g p ph = elim (Bool-cases (p.id == g.pointer_id)) [
  | inl e ↦ rw e (ap (λ k. still (move_in k g p true)) ph)
  | inr e ↦ rw e refl
]

pub run-rejected :
    (g : Gesture) (ps : List Pointer)
    → g.phase ≡ rejected
    → (handle_all (some g) (ready_moves ps)).1 ≡ []
unfolding handle_all
run-rejected g [] ph = refl
run-rejected g (p ∷ ps) ph = rw (move-rejected g p ph) (run-rejected g ps ph)
