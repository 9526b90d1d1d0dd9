-- ===== src/Term/TouchScroll/Steps.antt =====
-- Whole steps and what is left of them.
use multimux.Base.{
  ℕ, zero, suc, ◌+◌, ◌<◌, ◌≡◌, refl, ◌∙◌, true, false, List, [], ◌∷◌, ◌++◌, ◌==◌, ltb, arith,
  replicate,
}
use multimux.Base.Int.{ℤ, pos, negsuc, ◌+ℤ◌, ◌-ℤ◌, ◌*ℤ◌, +ℤ_parts, eq_of_parts, int_laws}
use multimux.Term.TouchScroll.{
  Pointer, Effect, wheel_up, wheel_down, capture, prevent_default, abs, steps_of, wheels,
}

-- Steps are taken towards zero: less than a step is left, and nothing is lost.
pub steps_of-remainder :
    (r : ℤ)
    → (abs (r -ℤ steps_of r *ℤ pos 8) < 8) × (steps_of r *ℤ pos 8 +ℤ (r -ℤ steps_of r *ℤ pos 8) ≡ r)
unfolding steps_of ◌-ℤ◌ ◌*ℤ◌ ◌+ℤ◌
steps_of-remainder (pos n) = (ground arith, ground arith)
steps_of-remainder (negsuc n) = (ground arith, ground arith)

-- Lines scrolled, up counted positively.
unfoldable pub lines : List Effect → ℤ
lines [] = pos 0
lines (wheel_up x y ∷ es) = pos 1 +ℤ lines es
lines (wheel_down x y ∷ es) = lines es -ℤ pos 1
lines (capture id ∷ es) = lines es
lines (prevent_default ∷ es) = lines es

pub lines-append : (xs ys : List Effect) → lines (xs ++ ys) ≡ lines xs +ℤ lines ys
unfolding lines
lines-append [] ys = eq_of_parts _ _ (omega (arith, +ℤ_parts (pos 0) (lines ys)))
lines-append (wheel_up x y ∷ es) ys = rw (lines-append es ys) (omega int_laws)
lines-append (wheel_down x y ∷ es) ys = rw (lines-append es ys) (omega int_laws)
lines-append (capture id ∷ es) ys = lines-append es ys
lines-append (prevent_default ∷ es) ys = lines-append es ys

lines-replicate_up : (n : ℕ) (x y : ℤ) → lines (replicate n (wheel_up x y)) ≡ pos n
unfolding lines ◌+ℤ◌
lines-replicate_up zero x y = refl
lines-replicate_up (suc n) x y = rw (lines-replicate_up n x y) (ground arith)

lines-replicate_down : (n : ℕ) (x y : ℤ) → lines (replicate n (wheel_down x y)) ≡ pos 0 -ℤ pos n
unfolding lines ◌-ℤ◌
lines-replicate_down zero x y = refl
lines-replicate_down (suc n) x y = rw (lines-replicate_down n x y) (ground arith)

minus-suc : (n : ℕ) → pos 0 -ℤ pos (suc n) ≡ negsuc n
unfolding ◌-ℤ◌
minus-suc n = ground arith

-- A move that is ready scrolls as many lines as it has steps.
pub lines-wheels : (p : Pointer) (steps : ℤ) → lines (wheels p steps true) ≡ steps
unfolding wheels
lines-wheels p (pos zero) = unfold lines in refl
lines-wheels p (pos (suc n)) =
    let busy : (suc n + 0 == 0) ≡ false = ground arith in
    let up : ltb 0 (suc n) ≡ true = ground arith in
    let same : suc n + 0 ≡ suc n = omega arith in
    rw (busy, up, same) (lines-replicate_up (suc n) p.x p.y)
lines-wheels p (negsuc n) =
    let busy : (0 + suc n == 0) ≡ false = ground arith in
    let same : 0 + suc n ≡ suc n = omega arith in
    rw (busy, same) (lines-replicate_down (suc n) p.x p.y ∙ minus-suc n)
