-- ===== src/Grid/Model/Slots.antt =====
-- Packing a list of slots: what `occupied` gives of a padded, changed or swapped list.
use multimux.Base.{
  ℕ, zero, suc, ◌≤◌, ◌≡◌, refl, ap, inl, inr, Bool, not, Option, none, some, List, [], ◌∷◌, ◌++◌,
  map, arith, length, replicate, filter, any, append-nil, Bool-cases, str_eq_refl, ==_refl,
}
use multimux.Grid.Model.{Tile, occupied, pad, same_slots, dropped}

pub occupied-append :
    (xs ys : List (Option Tile)) → occupied (xs ++ ys) ≡ occupied xs ++ occupied ys
occupied-append [] ys = refl
occupied-append (none ∷ xs) ys = occupied-append xs ys
occupied-append (some t ∷ xs) ys = ap (t ∷◌) (occupied-append xs ys)

pub occupied-map-some : (ts : List Tile) → occupied (map some ts) ≡ ts
occupied-map-some [] = refl
occupied-map-some (t ∷ ts) = ap (t ∷◌) (occupied-map-some ts)

pub occupied-replicate : (n : ℕ) → occupied (replicate n none) ≡ []
occupied-replicate zero = refl
occupied-replicate (suc n) = occupied-replicate n

pub occupied-pad : (ts : List Tile) (n : ℕ) → occupied (pad (map some ts) n) ≡ ts
unfolding pad
occupied-pad ts n = simp (occupied-append, occupied-map-some, occupied-replicate, append-nil)

pub length-occupied-le : (xs : List (Option Tile)) → length (occupied xs) ≤ length xs
length-occupied-le [] = omega arith
length-occupied-le (none ∷ xs) = omega (arith, length-occupied-le xs)
length-occupied-le (some t ∷ xs) = omega (arith, length-occupied-le xs)

-- `removeTilesWhere` keeps the tiles that the test does not name.
pub occupied-dropped :
    (drop : Tile → Bool) (xs : List (Option Tile))
    → occupied (map (dropped drop) xs) ≡ filter (λ t. not (drop t)) (occupied xs)
unfolding dropped
occupied-dropped drop [] = refl
occupied-dropped drop (none ∷ xs) = occupied-dropped drop xs
occupied-dropped drop (some t ∷ xs) = elim (Bool-cases (drop t)) [
  | inl e ↦ rw e (occupied-dropped drop xs)
  | inr e ↦ rw e (ap (t ∷◌) (occupied-dropped drop xs))
]

-- The copy is the same as the original exactly when the test names no tile.
pub same_slots-dropped :
    (drop : Tile → Bool) (xs : List (Option Tile))
    → same_slots (map (dropped drop) xs) xs ≡ not (any drop (occupied xs))
unfolding same_slots dropped
same_slots-dropped drop [] = refl
same_slots-dropped drop (none ∷ xs) = same_slots-dropped drop xs
same_slots-dropped drop (some t ∷ xs) = elim (Bool-cases (drop t)) [
  | inl e ↦ rw e refl
  | inr e ↦ rw (e, str_eq_refl t.server_id, ==_refl t.session_id) (same_slots-dropped drop xs)
]
