-- ===== src/Grid/Model/Swaps.antt =====
-- Writes into a packed list of slots, sessions in front and free cells behind, seen on the list of
-- sessions. `swapTiles` and `removeTile` write so before they pack again.
use multimux.Base.{
  ℕ, zero, suc, ◌≤◌, ◌<◌, ◌≡◌, refl, ap, Option, none, some, List, [], ◌∷◌, ◌++◌, map, arith,
  length, get_elem?, set, replicate, erase_idx, lt-length_of_get_elem?, le_of_get_elem?-none,
  length-set,
}
use multimux.Grid.Model.{Tile, occupied}
use multimux.Grid.Model.Slots.{occupied-replicate}

abbrev pub packed : List Tile → ℕ → List (Option Tile)
packed ts k = map some ts ++ replicate k none

pub occupied-packed : (ts : List Tile) (k : ℕ) → occupied (packed ts k) ≡ ts
occupied-packed [] k = occupied-replicate k
occupied-packed (t ∷ ts) k = ap (t ∷◌) (occupied-packed ts k)

-- A cell in range shows the session of its index, or nothing past the last session.
pub get_elem?-packed :
    (ts : List Tile) (k i : ℕ) {s : Option Tile}
    → get_elem? (packed ts k) i ≡ some s
    → s ≡ get_elem? ts i
get_elem?-packed [] zero i h = cc
get_elem?-packed [] (suc k) zero h = cc
get_elem?-packed [] (suc k) (suc i) h = get_elem?-packed [] k i h
get_elem?-packed (t ∷ ts) k zero h = cc
get_elem?-packed (t ∷ ts) k (suc i) h = get_elem?-packed ts k i h

pub occupied-set-none :
    (ts : List Tile) (k i : ℕ) → occupied (set (packed ts k) i none) ≡ erase_idx ts i
occupied-set-none [] zero i = refl
occupied-set-none [] (suc k) zero = occupied-replicate k
occupied-set-none [] (suc k) (suc i) = occupied-set-none [] k i
occupied-set-none (t ∷ ts) k zero = occupied-packed ts k
occupied-set-none (t ∷ ts) k (suc i) = ap (t ∷◌) (occupied-set-none ts k i)

set-packed :
    (ts : List Tile) (k i : ℕ) (t : Tile)
    → i < length ts
    → set (packed ts k) i (some t) ≡ packed (set ts i t) k
set-packed [] k i t h = absurd (omega arith)
set-packed (u ∷ ts) k zero t h = refl
set-packed (u ∷ ts) k (suc i) t h = ap (some u ∷◌) (set-packed ts k i t (omega arith))

set-none_past : (ts : List Tile) (k i : ℕ) → length ts ≤ i → set (packed ts k) i none ≡ packed ts k
set-none_past [] zero i h = refl
set-none_past [] (suc k) zero h = refl
set-none_past [] (suc k) (suc i) h = ap (none ∷◌) (set-none_past [] k i (omega arith))
set-none_past (t ∷ ts) k zero h = absurd (omega arith)
set-none_past (t ∷ ts) k (suc i) h = ap (some t ∷◌) (set-none_past ts k i (omega arith))

occupied-set_past :
    (ts : List Tile) (k i : ℕ) (t : Tile)
    → length ts ≤ i
    → i < length (packed ts k)
    → occupied (set (packed ts k) i (some t)) ≡ ts ++ t ∷ []
occupied-set_past [] zero i t lo hi = absurd (omega arith)
occupied-set_past [] (suc k) zero t lo hi = ap (t ∷◌) (occupied-replicate k)
occupied-set_past [] (suc k) (suc i) t lo hi =
    occupied-set_past [] k i t (omega arith) (omega arith)
occupied-set_past (u ∷ ts) k zero t lo hi = absurd (omega arith)
occupied-set_past (u ∷ ts) k (suc i) t lo hi =
    ap (u ∷◌) (occupied-set_past ts k i t (omega arith) (omega arith))

-- A session moved to a free cell, in either order of the two writes.
occupied-move :
    (ts : List Tile) (k a b : ℕ) (t : Tile)
    → a < length ts
    → length ts ≤ b
    → b < length (packed ts k)
    → occupied (set (set (packed ts k) a none) b (some t)) ≡ erase_idx ts a ++ t ∷ []
occupied-move [] k a b t h lo hi = absurd (omega arith)
occupied-move (u ∷ ts) k a zero t h lo hi = absurd (omega arith)
occupied-move (u ∷ ts) k zero (suc b) t h lo hi =
    occupied-set_past ts k b t (omega arith) (omega arith)
occupied-move (u ∷ ts) k (suc a) (suc b) t h lo hi =
    ap (u ∷◌) (occupied-move ts k a b t (omega arith) (omega arith) (omega arith))

occupied-move_back :
    (ts : List Tile) (k a b : ℕ) (t : Tile)
    → b < length ts
    → length ts ≤ a
    → a < length (packed ts k)
    → occupied (set (set (packed ts k) a (some t)) b none) ≡ erase_idx ts b ++ t ∷ []
occupied-move_back [] k a b t h lo hi = absurd (omega arith)
occupied-move_back (u ∷ ts) k zero b t h lo hi = absurd (omega arith)
occupied-move_back (u ∷ ts) k (suc a) zero t h lo hi =
    occupied-set_past ts k a t (omega arith) (omega arith)
occupied-move_back (u ∷ ts) k (suc a) (suc b) t h lo hi =
    ap (u ∷◌) (occupied-move_back ts k a b t (omega arith) (omega arith) (omega arith))

-- A swap on the list of sessions: with a free cell it moves the session to the end.
abbrev pub swap_sessions : List Tile → ℕ → ℕ → List Tile
swap_sessions ts a b = elim (get_elem? ts a) [
  | none ↦ elim (get_elem? ts b) [ none ↦ ts | some u ↦ erase_idx ts b ++ u ∷ [] ]
  | some t ↦ elim (get_elem? ts b) [
    | none ↦ erase_idx ts a ++ t ∷ []
    | some u ↦ set (set ts a u) b t
  ]
]

-- The two cells read before the writes are those of the sessions.
pub occupied-swap :
    (ts : List Tile) (k a b : ℕ)
    → a < length (packed ts k)
    → b < length (packed ts k)
    → occupied (set (set (packed ts k) a (get_elem? ts b)) b (get_elem? ts a))
      ≡ swap_sessions ts a b
occupied-swap ts k a b ha hb = split (get_elem? ts a) (get_elem? ts b) refl refl
  where
    split :
        (p q : Option Tile)
        → get_elem? ts a ≡ p
        → get_elem? ts b ≡ q
        → occupied (set (set (packed ts k) a q) b p) ≡ elim p [
          | none ↦ elim q [ none ↦ ts | some u ↦ erase_idx ts b ++ u ∷ [] ]
          | some t ↦ elim q [ none ↦ erase_idx ts a ++ t ∷ [] | some u ↦ set (set ts a u) b t ]
        ]
    split none none p q =
        rw
          (
            set-none_past ts k a (le_of_get_elem?-none ts a p),
            set-none_past ts k b (le_of_get_elem?-none ts b q),
          )
          (occupied-packed ts k)
    split none (some u) p q =
        occupied-move_back ts k a b u (lt-length_of_get_elem? ts b q) (le_of_get_elem?-none ts a p)
          ha
    split (some t) none p q =
        occupied-move ts k a b t (lt-length_of_get_elem? ts a p) (le_of_get_elem?-none ts b q) hb
    split (some t) (some u) p q =
        rw
          (
            set-packed ts k a u (lt-length_of_get_elem? ts a p),
            set-packed (set ts a u) k b t
                (omega (arith, lt-length_of_get_elem? ts b q, length-set ts a u)),
          )
          (occupied-packed (set (set ts a u) b t) k)
