-- ===== src/Grid/View/Overlays/Ranks.antt =====
-- The order of an overlay, by the places of its keys, and the ranks that grid/viewLayout.ts sorts by.
use multimux.Base.{
  ℕ, some_inj, All-map, ◌+◌, ◌≤◌, ◌≡◌, refl, sym, ap, ◌∙◌, Bool, true, false, none, some, List, [],
  ◌∷◌, Option, any, ◌&&◌, ◌||◌, if◌then◌else◌, leb, str_eq, Bool-cases, inl, inr, arith, Str,
  is_some, not,
}
use multimux.Base.Sort.{IsSorted}
use multimux.Grid.Model.{Tile}
use multimux.Grid.View.{tile_key, rank_from, after_in, rank_after}

-- The key stands in the list.
abbrev pub within : List Str → Str → Bool
within order key = any (λ k. str_eq k key) order

-- The list from the last place of the key on.
unfoldable pub from_last : Str → List Str → List Str
from_last key [] = []
from_last key (k ∷ order) =
    let later = from_last key order in
    if within order key then later else if str_eq k key then k ∷ order else []

-- The overlay names the tile.
abbrev pub named : List Str → Tile × ℕ → Bool
named order p = within order (tile_key p.0)

-- The first tile does not belong in front of the second: the overlay names the second, and it does
-- not name the first, or not in front of the second. A key counts at its last place.
abbrev pub misplaced : List Str → Tile × ℕ → Tile × ℕ → Bool
misplaced order a b =
    named order b
    && (not (named order a) || not (within (from_last (tile_key a.0) order) (tile_key b.0)))

within-rank :
    (i : ℕ) (order : List Str) (key : Str) → within order key ≡ is_some (rank_from i order key)
unfolding rank_from
within-rank i [] key = refl
within-rank i (k ∷ order) key = ground (arith, within-rank (i + 1) order key)

-- The rank in a longer list, from that in the rest.
abbrev rank_before : ℕ → Str → Str → Option ℕ → Option ℕ
rank_before i k key o = elim o as (λ _. Option ℕ) [
  | some j ↦ some j
  | none ↦ if str_eq k key then some i else none
]

rank_before-none :
    (i r : ℕ) (k key : Str) → rank_before i k key none ≡ some r → (str_eq k key ≡ true) × (i ≡ r)
rank_before-none i r k key e = elim (Bool-cases (str_eq k key)) [
  | inl q ↦ (q, some_inj (rw q at e))
  | inr q ↦ absurd (ground arith)
]

rank_from_ge : (i r : ℕ) (order : List Str) (key : Str) → rank_from i order key ≡ some r → i ≤ r
unfolding rank_from
rank_from_ge i r [] key e = cc
rank_from_ge i r (k ∷ order) key e =
    go (rank_from (i + 1) order key) (λ q. rank_from_ge (i + 1) q order key) e
  where
    go :
        (o : Option ℕ) → ((q : ℕ) → o ≡ some q → i + 1 ≤ q) → rank_before i k key o ≡ some r → i ≤ r
    go none later f = let (_, h) = rank_before-none i r k key f in omega arith
    go (some q) later f = let h = later q refl in let same = some_inj f in omega arith

within-from_last :
    (a b : Str) (order : List Str) → within order b ≡ false → within (from_last a order) b ≡ false
unfolding from_last
within-from_last a b [] h = refl
within-from_last a b (k ∷ order) h = ground (arith, within-from_last a b order)

from_last-later :
    (key k : Str) (order : List Str)
    → within order key ≡ true
    → from_last key (k ∷ order) ≡ from_last key order
unfolding from_last
from_last-later key k order h = rw h refl

from_last-here :
    (key k : Str) (order : List Str)
    → within order key ≡ false
    → str_eq k key ≡ true
    → from_last key (k ∷ order) ≡ k ∷ order
unfolding from_last
from_last-here key k order h e = rw (h, e) refl

-- Behind the last place of a key stand the keys of no smaller rank.
within-le :
    (i r s : ℕ) (a b : Str) (order : List Str)
    → rank_from i order a ≡ some r
    → rank_from i order b ≡ some s
    → within (from_last a order) b ≡ leb r s
unfolding rank_from
within-le i r s a b [] e f = cc
within-le i r s a b (k ∷ order) e f =
    go (rank_from (i + 1) order a) (rank_from (i + 1) order b) refl refl
      (λ p q. within-le (i + 1) p q a b order) e f
  where
    go :
        (o p : Option ℕ)
        → rank_from (i + 1) order a ≡ o
        → rank_from (i + 1) order b ≡ p
        → ((r' s' : ℕ)
            → rank_from (i + 1) order a ≡ some r'
            → rank_from (i + 1) order b ≡ some s'
            → within (from_last a order) b ≡ leb r' s')
        → rank_before i k a o ≡ some r
        → rank_before i k b p ≡ some s
        → within (from_last a (k ∷ order)) b ≡ leb r s
    go (some r') (some s') u v ih g h =
        ap (λ l. within l b)
          (from_last-later a k order (within-rank (i + 1) order a ∙ ap is_some u))
        ∙ ih r' s' u v
        ∙ rw (some_inj g, some_inj h) refl
    go (some r') none u v ih g h =
        let low = rank_from_ge (i + 1) r' order a u in
        let same = some_inj g in
        let (_, here) = rank_before-none i s k b h in
        ap (λ l. within l b)
          (from_last-later a k order (within-rank (i + 1) order a ∙ ap is_some u))
        ∙ within-from_last a b order (within-rank (i + 1) order b ∙ ap is_some v)
        ∙ ground arith
    go none p u v ih g h =
        let (eq, here) = rank_before-none i r k a g in
        let low = rank_from_ge i s (k ∷ order) b (ap (rank_before i k b) v ∙ h) in
        ap (λ l. within l b)
          (from_last-here a k order (within-rank (i + 1) order a ∙ ap is_some u) eq)
        ∙ within-rank i (k ∷ order) b
        ∙ ap is_some (ap (rank_before i k b) v ∙ h)
        ∙ ground arith

-- The comparison says which tiles are misplaced.
after_in-misplaced : (order : List Str) (x y : Tile × ℕ) → after_in order x y ≡ misplaced order x y
unfolding after_in
after_in-misplaced order x y =
    go (rank_from 0 order (tile_key x.0)) (rank_from 0 order (tile_key y.0)) refl refl
  where
    go :
        (o p : Option ℕ)
        → rank_from 0 order (tile_key x.0) ≡ o
        → rank_from 0 order (tile_key y.0) ≡ p
        → rank_after o p ≡ misplaced order x y
    go none none e f = rw (within-rank 0 order (tile_key y.0), f) refl
    go none (some s) e f =
        rw (within-rank 0 order (tile_key x.0), within-rank 0 order (tile_key y.0), e, f) refl
    go (some r) none e f = rw (within-rank 0 order (tile_key y.0), f) refl
    go (some r) (some s) e f =
        rw
          (
            within-le 0 r s (tile_key x.0) (tile_key y.0) order e f,
            within-rank 0 order (tile_key x.0),
            within-rank 0 order (tile_key y.0),
            e,
            f,
          )
          (ground arith)

pub after-asym :
    (order : List Str) (x y : Tile × ℕ) → after_in order x y ≡ true → after_in order y x ≡ false
unfolding after_in
after-asym order x y h = ground arith

pub after-chain :
    (order : List Str) (x y z : Tile × ℕ)
    → after_in order x y ≡ false
    → after_in order y z ≡ false
    → after_in order x z ≡ false
unfolding after_in
after-chain order x y z h k = ground arith

pub unnamed-same :
    (order : List Str) (x y : Tile × ℕ)
    → not (named order x) ≡ true
    → not (named order y) ≡ true
    → after_in order x y ≡ false
unnamed-same order x y h k = after_in-misplaced order x y ∙ ground arith

pub IsSorted-misplaced :
    (order : List Str) (ps : List (Tile × ℕ))
    → IsSorted (after_in order) ps
    → IsSorted (misplaced order) ps
IsSorted-misplaced order [] h = tt
IsSorted-misplaced order (p ∷ ps) (h, k) =
    (All-map (λ q e. sym (after_in-misplaced order p q) ∙ e) ps h, IsSorted-misplaced order ps k)
