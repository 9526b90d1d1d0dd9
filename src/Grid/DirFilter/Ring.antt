-- ===== src/Grid/DirFilter/Ring.antt =====
-- `cycleSolo` walks a ring.

use native.Mathlib.Nat.{zero-mod, mod-lt, add-mod_right, mod-eq_of_lt, mod-add-mod, mod_self}
use multimux.Base.{
  ℕ, zero, suc, ◌+◌, ◌-◌, ◌%◌, ◌<◌, ◌≡◌, ◌≢◌, refl, sym, ap, ◌∙◌, inl, inr, true, false, Option,
  none, some, List, [], ◌∷◌, map, if◌then◌else◌, ◌==◌, ==_iff, arith, length, get_elem?, find_idx?,
  All, some_inj, Str, str_eq, str_eq_iff, str_eq_refl, Bool-cases, lt-length_of_get_elem?,
  get_elem?_of_lt,
}
use multimux.Grid.DirFilter.{
  DirButton, Step, forward, back, same_solo, ring_of, moved, slot_of_solo, at_slot, cycle_solo,
  effective_solo, has_button,
}

moved_forward : (i n : ℕ) → i < n → moved i forward n ≡ (if i + 1 == n then 0 else i + 1)
moved_forward i n h = rw (add-mod_right (i + 1) n) (elim (Bool-cases (i + 1 == n)) [
  | inl e ↦ rw e (ap (λ m. m % n) ((==_iff _ _).0 e) ∙ mod_self n)
  | inr e ↦ rw e (mod-eq_of_lt (ground arith))
])

moved_back : (i n : ℕ) → i < n → moved i back n ≡ (if i == 0 then n - 1 else i - 1)
moved_back i n h = elim (Bool-cases (i == 0)) [
  | inl e ↦ rw e (ap (λ m. m % n) (ground arith) ∙ mod-eq_of_lt (ground arith))
  | inr e ↦
      rw e (ap (λ m. m % n) (ground arith) ∙ add-mod_right (i - 1) n ∙ mod-eq_of_lt (omega arith))
]

moved_lt : (i n : ℕ) → i < n → moved i forward n < n
moved_lt i n h = rw (moved_forward i n h) (ground arith)

moved_wrap : (i n : ℕ) → i < n → moved (moved i forward n) back n ≡ i
moved_wrap i n h = rw (moved_forward i n h) (ground (arith, moved_back 0 n, moved_back (i + 1) n))

moved-mod : (k n : ℕ) → moved (k % n) forward n ≡ (k + 1) % n
moved-mod k n = add-mod_right (k % n + 1) n ∙ mod-add-mod k n 1

-- No two buttons have one path.
abbrev pub DistinctPaths : List DirButton → Type 0
DistinctPaths [] = Unit
DistinctPaths (d ∷ dirs) = All (λ e. d.path ≢ e.path) dirs × DistinctPaths dirs

same_solo_refl : (s : Option Str) → same_solo s s ≡ true
unfolding same_solo
same_solo_refl none = refl
same_solo_refl (some s) = str_eq_refl s

abbrev paths_of : List DirButton → List (Option Str)
paths_of dirs = map (λ d. some d.path) dirs

-- A path is found at its own place.
find_idx?-paths :
    (dirs : List DirButton) (i : ℕ) (s : Option Str)
    → DistinctPaths dirs
    → get_elem? (paths_of dirs) i ≡ some s
    → find_idx? (λ t. same_solo t s) (paths_of dirs) ≡ some i
unfolding same_solo
find_idx?-paths [] i s h e = cc
find_idx?-paths (d ∷ dirs) zero s h e = rw (← some_inj e, same_solo_refl (some d.path)) refl
find_idx?-paths (d ∷ dirs) (suc i) s (h, k) e =
    rw (other d dirs i s h e, find_idx?-paths dirs i s k e) refl
  where
    other :
        (d' : DirButton) (ds : List DirButton) (j : ℕ) (s' : Option Str)
        → All (λ c. d'.path ≢ c.path) ds
        → get_elem? (paths_of ds) j ≡ some s'
        → same_solo (some d'.path) s' ≡ false
    other d' [] j s' a q = cc
    other d' (c ∷ ds) zero s' (ne, a) q =
        rw (← some_inj q) (ground (arith, str_eq_iff d'.path c.path))
    other d' (c ∷ ds) (suc j) s' (ne, a) q = other d' ds j s' a q

paths-ne-none : (dirs : List DirButton) (i : ℕ) → get_elem? (paths_of dirs) i ≢ some none
paths-ne-none [] i = cc
paths-ne-none (d ∷ dirs) zero = cc
paths-ne-none (d ∷ dirs) (suc i) = paths-ne-none dirs i

-- Every slot of the ring is found at its own place, the first one too.
slot_of_solo-ring :
    (dirs : List DirButton) (i : ℕ) (s : Option Str)
    → DistinctPaths dirs
    → get_elem? (ring_of dirs) i ≡ some s
    → slot_of_solo (ring_of dirs) s ≡ i
unfolding slot_of_solo same_solo
slot_of_solo-ring dirs zero s h e = rw (← some_inj e) refl
slot_of_solo-ring dirs (suc i) none h e = absurd (paths-ne-none dirs i e)
slot_of_solo-ring dirs (suc i) (some p) h e = rw (find_idx?-paths dirs i (some p) h e) refl

-- One step of the walk, between slots.
cycle-slot :
    (d : DirButton) (dirs : List DirButton) (i : ℕ) (step : Step) (s : Option Str)
    → DistinctPaths (d ∷ dirs)
    → get_elem? (ring_of (d ∷ dirs)) i ≡ some s
    → cycle_solo s (d ∷ dirs) step
      ≡ at_slot (get_elem? (ring_of (d ∷ dirs)) (moved i step (length (ring_of (d ∷ dirs)))))
unfolding cycle_solo
cycle-slot d dirs i step s h e = rw (slot_of_solo-ring (d ∷ dirs) i s h e) refl

at_slot-get :
    (ring : List (Option Str)) (i : ℕ) {s : Option Str}
    → get_elem? ring i ≡ some s
    → at_slot (get_elem? ring i) ≡ s
at_slot-get ring i e = rw e refl

-- A filter that is in effect has its slot.
slot_of_effective :
    (solo : Option Str) (dirs : List DirButton)
    → effective_solo solo dirs ≡ solo
    → (i : ℕ) × (get_elem? (ring_of dirs) i ≡ some solo)
unfolding effective_solo
slot_of_effective none dirs h = (0, refl)
slot_of_effective (some p) dirs h = let (i, e) = find dirs (ground arith) in (suc i, e)
  where
    find :
        (ds : List DirButton)
        → has_button ds p ≡ true
        → (i : ℕ) × (get_elem? (paths_of ds) i ≡ some (some p))
    find [] q = cc
    find (d ∷ ds) q = elim (Bool-cases (str_eq d.path p)) [
      | inl same ↦ (0, ap (λ r. some (some r)) ((str_eq_iff d.path p).0 same))
      | inr other ↦ let (i, e) = find ds (ground arith) in (suc i, e)
    ]

module _ (d : DirButton) (dirs : List DirButton) (h : DistinctPaths (d ∷ dirs)) where
  abbrev size : ℕ
  size = length (ring_of (d ∷ dirs))

  cycle_back :
      (i : ℕ) (s : Option Str)
      → get_elem? (ring_of (d ∷ dirs)) i ≡ some s
      → cycle_solo (cycle_solo s (d ∷ dirs) forward) (d ∷ dirs) back ≡ s
  cycle_back i s e =
      let ring = ring_of (d ∷ dirs) in
      let lt = lt-length_of_get_elem? ring i e in
      let (s', e') = get_elem?_of_lt ring (moved i forward size) (moved_lt i size lt) in
      rw
        (
          cycle-slot d dirs i forward s h e,
          at_slot-get ring (moved i forward size) e',
          cycle-slot d dirs (moved i forward size) back s' h e',
          moved_wrap i size lt,
        )
        (at_slot-get ring i e)

  -- A step forward and a step back give the filter back, whichever directory is shown, or all of
  -- them. The filter is in effect, and no two buttons have one path.
  cycle_solo_back :
      (solo : Option Str)
      → effective_solo solo (d ∷ dirs) ≡ solo
      → cycle_solo (cycle_solo solo (d ∷ dirs) forward) (d ∷ dirs) back ≡ solo
  cycle_solo_back solo e = let (i, at) = slot_of_effective solo (d ∷ dirs) e in cycle_back i solo at

  -- So many steps forward from the unfiltered grid.
  unfoldable pub walk : ℕ → Option Str
  walk zero = none
  walk (suc k) = cycle_solo (walk k) (d ∷ dirs) forward

  -- Where there is a directory button and no two have one path, the walk passes every slot in turn:
  -- `k` steps from the unfiltered grid reach slot `k` modulo the number of slots.
  pub walk-slot : (k : ℕ) → get_elem? (ring_of (d ∷ dirs)) (k % size) ≡ some (walk k)
  unfolding walk
  walk-slot zero = rw (zero-mod size) refl
  walk-slot (suc k) =
      let ring = ring_of (d ∷ dirs) in
      let (s, e) = get_elem?_of_lt ring (suc k % size) (mod-lt (suc k) (omega arith)) in
      e
      ∙ ap some (
          sym (
            cycle-slot d dirs (k % size) forward (walk k) h (walk-slot k)
            ∙ ap (λ j. at_slot (get_elem? ring j))
                (moved-mod k size ∙ ap (λ j. j % size) (omega arith))
            ∙ at_slot-get ring (suc k % size) e))
