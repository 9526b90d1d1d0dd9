-- ===== src/Grid/Picker/Paths.antt =====
-- A place of the picker stands for the path that was meant, and going back undoes going down.
use mathlib.Core.List.{reverse, reverse_aux}
use multimux.Base.{
  ℕ, ◌≡◌, refl, sym, ap, ◌∙◌, ◌⊎◌, inl, inr, true, false, Option, none, some, List, [], ◌∷◌, ◌++◌,
  arith, ◌==◌, ==_iff, if◌then◌else◌, find?, All, Any, Bool-cases, by_true, by_false, some_inj,
  subst, Str,
}
use multimux.Grid.Types.{Dir}
use multimux.Grid.DirFilter.{trim_slashes, split_under_dir}
use multimux.Grid.DirFilter.Under.{Below, itself, inside, IsClosest, split_under_dir-IsClosest}
use multimux.Grid.Launcher.{join_path, is_none}
use multimux.Grid.Picker.Rows.{Place, Row, has_slash, join_subdir, drop_last, full_path, child_row}
use multimux.Grid.Picker.State.{
  Picker, Act, navigate, spot, place_of, parent, key_down, arrow_right, arrow_left, same_place,
}

abbrev pub DistinctIds : List Dir → Type 0
DistinctIds [] = Unit
DistinctIds (d ∷ ds) = All (λ e. ¬ (e.id ≡ d.id)) ds × DistinctIds ds

module _ {A : Type 0} (P : A → Type 0) where
  Any-reverse_aux : (xs ys : List A) → Any P (reverse_aux xs ys) → Any P xs ⊎ Any P ys
  Any-reverse_aux [] ys h = inr h
  Any-reverse_aux (x ∷ xs) ys h = elim (Any-reverse_aux xs (x ∷ ys) h) [
    | inl k ↦ inl (inr k)
    | inr (inl k) ↦ inl (inl k)
    | inr (inr k) ↦ inr k
  ]

  Any-reverse : (xs : List A) → Any P (reverse xs) → Any P xs
  Any-reverse xs h = elim (Any-reverse_aux xs [] h) [ inl k ↦ k | inr k ↦ absurd k ]

-- An id finds the directory that has it.
find_by_id :
    (P : Dir → Type 0) (id : ℕ) (dirs : List Dir)
    → DistinctIds dirs
    → Any (λ d. (d.id ≡ id) × P d) dirs
    → (d : Dir) × (find? (λ d. d.id == id) dirs ≡ some d) × P d
find_by_id P id [] u h = absurd h
find_by_id P id (d ∷ ds) (new, u) (inl (e, p)) = (d, rw ((==_iff d.id id).1 e) refl, p)
find_by_id P id (d ∷ ds) (new, u) (inr h) = elim (Bool-cases (d.id == id)) [
  | inl e ↦ absurd (clash ds new h ((==_iff d.id id).0 e))
  | inr e ↦ let (found, f, p) = find_by_id P id ds u h in (found, (rw e f), p)
]
  where
    clash :
        (ds : List Dir)
        → All (λ e. ¬ (e.id ≡ d.id)) ds
        → Any (λ e. (e.id ≡ id) × P e) ds
        → d.id ≡ id
        → ⊥
    clash [] n h q = h
    clash (e ∷ es) (n, ns) (inl (k, p)) q = n (k ∙ sym q)
    clash (e ∷ es) (n, ns) (inr h) q = clash es ns h q

no_end : (base : Str) → [] ≡ base ++ b'/' ∷ [] → ⊥
no_end [] h = cc
no_end (c ∷ base) h = cc

cons_tail : {a b : ℕ} {s t : Str} → a ∷ s ≡ b ∷ t → s ≡ t
cons_tail h = cc

-- No slash is left at the end.
trim_slashes-end : (s base : Str) → trim_slashes s ≡ base ++ b'/' ∷ [] → ⊥
unfolding trim_slashes
trim_slashes-end [] base h = no_end base h
trim_slashes-end (c ∷ s) base h = go (trim_slashes s) (λ b. trim_slashes-end s b) base h
  where
    go :
        (r : Str)
        → ((base : Str) → r ≡ base ++ b'/' ∷ [] → ⊥)
        → (base : Str)
        → elim r [ [] ↦ if c == b'/' then [] else c ∷ [] | d ∷ r ↦ c ∷ d ∷ r ] ≡ base ++ b'/' ∷ []
        → ⊥
    go [] e [] h = ground arith
    go [] e (b ∷ base) h = ground (arith, no_end base)
    go (d ∷ r) e [] h = cc
    go (d ∷ r) e (b ∷ base) h = e base (cons_tail h)

join_path-Below :
    (base : Str) (path subdir : Str)
    → Below (trim_slashes base) (trim_slashes path) subdir
    → join_path base subdir ≡ trim_slashes path
unfolding join_path
join_path-Below base path subdir (itself e f) = rw (f, e) refl
join_path-Below base path [] (inside e) = absurd (trim_slashes-end path (trim_slashes base) e)
join_path-Below base path (c ∷ subdir) (inside e) = sym e

-- The place that the picker opens at, or that a row offers for a directory in use, stands for the path
-- that was meant, less its slashes at the end; if no two configured directories have the same id.
pub full_path-split_under_dir :
    (dirs : List Dir) (path : Str) (at : Place)
    → DistinctIds dirs
    → split_under_dir dirs path ≡ some at
    → full_path dirs at ≡ trim_slashes path
unfolding full_path
full_path-split_under_dir dirs path at u e =
    let closest =
      subst (IsClosest (reverse dirs) (trim_slashes path)) e
        (split_under_dir-IsClosest dirs path) in
    let (d, found, below) =
      find_by_id (λ d. Below (trim_slashes d.path) (trim_slashes path) at.1) at.0 dirs u
        (Any-reverse _ dirs closest.0) in
    rw found (join_path-Below d.path path at.1 below)

drop_last-plain : (name : Str) → has_slash name ≡ false → drop_last name ≡ []
unfolding drop_last
drop_last-plain [] h = refl
drop_last-plain (c ∷ name) h = ground arith

has_slash-append : (s name : Str) → has_slash (s ++ b'/' ∷ name) ≡ true
has_slash-append [] name = refl
has_slash-append (c ∷ s) name = let rest = has_slash-append s name in ground arith

drop_last-append : (s name : Str) → has_slash name ≡ false → drop_last (s ++ b'/' ∷ name) ≡ s
unfolding drop_last
drop_last-append [] name h = rw h refl
drop_last-append (c ∷ s) name h =
    rw (has_slash-append s name) (ap (c ∷◌) (drop_last-append s name h))

-- The parent of a child
parent-child :
    (id : ℕ) (subdir name : Str)
    → is_none name ≡ false
    → has_slash name ≡ false
    → parent (id, join_subdir subdir name) ≡ some (id, subdir)
unfolding join_subdir
parent-child id [] [] e h = cc
parent-child id [] (c ∷ name) e h = ap (λ s. some (id, s)) (drop_last-plain (c ∷ name) h)
parent-child id (c ∷ subdir) name e h =
    ap (λ s. some (id, s)) (drop_last-append (c ∷ subdir) name h)

navigate-place : (p : Picker) (next : Option Place) → (navigate p next).0.place ≡ next
unfolding navigate
navigate-place p next = elim (Bool-cases (same_place p.place next)) [
  | inl e ↦ by_true (λ (r : Picker × List Act). r.0.place ≡ next) _ _ e refl
  | inr e ↦ by_false (λ (r : Picker × List Act). r.0.place ≡ next) _ _ e refl
]

-- Arrow right on the highlighted row goes to its place.
arrow_right-place :
    (p : Picker) (rows : List Row) (row : Row)
    → spot p rows ≡ some row
    → (key_down p rows arrow_right).0.place ≡ some (place_of row)
unfolding key_down
arrow_right-place p rows row h = go (spot p rows) h
  where
    go :
        (o : Option Row)
        → o ≡ some row
        → (elim o as (λ _. Picker × List Act) [
          | none ↦ (p, [])
          | some r ↦ navigate p (some (place_of r))
        ]).0.place
          ≡ some (place_of row)
    go none e = cc
    go (some r) e = navigate-place p (some (place_of r)) ∙ ap (λ x. some (place_of x)) (some_inj e)

arrow_left-place :
    (p : Picker) (rows : List Row) (at : Place)
    → p.place ≡ some at
    → (key_down p rows arrow_left).0.place ≡ parent at
unfolding key_down
arrow_left-place p rows at h = go p.place h
  where
    go :
        (o : Option Place)
        → o ≡ some at
        → (elim o as (λ _. Picker × List Act) [
          | none ↦ (p, [])
          | some a ↦ navigate p (parent a)
        ]).0.place
          ≡ parent at
    go none e = cc
    go (some a) e = navigate-place p (parent a) ∙ ap parent (some_inj e)

-- Arrow right on a highlighted child of a place and then arrow left, whatever rows are on screen by
-- then, lead back to the place, if the child's name is a name: not empty and without a slash.
pub arrow_left-returns :
    (p : Picker) (rows rows' : List Row) (at : Place) (name : Str)
    → is_none name ≡ false
    → has_slash name ≡ false
    → spot p rows ≡ some (child_row at name)
    → (key_down (key_down p rows arrow_right).0 rows' arrow_left).0.place ≡ some at
arrow_left-returns p rows rows' at name e h s =
    arrow_left-place _ rows' (place_of (child_row at name)) (arrow_right-place p rows _ s)
    ∙ parent-child at.0 at.1 name e h
