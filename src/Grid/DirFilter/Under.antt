-- ===== src/Grid/DirFilter/Under.antt =====
-- `splitUnderDir` finds the closest of the directories that contain a path.
use mathlib.Core.List.{foldl, reverse, reverse_aux}
use multimux.Base.{
  ℕ, suc, ◌≤◌, ◌≡◌, refl, sym, ap, ◌∙◌, inl, inr, true, false, Option, none, some, List, [], ◌∷◌,
  ◌++◌, if◌then◌else◌, ltb, arith, length, drop, All, Any, All-map, Str, str_eq, str_eq_iff,
  str_eq_refl, starts_with, codes, Option-cases, Bool-cases, some_inj,
}
use multimux.Grid.Types.{Dir}
use multimux.Grid.DirFilter.{trim_slashes, subdir_of, shorter, closer, split_under_dir}

-- `target` is `base`, or `base`, a slash and `subdir`.
pub data Below (base : Str) : Str → Str → Type 0 where
  itself : {target subdir : Str} → target ≡ base → subdir ≡ [] → Below base target subdir
  inside : {target subdir : Str} → target ≡ base ++ b'/' ∷ subdir → Below base target subdir

drop-starts_with :
    (p s : Str) → starts_with (p ++ codes "/") s ≡ true → s ≡ p ++ b'/' ∷ drop (suc (length p)) s
unfolding starts_with
drop-starts_with [] [] h = cc
drop-starts_with [] (c ∷ s) h = ground arith
drop-starts_with (a ∷ p) [] h = cc
drop-starts_with (a ∷ p) (c ∷ s) h = ground (arith, drop-starts_with p s)

starts_with-append :
    (p s : Str)
    → (starts_with (p ++ codes "/") (p ++ b'/' ∷ s) ≡ true)
      × (drop (suc (length p)) (p ++ b'/' ∷ s) ≡ s)
unfolding starts_with
starts_with-append [] s = (refl, refl)
starts_with-append (a ∷ p) s =
    (ground (arith, (starts_with-append p s).0), (starts_with-append p s).1)

subdir_of-Below :
    (target base : Str) (found : Option Str) {subdir : Str}
    → subdir_of target base ≡ found
    → found ≡ some subdir
    → Below base target subdir
unfolding subdir_of
subdir_of-Below target base found {subdir} e h = elim (Bool-cases (str_eq target base)) [
  | inl same ↦ itself ((str_eq_iff target base).0 same) (ground arith)
  | inr other ↦ elim (Bool-cases (starts_with (base ++ codes "/") target)) [
    | inl below ↦
        inside (drop-starts_with base target below ∙ ap (λ s. base ++ b'/' ∷ s) (ground arith))
    | inr apart ↦ absurd (ground arith)
  ]
]

str_eq-append : (base s : Str) (c : ℕ) → str_eq (base ++ c ∷ s) base ≡ false
unfolding str_eq
str_eq-append [] s c = refl
str_eq-append (a ∷ base) s c = ground (arith, str_eq-append base s c)

-- A path contains another in one way only.
Below-subdir_of :
    {base target subdir : Str} → Below base target subdir → subdir_of target base ≡ some subdir
unfolding subdir_of
Below-subdir_of {base} (itself e f) = rw (e, f, str_eq_refl base) refl
Below-subdir_of {base} (inside {subdir = subdir} e) =
    let (a, b) = starts_with-append base subdir in rw (e, str_eq-append base subdir b'/', a, b) refl

-- What the loop has found after the directories `dirs`: none of them contains the path, or `best` is
-- one of those that do, and no other leaves a shorter rest.
abbrev pub IsClosest : List Dir → Str → Option (ℕ × Str) → Type 0
IsClosest dirs target none = All (λ d. (s : Str) → ¬ Below (trim_slashes d.path) target s) dirs
IsClosest dirs target (some best) =
    Any (λ d. (d.id ≡ best.0) × Below (trim_slashes d.path) target best.1) dirs
    × All (λ d. (s : Str) → Below (trim_slashes d.path) target s → length best.1 ≤ length s) dirs

module _ (target : Str) where
  abbrev rest_of : Dir → Option Str
  rest_of d = subdir_of target (trim_slashes d.path)

  rest_unique : (d : Dir) {s : Str} → Below (trim_slashes d.path) target s → rest_of d ≡ some s
  rest_unique d b = Below-subdir_of b

  -- A round that finds nothing below `d` leaves the result, and `d` does not contain the path.
  closer-none : (best : Option (ℕ × Str)) (d : Dir) → rest_of d ≡ none → closer target best d ≡ best
  unfolding closer
  closer-none best d e = rw (e, closer) refl

  closer-some :
      (best : Option (ℕ × Str)) (d : Dir) (s : Str)
      → rest_of d ≡ some s
      → closer target best d ≡ (if shorter s best then some (d.id, s) else best)
  unfolding closer
  closer-some best d s e = rw (e, closer) refl

  -- `d` goes in front of those that the loop has seen.
  IsClosest-skip :
      (best : Option (ℕ × Str)) (d : Dir) (seen : List Dir)
      → rest_of d ≡ none
      → IsClosest seen target best
      → IsClosest (d ∷ seen) target best
  IsClosest-skip none d seen e h = (λ s b. absurd (cc (rest_unique d b)), h)
  IsClosest-skip (some best) d seen e (h, k) = (inr h, (λ s b. absurd (cc (rest_unique d b)), k))

  -- Any rest below `d` is `s`.
  rest_le :
      (d : Dir) (s : Str)
      → rest_of d ≡ some s
      → (s' : Str) → Below (trim_slashes d.path) target s'
      → length s ≤ length s'
  rest_le d s e s' b =
      let same : s ≡ s' = some_inj (sym e ∙ rest_unique d b) in rw same (omega arith)

  IsClosest-step :
      (best : Option (ℕ × Str)) (d : Dir) (s : Str) (seen : List Dir)
      → rest_of d ≡ some s
      → IsClosest seen target best
      → IsClosest (d ∷ seen) target (if shorter s best then some (d.id, s) else best)
  IsClosest-step none d s seen e h = (
    inl (refl, subdir_of-Below target _ (rest_of d) refl e),
    (rest_le d s e, All-map (λ f none_below s' b. absurd (none_below s' b)) seen h),
  )
  IsClosest-step (some best) d s seen e (h, k) =
      elim (Bool-cases (ltb (length s) (length best.1))) [
        | inl lt ↦ rw lt (
          inl (refl, subdir_of-Below target _ (rest_of d) refl e),
          (rest_le d s e, All-map (λ f le s' b. ground (arith, le s' b)) seen k),
        )
        | inr ge ↦ rw ge (inr h, ((λ s' b. ground (arith, rest_le d s e s' b)), k))
      ]

  closer-IsClosest :
      (best : Option (ℕ × Str)) (d : Dir) (seen : List Dir)
      → IsClosest seen target best
      → IsClosest (d ∷ seen) target (closer target best d)
  closer-IsClosest best d seen h = elim (Option-cases (rest_of d)) [
    | inl e ↦ rw (closer-none best d e) (IsClosest-skip best d seen e h)
    | inr (s, e) ↦ rw (closer-some best d s e) (IsClosest-step best d s seen e h)
  ]

  loop-IsClosest :
      (best : Option (ℕ × Str)) (dirs seen : List Dir)
      → IsClosest seen target best
      → IsClosest (reverse_aux dirs seen) target (foldl (closer target) best dirs)
  loop-IsClosest best [] seen h = h
  loop-IsClosest best (d ∷ dirs) seen h =
      loop-IsClosest (closer target best d) dirs (d ∷ seen) (closer-IsClosest best d seen h)

-- `splitUnderDir` gives a directory that contains the path, with the rest of the path below it; no
-- directory that contains the path leaves a shorter rest. It gives nothing exactly if none does.
pub split_under_dir-IsClosest :
    (dirs : List Dir) (path : Str)
    → IsClosest (reverse dirs) (trim_slashes path) (split_under_dir dirs path)
unfolding split_under_dir
split_under_dir-IsClosest dirs path = loop-IsClosest (trim_slashes path) none dirs [] tt
