-- ===== src/Term/Unwrap/Ink.antt =====
-- What unwrapping leaves alone.
use multimux.Base.{
  ℕ, ◌≡◌, refl, sym, ap, ◌∙◌, inl, inr, true, not, Option, none, some, List, [], ◌∷◌, ◌++◌,
  if◌then◌else◌, ◌==◌, arith, filter, filter-append, append_assoc, append-nil, Bool-cases, Str,
  is_space, trim_start, trim_end,
}
use multimux.Term.Unwrap.{
  Join, apart, space, glue, soft_break, split_rows, joined_by, unwrap_rows, unwrap_text,
}

-- A text less its white space
abbrev pub ink : Str → Str
ink = filter (λ c. not (is_space c))

abbrev ink_of_rows : List Str → Str
ink_of_rows [] = []
ink_of_rows (row ∷ rows) = ink row ++ ink_of_rows rows

pub ink-append : (s t : Str) → ink (s ++ t) ≡ ink s ++ ink t
ink-append s t = filter-append (λ c. not (is_space c)) s t

pub ink-trim_start : (s : Str) → ink (trim_start s) ≡ ink s
unfolding trim_start
ink-trim_start [] = refl
ink-trim_start (c ∷ s) = elim (Bool-cases (is_space c)) [
  | inl e ↦ rw e (ink-trim_start s)
  | inr e ↦ rw e (rw e refl)
]

pub ink-trim_end : (s : Str) → ink (trim_end s) ≡ ink s
unfolding trim_end
ink-trim_end [] = refl
ink-trim_end (c ∷ s) = go (trim_end s) (ink-trim_end s)
  where
    go :
        (t : Str)
        → ink t ≡ ink s
        → ink (elim t [ [] ↦ if is_space c then [] else c ∷ [] | d ∷ u ↦ c ∷ d ∷ u ]) ≡ ink (c ∷ s)
    go [] h = elim (Bool-cases (is_space c)) [ inl e ↦ rw e h | inr e ↦ rw e (rw e (ap (c ∷◌) h)) ]
    go (d ∷ u) h = elim (Bool-cases (is_space c)) [ inl e ↦ rw e h | inr e ↦ rw e (ap (c ∷◌) h) ]

pub ink-newline : is_space 10 ≡ true
unfolding is_space
ink-newline = refl

pub ink-blank : is_space 32 ≡ true
unfolding is_space
ink-blank = refl

ink-joined_by : (j : Join) (out row : Str) → ink (joined_by j out row) ≡ ink out ++ ink row
unfolding joined_by
ink-joined_by apart out row = rw (ink-append out (10 ∷ row), ink-newline) refl
ink-joined_by space out row =
    rw
      (
        ink-append (trim_end out) (32 ∷ trim_start row),
        ink-blank,
        ink-trim_end out,
        ink-trim_start row,
      )
      refl
ink-joined_by glue out row =
    rw (ink-append (trim_end out) (trim_start row), ink-trim_end out, ink-trim_start row) refl

ink-unwrap_rows :
    (cols : ℕ) (out last : Str) (rows : List Str)
    → ink (unwrap_rows cols out last rows) ≡ ink out ++ ink_of_rows rows
unfolding unwrap_rows
ink-unwrap_rows cols out last [] = sym (append-nil (ink out))
ink-unwrap_rows cols out last (row ∷ rows) =
    let j = soft_break last row cols in
    ink-unwrap_rows cols (joined_by j out row) row rows
    ∙ ap (λ x. x ++ ink_of_rows rows) (ink-joined_by j out row)
    ∙ append_assoc (ink out) (ink row) (ink_of_rows rows)

newline-is_space : (c : ℕ) → (c == 10) ≡ true → is_space c ≡ true
unfolding is_space
newline-is_space c e = ground arith

ink-split_rows : (s : Str) → ink (split_rows s).0 ++ ink_of_rows (split_rows s).1 ≡ ink s
unfolding split_rows
ink-split_rows [] = refl
ink-split_rows (c ∷ s) = elim (Bool-cases (c == 10)) [
  | inl e ↦ rw (e, newline-is_space c e) (ink-split_rows s)
  | inr e ↦ elim (Bool-cases (is_space c)) [
    | inl f ↦ rw (e, f) (ink-split_rows s)
    | inr f ↦ rw (e, f) (ap (c ∷◌) (ink-split_rows s))
  ]
]

-- Whatever the width, unwrapping changes white space only.
pub ink-unwrap_text : (text : Str) (cols : Option ℕ) → ink (unwrap_text text cols) ≡ ink text
unfolding unwrap_text
ink-unwrap_text text none = refl
ink-unwrap_text text (some cols) =
    ink-unwrap_rows cols (split_rows text).0 (split_rows text).0 (split_rows text).1
    ∙ ink-split_rows text
