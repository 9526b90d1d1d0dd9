-- ===== src/Term/Links/Stops.antt =====
-- The loops that look for a block's rows come to their ends.
use multimux.Base.{
  ℕ, zero, suc, ◌+◌, ◌-◌, ◌*◌, ◌≤◌, ◌≡◌, refl, inl, inr, Bool, false, ◌&&◌, arith, ltb, length,
  get_elem?_of_le, by_true, by_false, Bool-cases,
}
use multimux.Term.Wrap.{Terminal, Translate, is_continued}
use multimux.Term.Links.{bottom_of}

module _ (translate : Translate) (term : Terminal) where
  is_continued-past : (row : ℕ) → length term.lines ≤ row → is_continued translate term row ≡ false
  unfolding is_continued
  is_continued-past row h = rw (get_elem?_of_le term.lines row h, is_continued) refl

  -- The condition of the loop that goes down
  abbrev goes_on : ℕ → ℕ → Bool
  goes_on row bottom = is_continued translate term bottom && ltb ((bottom - row) * term.cols) 2048

  -- As many steps as there are rows are enough for the loop of `bottom`: where it ends, its condition
  -- is false.
  bottom_of-stops :
      (row n bottom : ℕ)
      → length term.lines ≤ bottom + n
      → goes_on row (bottom_of translate term row n bottom) ≡ false
  unfolding bottom_of
  bottom_of-stops row zero bottom h =
      let past = is_continued-past bottom (omega (arith, h)) in rw past refl
  bottom_of-stops row (suc n) bottom h =
      let rest = bottom_of-stops row n (bottom + 1) (omega (arith, h)) in
      elim (Bool-cases (goes_on row bottom)) [
        | inl e ↦
            by_true (λ b. goes_on row b ≡ false) (bottom_of translate term row n (bottom + 1))
              bottom e rest
        | inr e ↦
            by_false (λ b. goes_on row b ≡ false) (bottom_of translate term row n (bottom + 1))
              bottom e e
      ]
