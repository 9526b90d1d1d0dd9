-- ===== src/Term/Wrap/Copied.antt =====
-- Copying a selection leaves no text out and adds none.
use multimux.Base.{ℕ, zero, suc, ◌+◌, ◌≡◌, true, false, none, some, [], ◌++◌, get_elem?, Str}
use multimux.Term.Unwrap.Ink.{ink}
use multimux.Term.Wrap.{Line, Terminal, Translate, Range, from_col, to_col}

-- Trimming the end of a row takes white space away only.
abbrev pub TrimsBlanks : Translate → Type 0
TrimsBlanks translate =
    (l : Line) (a b : ℕ) → ink (translate l true a b) ≡ ink (translate l false a b)

module _ (translate : Translate) where
  -- The text of the selected cells of a row, as they are
  abbrev pub cells_of : Terminal → Range → ℕ → Line → Str
  cells_of term range y line =
      translate line false (from_col translate range y) (to_col translate term range y line)

  -- Of `n` rows from row `y` on, one after the other
  abbrev pub cells_from : Terminal → Range → ℕ → ℕ → Str
  cells_from term range zero y = []
  cells_from term range (suc n) y =
      let rest = cells_from term range n (y + 1) in
      elim (get_elem? term.lines y) [ none ↦ rest | some line ↦ cells_of term range y line ++ rest ]
