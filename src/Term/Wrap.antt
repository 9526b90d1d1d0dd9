-- ===== src/Term/Wrap.antt =====
-- Rows that belong to one line, and copying a selection: term/wrap.ts.
--
-- xterm's buffer is a list of lines of cells. Its `translateToString` is a parameter, with the line,
-- whether it trims the end, and the columns from which and up to which it reads.
pub mod Copied
mod Tests
use multimux.Base.{
  ℕ, zero, suc, ◌+◌, ◌-◌, min, Bool, true, false, not, ◌&&◌, ◌||◌, Option, none, some, List, [],
  ◌∷◌, ◌++◌, if◌then◌else◌, ◌==◌, ltb, length, get_elem?, Str, str_eq, codes, trim_start, trim_end,
}
use multimux.Term.Unwrap.{Join, apart, space, glue, may_join, soft_break}

pub record Cell : Type 0 where
  pub chars : Str
  pub width : ℕ

pub record Line : Type 0 where
  pub cells : List Cell
  pub is_wrapped : Bool

-- The active buffer, and the terminal's columns
pub record Terminal : Type 0 where
  pub lines : List Line
  pub cols : ℕ

-- `translateToString`
abbrev pub Translate : Type 0
Translate = Line → Bool → ℕ → ℕ → Str

unfoldable pub row_width : Terminal → Line → ℕ
row_width term line = min (length line.cells) term.cols

unfoldable pub is_filled : Option Cell → Bool
is_filled none = false
is_filled (some cell) = elim cell.chars [
  | [] ↦ cell.width == 0
  | c ∷ s ↦ not (str_eq (c ∷ s) (codes " "))
]

-- The cell at `width - k`, which is none before the first
abbrev cell_before : Line → ℕ → ℕ → Option Cell
cell_before line width k = if ltb width k then none else get_elem? line.cells (width - k)

-- The places of a selection; the end's column is exclusive.
pub record Range : Type 0 where
  pub start_x : ℕ
  pub start_y : ℕ
  pub end_x : ℕ
  pub end_y : ℕ

-- `"wrapped" | Join`
pub data Break : Type 0 where
  wrapped : Break
  joined : Join → Break

abbrev pub is_wrap : Break → Bool
is_wrap wrapped = true
is_wrap (joined j) = false

-- Whether an application's wrap follows, whose padding goes
abbrev pub is_soft : Break → Bool
is_soft wrapped = false
is_soft (joined apart) = false
is_soft (joined space) = true
is_soft (joined glue) = true

module _ (translate : Translate) where
  unfoldable pub row_text : Terminal → Line → Str
  row_text term line = translate line true 0 (row_width term line)

  -- Of a line and the one below it
  abbrev pub runs_on : Terminal → Line → Line → Bool
  runs_on term line next =
      let text = row_text term next in
      let width = row_width term line in
      if next.is_wrapped
      then true
      else if length text == 0
      then false
      else if is_filled (cell_before line width 1)
      then true
      else is_filled (cell_before line width 2)
        && is_filled (get_elem? next.cells 0)
        && may_join (row_text term line) text

  unfoldable pub is_continued : Terminal → ℕ → Bool
  is_continued term row = elim (get_elem? term.lines row) [
    | none ↦ false
    | some line ↦ elim (get_elem? term.lines (row + 1)) [
      | none ↦ false
      | some next ↦ runs_on term line next
    ]
  ]

  unfoldable pub row_break : Terminal → ℕ → Break
  row_break term y =
      if is_continued term y
      then wrapped
      else joined (elim (get_elem? term.lines y) [
        | none ↦ apart
        | some line ↦ elim (get_elem? term.lines (y + 1)) [
          | none ↦ apart
          | some next ↦ soft_break (row_text term line) (row_text term next) term.cols
        ]
      ])

  -- The columns of a row that a range selects
  abbrev pub from_col : Range → ℕ → ℕ
  from_col range y = if y == range.start_y then range.start_x else 0

  abbrev pub to_col : Terminal → Range → ℕ → Line → ℕ
  to_col term range y line =
      let width = row_width term line in if y == range.end_y then min range.end_x width else width

  abbrev pub break_after : Terminal → Range → ℕ → Break
  break_after term range y = if ltb y range.end_y then row_break term y else joined apart

  -- What a row adds, less what follows it
  abbrev pub piece : Terminal → Range → ℕ → Line → Break → Bool → Str
  piece term range y line sep strip =
      let text = translate line (not (is_wrap sep)) (from_col range y) (to_col term range y line) in
      let start = if strip then trim_start text else text in
      if is_soft sep then trim_end start else start

  abbrev pub separator : Bool → Break → Str
  separator inner wrapped = []
  separator inner (joined apart) = if inner then 10 ∷ [] else []
  separator inner (joined space) = codes " "
  separator inner (joined glue) = []

  -- The loop for `n` rows from row `y` on, with `stripIndent`
  unfoldable pub select_rows : Terminal → Range → ℕ → ℕ → Bool → Str
  select_rows term range zero y strip = []
  select_rows term range (suc n) y strip =
      let sep = break_after term range y in
      let skipped = select_rows term range n (y + 1) strip in
      let after = select_rows term range n (y + 1) (is_soft sep) in
      elim (get_elem? term.lines y) [
        | none ↦ skipped
        | some line ↦
            piece term range y line sep strip ++ (separator (ltb y range.end_y) sep ++ after)
      ]

  unfoldable pub selection_to_text : Terminal → Range → Str
  selection_to_text term range =
      select_rows term range (range.end_y + 1 - range.start_y) range.start_y false

  -- The range is none where the terminal has no `getSelectionPosition` or nothing is selected; the
  -- other text is `getSelection`'s.
  unfoldable pub selected_text : Terminal → Option Range → Str → Str
  selected_text term none selection = selection
  selected_text term (some range) selection = selection_to_text term range
