-- ===== src/Term/Wrap/Tests.antt =====
-- Copying at work: a line that the terminal wrapped, and one that an application wrapped.
use multimux.Base.{
  ◌-◌, ◌≡◌, refl, false, List, [], ◌∷◌, ◌++◌, map, if◌then◌else◌, take, drop, Str, str_eq, codes,
  trim, trim_start, trim_end, is_space,
}
use multimux.Term.Unwrap.{soft_break}
use multimux.Term.Wrap.{
  Cell, Line, Terminal, Translate, Range, row_width, is_filled, row_text, is_continued, row_break,
  select_rows, selection_to_text,
}

abbrev chars_of : List Cell → Str
chars_of [] = []
chars_of (c ∷ cs) = c.chars ++ chars_of cs

abbrev read_cells : Translate
read_cells line trims a b =
    let text = chars_of (take (b - a) (drop a line.cells)) in if trims then trim_end text else text

abbrev line_of : Str → Line
line_of s = record { cells = map (λ c. record { chars = c ∷ []; width = 1 }) s; is_wrapped = false }

abbrev narrow : Terminal
narrow = record {
  lines = line_of (codes "abcd") ∷ line_of (codes "ef  ") ∷ line_of (codes "g   ") ∷ [];
  cols = 4;
}

abbrev all_rows : Range
all_rows = record { start_x = 1; start_y = 0; end_x = 1; end_y = 2 }

-- The full row runs on, and the short one ends a line.
copied : selection_to_text read_cells narrow all_rows ≡ codes "bcdef" ++ 10 ∷ codes "g"
unfolding selection_to_text select_rows row_break is_continued row_width row_text is_filled
    soft_break trim trim_start trim_end is_space str_eq
copied = refl
