-- ===== src/Term/Links/Tests.antt =====
-- Links at work: an address that the edge of the screen cuts in two.
use multimux.Base.{
  ℕ, ◌≡◌, refl, false, Option, some, List, [], ◌∷◌, ◌++◌, map, All, Str, str_eq, codes, trim_end,
  is_space, starts_with,
}
use multimux.Term.Wrap.{
  Cell, Line, Terminal, Translate, row_width, is_filled, row_text, is_continued,
}
use multimux.Term.Links.{
  Url, shown, row_units, block_units, top_of, bottom_of, text_of, read_block, is_url, links_of,
  compute_links,
}
use multimux.Term.Links.Ranges.{IsPlaced, compute_links-IsPlaced}

abbrev chars_of : List Cell → Str
chars_of [] = []
chars_of (c ∷ cs) = c.chars ++ chars_of cs

-- The whole line, which is all that these tests read
abbrev whole_line : Translate
whole_line line trims a b = trim_end (chars_of line.cells)

abbrev line_of : Str → Line
line_of s = record { cells = map (λ c. record { chars = c ∷ []; width = 1 }) s; is_wrapped = false }

abbrev two_rows : Terminal
two_rows = record { lines = line_of (codes "a ht:") ∷ line_of (codes "//b  ") ∷ []; cols = 5 }

-- The address is known beforehand.
abbrev address : Str → List (ℕ × Str)
address text = (2, codes "ht://b") ∷ []

abbrev parsed : Str → Option Url
parsed s = some (record { protocol = codes "ht:"; username = []; password = []; host = codes "b" })

abbrev as_typed : Str → Str
as_typed s = s

over_the_edge :
    compute_links as_typed parsed address whole_line two_rows 1
    ≡ record {
      text = codes "ht://b";
      start = record { x = 3; y = 1 };
      end = record { x = 3; y = 2 };
    }
      ∷ []
unfolding compute_links links_of is_url starts_with read_block top_of bottom_of is_continued
    row_text row_width is_filled block_units row_units shown trim_end is_space str_eq
over_the_edge = refl

compute_links-IsPlaced_example :
    All
      (IsPlaced two_rows
        (text_of (read_block whole_line two_rows 1))
        (address (text_of (read_block whole_line two_rows 1))))
      (compute_links as_typed parsed address whole_line two_rows 1)
compute_links-IsPlaced_example =
    compute_links-IsPlaced as_typed parsed address whole_line two_rows 1
