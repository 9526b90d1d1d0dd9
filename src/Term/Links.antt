-- ===== src/Term/Links.antt =====
-- Links in the terminal that may run over several rows: term/links.ts.
--
-- `urlRegex` and the URL parser are parameters: what the expression matches in a text, each match with
-- its index, and the parts of a URL. A row is counted from 0; `activate` and `openLink` open a window
-- and are left out.
pub mod Ranges
pub mod Stops
mod Tests
use multimux.Base.{
  ℕ, zero, suc, ◌+◌, ◌-◌, ◌*◌, Bool, true, false, not, ◌&&◌, Option, none, some, List, [], ◌∷◌,
  ◌++◌, map, if◌then◌else◌, ◌==◌, ltb, length, get_elem?, take, Str, codes, starts_with,
}
use multimux.Term.Unwrap.{is_empty}
use multimux.Term.Wrap.{Cell, Line, Terminal, Translate, row_width, is_continued}

pub record Pos : Type 0 where
  pub x : ℕ
  pub y : ℕ

pub record Url : Type 0 where
  pub protocol : Str
  pub username : Str
  pub password : Str
  pub host : Str

-- `getChars() || " "`
unfoldable pub shown : Cell → Str
shown cell = elim cell.chars [ [] ↦ codes " " | c ∷ s ↦ c ∷ s ]

-- The units of a cell, each with the cell's place; none of the trailing half of a wide character
abbrev pub unit_at : ℕ → ℕ → ℕ → ℕ × Pos
unit_at x y c = (c, record { x = x; y = y })

abbrev pub cell_units : ℕ → ℕ → Cell → List (ℕ × Pos)
cell_units x y cell = if cell.width == 0 then [] else map (unit_at x y) (shown cell)

unfoldable pub row_units : ℕ → ℕ → List Cell → List (ℕ × Pos)
row_units x y [] = []
row_units x y (cell ∷ cells) = cell_units x y cell ++ row_units (x + 1) y cells

-- The last loop of `readBlock`, for `n` rows from row `y` on; `text` and `map` are the halves.
unfoldable pub block_units : Terminal → ℕ → ℕ → List (ℕ × Pos)
block_units term zero y = []
block_units term (suc n) y =
    let rest = block_units term n (y + 1) in
    elim (get_elem? term.lines y) [
      | none ↦ rest
      | some line ↦ row_units 0 y (take (row_width term line) line.cells) ++ rest
    ]

abbrev pub text_of : List (ℕ × Pos) → Str
text_of = map (λ u. u.0)

abbrev pub map_of : List (ℕ × Pos) → List Pos
map_of = map (λ u. u.1)

module _ (translate : Translate) where
  -- The loop of `top`, and that of `bottom` for as many rows as there are
  unfoldable pub top_of : Terminal → ℕ → ℕ → ℕ
  top_of term row zero = zero
  top_of term row (suc top) =
      let above = top_of term row top in
      if is_continued translate term top && ltb ((row - suc top) * term.cols) 2048
      then above
      else suc top

  unfoldable pub bottom_of : Terminal → ℕ → ℕ → ℕ → ℕ
  bottom_of term row zero bottom = bottom
  bottom_of term row (suc n) bottom =
      let below = bottom_of term row n (bottom + 1) in
      if is_continued translate term bottom && ltb ((bottom - row) * term.cols) 2048
      then below
      else bottom

  unfoldable pub read_block : Terminal → ℕ → List (ℕ × Pos)
  read_block term row =
      let top = top_of term row row in
      let bottom = bottom_of term row (length term.lines) row in
      block_units term (bottom + 1 - top) top

pub record Link : Type 0 where
  pub text : Str
  pub start : Pos
  pub end : Pos

abbrev one_based : Pos → Pos
one_based p = record { x = p.x + 1; y = p.y + 1 }

abbrev pub link_at : Str → Option Pos → Option Pos → List Link
link_at uri none end = []
link_at uri (some start) none = []
link_at uri (some start) (some end) =
    record { text = uri; start = one_based start; end = one_based end } ∷ []

-- `toLocaleLowerCase`, and the URL parser
module _ (lower : Str → Str) (parse : Str → Option Url) where
  unfoldable pub is_url : Str → Bool
  is_url text = elim (parse text) [
    | none ↦ false
    | some url ↦
        let name =
          if is_empty url.username
          then []
          else if is_empty url.password
          then url.username ++ codes "@"
          else url.username ++ codes ":" ++ url.password ++ codes "@" in
        starts_with (lower (url.protocol ++ codes "//" ++ name ++ url.host)) (lower text)
  ]

  unfoldable pub links_of : List Pos → List (ℕ × Str) → List Link
  links_of places [] = []
  links_of places ((i, uri) ∷ ms) =
      let rest = links_of places ms in
      if is_url uri
      then link_at uri (get_elem? places i) (get_elem? places (i + length uri - 1)) ++ rest
      else rest

  -- With what the expression matches
  unfoldable pub compute_links : (Str → List (ℕ × Str)) → Translate → Terminal → ℕ → List Link
  compute_links matches translate term row =
      let units = read_block translate term row in links_of (map_of units) (matches (text_of units))
