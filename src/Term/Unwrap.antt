-- ===== src/Term/Unwrap.antt =====
-- Undoing the line breaks that an application put into its text: term/unwrap.ts.
--
-- The regular expressions are tests on code units, and what `MARKER` matches is the length of the
-- match. None of their alternatives can match in more than one way.
pub mod Ink
mod Tests
use multimux.Base.{
  ℕ, zero, suc, ◌+◌, ◌-◌, ◌/◌, min, Bool, true, false, not, ◌&&◌, ◌||◌, Option, none, some, List,
  [], ◌∷◌, ◌++◌, if◌then◌else◌, ◌==◌, ltb, leb, length, drop, any, Str, codes, is_space, trim,
  trim_start, trim_end, starts_with,
}

pub data Join : Type 0 where
  apart space glue : Join

abbrev is_in : Str → ℕ → Bool
is_in class c = any (λ d. d == c) class

abbrev is_digit : ℕ → Bool
is_digit c = leb 48 c && leb c 57

-- How many units at the front pass a test
abbrev pub run_of : (ℕ → Bool) → Str → ℕ
run_of p [] = 0
run_of p (c ∷ s) = if p c then suc (run_of p s) else 0

abbrev bullets : Str
bullets = codes "-*+•◦▪‣⏺●○⎿✓✔✗✘☐☑☒>❯$#"

-- What stands before the white space that ends a marker: its length, or 0
abbrev numbering : Str → ℕ
numbering s =
    let n = run_of is_digit s in
    if ltb 0 n && leb n 3 && ltb 0 (run_of (is_in (codes ".)")) (drop n s)) then n + 1 else 0

abbrev bullet : Str → ℕ
bullet s = let n = run_of (is_in bullets) s in if ltb 0 n then n else numbering s

-- The length of what `MARKER` matches, or 0
unfoldable pub marker_length : Str → ℕ
marker_length s =
    let n = bullet s in
    let blanks = run_of is_space (drop n s) in if ltb 0 n && ltb 0 blanks then n + blanks else 0

-- A text that fits a pattern of digits, 48, and other units
abbrev fits : Str → Str → Bool
fits [] s = true
fits (p ∷ ps) [] = false
fits (p ∷ ps) (c ∷ s) = (if p == 48 then is_digit c else p == c) && fits ps s

-- `BLOCK_START`
unfoldable pub starts_block : Str → Bool
starts_block s =
    ltb 0 (run_of (is_in (codes "|}])[")) s)
    || starts_with (codes "```") s
    || fits (codes "0000-00-00") s
    || fits (codes "00:00:00") s

-- `BOX_DRAWING`
unfoldable pub has_box : Str → Bool
has_box = any (λ c. leb 9472 c && leb c 9631)

-- `CODE_END`
unfoldable pub ends_code : Str → Bool
ends_code [] = false
ends_code (c ∷ []) = is_in (codes "{(;\\") c
ends_code (c ∷ d ∷ s) = ends_code (d ∷ s)

unfoldable pub may_join : Str → Str → Bool
may_join row next =
    let body = trim_start next in
    if has_box row || has_box next
    then false
    else if ltb 0 (marker_length body) || starts_block body
    then false
    else not (ends_code (trim_end row))

abbrev pub is_empty : Str → Bool
is_empty [] = true
is_empty (c ∷ s) = false

-- `text` of `softBreak`, with its first width
abbrev indent_of : Str → ℕ
indent_of s = length s - length (trim_start s)

unfoldable pub soft_break : Str → Str → ℕ → Join
soft_break row next cols =
    let text = trim_end row in
    let body = trim next in
    let indent = indent_of text in
    let hanging = indent + marker_length (drop indent text) in
    let word = run_of (λ c. not (is_space c)) body in
    if ltb cols 20 || is_empty text || is_empty body || ltb cols (length text)
    then apart
    else if not (may_join text next)
    then apart
    else if not (indent_of next == hanging)
    then apart
    else if leb (length text + 1 + min word (cols / 4)) (cols - 6)
    then apart
    else if leb (cols - 6) (length text) && not (any is_space (drop hanging text))
    then glue
    else space

-- `split("\n")`: the first row, and the others
unfoldable pub split_rows : Str → Str × List Str
split_rows [] = ([], [])
split_rows (c ∷ s) =
    let (row, rows) = split_rows s in if c == 10 then ([], row ∷ rows) else (c ∷ row, rows)

-- A row after what is out so far
unfoldable pub joined_by : Join → Str → Str → Str
joined_by apart out row = out ++ 10 ∷ row
joined_by space out row = trim_end out ++ 32 ∷ trim_start row
joined_by glue out row = trim_end out ++ trim_start row

unfoldable pub unwrap_rows : ℕ → Str → Str → List Str → Str
unwrap_rows cols out last [] = out
unwrap_rows cols out last (row ∷ rows) =
    unwrap_rows cols (joined_by (soft_break last row cols) out row) row rows

unfoldable pub unwrap_text : Str → Option ℕ → Str
unwrap_text text none = text
unwrap_text text (some cols) = let (row, rows) = split_rows text in unwrap_rows cols row row rows
