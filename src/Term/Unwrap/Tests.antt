-- ===== src/Term/Unwrap/Tests.antt =====
-- Runs of unwrapping (term/unwrap.ts).
use multimux.Base.{
  ◌≡◌, refl, some, ◌∷◌, ◌++◌, Str, codes, is_space, trim, trim_start, trim_end, starts_with,
}
use multimux.Term.Unwrap.{
  apart, space, glue, marker_length, starts_block, has_box, ends_code, may_join, soft_break,
  split_rows, joined_by, unwrap_rows, unwrap_text,
}
use multimux.Term.Unwrap.Ink.{ink, ink-unwrap_text}

-- A full row of prose goes on, a list item does not, and a row of one word is glued to the next.
full_row : soft_break (codes "the quick brown fox jumps") (codes "over the dog") 30 ≡ space
unfolding soft_break may_join marker_length starts_block has_box ends_code is_space trim trim_start
    trim_end starts_with
full_row = refl

list_item : soft_break (codes "the quick brown fox jumps") (codes "- over the dog") 30 ≡ apart
unfolding soft_break may_join marker_length starts_block has_box ends_code is_space trim trim_start
    trim_end starts_with
list_item = refl

long_word : soft_break (codes "/home/me/a/very/long/path") (codes "/that/goes/on") 30 ≡ glue
unfolding soft_break may_join marker_length starts_block has_box ends_code is_space trim trim_start
    trim_end starts_with
long_word = refl

hanging : soft_break (codes "12. brown foxes jump over") (codes "    the dog") 30 ≡ space
unfolding soft_break may_join marker_length starts_block has_box ends_code is_space trim trim_start
    trim_end starts_with
hanging = refl

abbrev two_rows : Str
two_rows = codes "the quick brown fox jumps " ++ 10 ∷ codes "over the dog"

unwrapped : unwrap_text two_rows (some 30) ≡ codes "the quick brown fox jumps over the dog"
unfolding unwrap_text unwrap_rows split_rows joined_by soft_break may_join marker_length
    starts_block has_box ends_code is_space trim trim_start trim_end starts_with
unwrapped = refl

ink-unwrap_text_example : ink (unwrap_text two_rows (some 30)) ≡ ink two_rows
ink-unwrap_text_example = ink-unwrap_text two_rows (some 30)
