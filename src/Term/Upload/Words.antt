-- ===== src/Term/Upload/Words.antt =====
-- A quoted path as a shell reads it.
use multimux.Base.{
  ℕ, Bool, any, codes, not, Option, none, some, [], ◌∷◌, if◌then◌else◌, ◌==◌, filter, Str,
}
use mathlib.Core.Option

-- What means something to a POSIX shell where it stands unquoted: the ends of words, operators,
-- quotation marks, expansions and patterns, a comment's and a home directory's mark, and the braces
-- and the exclamation mark of common shells. `=` and `%` do so only at places where no path stands.
abbrev is_special : ℕ → Bool
is_special c = any (λ d. d == c) (9 ∷ 10 ∷ codes " |&;<>()$`\\\"'*?[]#~!{}")

-- What a text without quotation marks reads as: a backslash takes what follows it as it is, but for
-- a newline, which goes with it. No other unit may be special.
unfoldable pub read_units : Str → Option Str
read_units [] = some []
read_units (c ∷ []) = if is_special c then none else some (c ∷ [])
read_units (c ∷ d ∷ s) =
    let escaped = read_units s in
    let plain = read_units (d ∷ s) in
    if c == 92
    then (if d == 10 then escaped else Option.map (d ∷◌) escaped)
    else if is_special c
    then none
    else Option.map (c ∷◌) plain

-- Where nothing is left, there is no word.
abbrev pub word_of : Str → Option Str
word_of [] = none
word_of (c ∷ s) = some (c ∷ s)

abbrev pub word_in : Option Str → Option Str
word_in none = none
word_in (some s) = word_of s

-- The one word that a text is to a shell, if it is one.
unfoldable pub read_word : Str → Option Str
read_word s = word_in (read_units s)

abbrev pub without_newlines : Str → Str
without_newlines = filter (λ c. not (c == 10))
