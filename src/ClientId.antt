-- ===== src/ClientId.antt =====
-- The id of a browser profile: clientId.ts.
pub mod Stable
mod Tests
use multimux.Base.{Bool, true, false, Option, none, some, [], ◌∷◌, if◌then◌else◌, Str}

-- The variable `cached` of a page, and what the storage holds under the key.
pub record Profile : Type 0 where
  pub cached : Option Str
  pub stored : Option Str

-- What reading the storage gives, where it does not throw; an empty text counts as none.
abbrev pub readable : Bool → Option Str → Option Str
readable false stored = none
readable true none = none
readable true (some []) = none
readable true (some (c ∷ s)) = some (c ∷ s)

-- A new id is kept by the page, and by the storage if writing it does not throw.
unfoldable pub generated : Profile → Bool → Str → Profile × Str
generated p can_write made =
    (record p { cached = some made; stored = if can_write then some made else p.stored }, made)

-- `clientId()` past its first test
unfoldable pub load_or_make : Profile → Bool → Bool → Str → Profile × Str
load_or_make p can_read can_write made = elim (readable can_read p.stored) [
  | some id ↦ (record p { cached = some id }, id)
  | none ↦ generated p can_write made
]

-- `clientId()`, with whether the storage can be read and written, and what `generate` would give
unfoldable pub client_id : Profile → Bool → Bool → Str → Profile × Str
client_id p can_read can_write made = elim p.cached [
  | some (c ∷ s) ↦ (p, c ∷ s)
  | some [] ↦ load_or_make p can_read can_write made
  | none ↦ load_or_make p can_read can_write made
]
