-- ===== src/Small.antt =====
-- Small helpers of the client: grid/mobileFontSize.ts, pages/openerOrigin.ts and term/protocol.ts.
--
-- The parsers of JSON, URLs and query strings are parameters, with what the source reads of a URL. An
-- item of the local storage is a parsed value, and its numbers are natural ones here.
mod Tests
use multimux.Base.{
  ℕ, Bool, true, false, not, ◌&&◌, ◌||◌, Option, none, some, List, [], ◌∷◌, if◌then◌else◌, ◌==◌,
  any, Str, str_eq, codes,
}
use multimux.Base.Json.{Json, Fields, Item}

-- `MOBILE_FONT_SIZES`, and `isMobileFontSize` of a number
abbrev mobile_font_sizes : List ℕ
mobile_font_sizes = 13 ∷ 11 ∷ 10 ∷ 9 ∷ []

abbrev is_mobile_font_size : ℕ → Bool
is_mobile_font_size n = any (λ size. size == n) mobile_font_sizes

unfoldable pub read_mobile_font_size : Item ℕ → ℕ
read_mobile_font_size (Item.doc (Json.num n)) = if is_mobile_font_size n then n else 13
read_mobile_font_size _ = 13

-- What `writeMobileFontSize` stores, where the storage lets it
unfoldable pub write_mobile_font_size : Item ℕ → Bool → ℕ → Item ℕ
write_mobile_font_size item works size = if works then Item.doc (Json.num size) else item

pub record OpenerUrl : Type 0 where
  pub protocol : Str
  pub hostname : Str
  pub origin : Str

abbrev may_open : OpenerUrl → Bool
may_open u =
    str_eq u.protocol (codes "https:")
    || str_eq u.protocol (codes "http:")
      && (str_eq u.hostname (codes "localhost") || str_eq u.hostname (codes "127.0.0.1"))

abbrev origin_of : Option OpenerUrl → Option Str
origin_of none = none
origin_of (some u) = if may_open u then some u.origin else none

-- With the URL parser, and the value of `opener` in the query
unfoldable pub parse_opener_origin : (Str → Option OpenerUrl) → Option Str → Option Str
parse_opener_origin parse none = none
parse_opener_origin parse (some []) = none
parse_opener_origin parse (some (c ∷ raw)) = origin_of (parse (c ∷ raw))

-- The field that was set last
abbrev type_in : {N : Type 0} → Fields N → Option (Json N) → Option (Json N)
type_in Fields.end found = found
type_in (Fields.field key v rest) found =
    type_in rest (if str_eq key (codes "type") then some v else found)

abbrev as_text : {N : Type 0} → Option (Json N) → Option Str
as_text (some (Json.str s)) = some s
as_text _ = none

-- `parseServerText`, with the type of what it gives; the parameter is `JSON.parse`.
unfoldable pub parse_server_text : {N : Type 0} → (Str → Option (Json N)) → Str → Option Str
parse_server_text parse sent = elim (parse sent) [
  | none ↦ none
  | some v ↦ elim v [ Json.obj fields ↦ as_text (type_in fields none) | _ ↦ none ]
]
