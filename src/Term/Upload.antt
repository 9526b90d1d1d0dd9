-- ===== src/Term/Upload.antt =====
-- Images pasted or dropped on a terminal: term/upload.ts.
pub mod Words
mod Tests
use multimux.Base.{
  ℕ, Bool, true, false, ◌&&◌, ◌||◌, Option, none, some, List, [], ◌∷◌, ◌++◌, if◌then◌else◌, ◌==◌,
  leb, filter, any, Str, str_eq, codes,
}
use multimux.Base.Json.{Json}
use multimux.Base.Json as Json
use multimux.Grid.Types.{Server}
use multimux.Api.{
  ApiError, api_error, Failure, api, exception, Result, ok, err, Request, Response, is_ok, Init,
  api_fetch, json_of, field_of,
}

-- `uploadTypes`
abbrev upload_types : List Str
upload_types = codes "image/png" ∷ codes "image/jpeg" ∷ codes "image/gif" ∷ codes "image/webp" ∷ []

abbrev pub includes : List Str → Str → Bool
includes ts t = any (λ u. str_eq u t) ts

-- What a paste or a drop carries; files are of any type that tells its media type.
pub record DataTransfer (F : Type 0) : Type 0 where
  pub files : List F
  -- an item's kind, and what `getAsFile` gives
  pub items : List (Str × Option F)
  pub types : List Str

abbrev files_of : {F : Type 0} → List (Str × Option F) → List F
files_of [] = []
files_of ((kind, none) ∷ items) = files_of items
files_of ((kind, some f) ∷ items) =
    if str_eq kind (codes "file") then f ∷ files_of items else files_of items

abbrev from_items : {F : Type 0} → DataTransfer F → List F
from_items d = elim d.files [ [] ↦ files_of d.items | f ∷ fs ↦ [] ]

unfoldable pub image_files : {F : Type 0} → (F → Str) → Option (DataTransfer F) → List F
image_files type none = []
image_files type (some d) = filter (λ f. includes upload_types (type f)) (d.files ++ from_items d)

unfoldable pub drag_has_files : {F : Type 0} → Option (DataTransfer F) → Bool
drag_has_files none = false
drag_has_files (some d) = includes d.types (codes "Files")

-- A code unit in `[A-Za-z0-9_./+:@%,=-]`
unfoldable pub is_plain : ℕ → Bool
is_plain c =
    (leb 65 c && leb c 90)
    || (leb 97 c && leb c 122)
    || (leb 48 c && leb c 57)
    || any (λ d. d == c) (codes "_./+:@%,=-")

-- The expression has no `u` flag: it takes a string by code units.
unfoldable pub quote_path : Str → Str
quote_path [] = []
quote_path (c ∷ s) = if is_plain c then c ∷ quote_path s else 92 ∷ c ∷ quote_path s

module _ {N : Type 0} (fetch : Request → Option Response) (parse : Str → Option (Json N)) where
  -- The error text of a response, where its body has one.
  abbrev upload_detail : Result (Json N) → Str
  upload_detail (ok (Json.obj fs)) = elim (field_of (codes "error") fs) [
    | some (Json.str e) ↦ e
    | _ ↦ []
  ]
  upload_detail _ = []

  -- The path that a good response tells, which the code takes for a text.
  abbrev saved_path : Result (Json N) → Result (Option (Json N))
  saved_path (err e) = err e
  saved_path (ok Json.null) = err (exception (codes "null has no path"))
  saved_path (ok (Json.obj fs)) = ok (field_of (codes "path") fs)
  saved_path (ok _) = ok none

  abbrev uploaded : Result Response → Result (Option (Json N))
  uploaded (err e) = err e
  uploaded (ok r) =
      if is_ok r
      then saved_path (json_of parse r.body)
      else err
          (api (api_error r.status (codes "/api/uploads") (upload_detail (json_of parse r.body))))

  -- A file is its media type and its bytes.
  unfoldable pub upload_image : Server → Str × Str → Result (Option (Json N))
  upload_image s (type, bytes) = uploaded (
      api_fetch fetch s (codes "/api/uploads") (record {
        method = codes "POST";
        headers = (codes "Content-Type", type) ∷ [];
        body = some bytes;
      }))
