-- ===== src/Api.antt =====
-- Requests to a daemon: api.ts.
--
-- `fetch` is a parameter, as are `JSON.parse`, `JSON.stringify` and `Number` of a header: `fetch`
-- gives no response where its promise is rejected, and a response may have a body that cannot be
-- read. What a function throws is a `Failure`.
pub mod Outcomes
pub mod Details
mod Tests
use multimux.Base.{
  ℕ, suc, ◌+◌, Bool, true, false, not, ◌&&◌, ◌||◌, Option, none, some, List, [], ◌∷◌, ◌++◌,
  if◌then◌else◌, ◌==◌, ltb, leb, length, take, drop, filter, is_some, Str, str_eq, codes,
  starts_with, trim,
}
use multimux.Base.Int.{ℤ, pos, negsuc}
use multimux.Base.Decimal.{decimal}
use multimux.Base.Json.{Json, Fields}
use multimux.Base.Json as Json
use multimux.Grid.Types.{Server}

pub record ApiError : Type 0 where
  pub status : ℕ
  pub detail : Str
  pub message : Str

-- An `ApiError`, another `Error` with its message, or another value with its text.
pub data Failure : Type 0 where
  api : ApiError → Failure
  exception : Str → Failure
  other : Str → Failure

pub data Result (T : Type 0) : Type 0 where
  ok : T → Result T
  err : Failure → Result T

abbrev pub is_empty : Str → Bool
is_empty [] = true
is_empty (c ∷ s) = false

-- The constructor of `ApiError`
unfoldable pub api_error : ℕ → Str → Str → ApiError
api_error status path detail = record {
  status = status;
  detail = detail;
  message =
      if status == 0
      then path ++ codes ": daemon unreachable"
      else path
        ++ codes ": "
        ++ decimal status
        ++ (if is_empty detail then [] else codes " " ++ detail);
}

unfoldable pub is_unauthorized : Failure → Bool
is_unauthorized (api e) = e.status == 401 || e.status == 403
is_unauthorized (exception m) = false
is_unauthorized (other s) = false

unfoldable pub is_unreachable : Failure → Bool
is_unreachable (api e) = e.status == 0
is_unreachable (exception m) = false
is_unreachable (other s) = false

unfoldable pub error_text : Failure → Str
error_text (api e) =
    if e.status == 0
    then codes "Can't reach the daemon."
    else if is_unauthorized (api e)
    then codes "Not signed in — reload to sign in again."
    else if is_empty e.detail
    then codes "The daemon returned " ++ decimal e.status ++ codes "."
    else codes "The daemon returned an error (" ++ decimal e.status ++ codes "): " ++ e.detail
error_text (exception m) = m
error_text (other s) = s

pub data Credentials : Type 0 where
  omit same_origin : Credentials

pub record Request : Type 0 where
  pub url : Str
  pub method : Str
  pub headers : List (Str × Str)
  pub body : Option Str
  pub credentials : Credentials

pub record Response : Type 0 where
  pub status : ℕ
  pub body : Option Str
  -- the `X-Pane-Width` header
  pub pane_width : Option Str

-- `Response.ok`
abbrev pub is_ok : Response → Bool
is_ok r = leb 200 r.status && leb r.status 299

-- The token that a request carries; an empty one is none.
abbrev pub token_of : Server → Option Str
token_of s = elim s.token [ none ↦ none | some t ↦ if is_empty t then none else some t ]

abbrev pub with_header : List (Str × Str) → Str → Str → List (Str × Str)
with_header [] k v = (k, v) ∷ []
with_header (h ∷ hs) k v = if str_eq h.0 k then (k, v) ∷ hs else h ∷ with_header hs k v

-- `init` of a call of `apiFetch`
pub record Init : Type 0 where
  pub method : Str
  pub headers : List (Str × Str)
  pub body : Option Str

unfoldable pub request_for : Server → Str → Init → Request
request_for s path init = elim (token_of s) [
  | none ↦ record {
    url = s.origin ++ path;
    method = init.method;
    headers = init.headers;
    body = init.body;
    credentials = same_origin;
  }
  | some t ↦ record {
    url = s.origin ++ path;
    method = init.method;
    headers = with_header init.headers (codes "Authorization") (codes "Bearer " ++ t);
    body = init.body;
    credentials = omit;
  }
]

abbrev pub get : Init
get = record { method = codes "GET"; headers = []; body = none }

abbrev delete : Init
delete = record { method = codes "DELETE"; headers = []; body = none }

abbrev json_body : Str → Option Str → Init
json_body method body = record {
  method = method;
  headers = (codes "Content-Type", codes "application/json") ∷ [];
  body = body;
}

-- The header of this name
abbrev pub header : Str → List (Str × Str) → Option Str
header k [] = none
header k (h ∷ hs) = if str_eq h.0 k then some h.1 else header k hs

-- Cut to 200 characters and an ellipsis.
unfoldable pub shortened : Str → Str
shortened s = if ltb 200 (length s) then take 200 s ++ codes "…" else s

module _ (fetch : Request → Option Response) where
  unfoldable pub api_fetch : Server → Str → Init → Result Response
  api_fetch s path init = elim (fetch (request_for s path init)) [
    | none ↦ err (api (api_error 0 path []))
    | some r ↦ ok r
  ]

module _ {N : Type 0} where
  -- The last field of this name, which is the one that `JSON.parse` keeps.
  unfoldable pub field_of : Str → Fields N → Option (Json N)
  field_of k Fields.end = none
  field_of k (Fields.field name v fs) = elim (field_of k fs) [
    | none ↦ if str_eq name k then some v else none
    | some w ↦ some w
  ]

module _ {N : Type 0} (parse : Str → Option (Json N)) where
  -- `parsed.error`, where that is a text
  abbrev error_of : Option (Json N) → Str → Str
  error_of (some (Json.obj fs)) text = elim (field_of (codes "error") fs) [
    | some (Json.str e) ↦ e
    | _ ↦ text
  ]
  error_of _ text = text

  abbrev text_of : Option Str → Str
  text_of none = []
  text_of (some text) = trim text

  unfoldable pub detail_of : Option Str → Str
  detail_of body =
      let text = text_of body in
      shortened (if starts_with (codes "{") text then error_of (parse text) text else text)

  unfoldable pub failed : Str → Response → ApiError
  failed path r = api_error r.status path (detail_of r.body)

  -- What a function that needs an ok response does with it.
  unfoldable pub on_ok : {T : Type 0} → Str → Result Response → (Response → Result T) → Result T
  on_ok path (err e) f = err e
  on_ok path (ok r) f = if is_ok r then f r else err (api (failed path r))

  -- `JSON.parse`, and `text()` before it
  unfoldable pub json_of : Option Str → Result (Json N)
  json_of none = err (exception (codes "body unreadable"))
  json_of (some text) = elim (parse text) [
    | none ↦ err (exception (codes "no JSON"))
    | some v ↦ ok v
  ]

  -- An empty body counts as an empty object.
  unfoldable pub json_or_empty : Option Str → Result (Json N)
  json_or_empty none = err (exception (codes "body unreadable"))
  json_or_empty (some []) = ok (Json.obj Fields.end)
  json_or_empty (some (c ∷ s)) = json_of (some (c ∷ s))

module _ {N : Type 0} (fetch : Request → Option Response) (parse : Str → Option (Json N)) where
  unfoldable pub get_json : Server → Str → Result (Json N)
  get_json s path = on_ok parse path (api_fetch fetch s path get) (λ r. json_of parse r.body)

  unfoldable pub del : Server → Str → Result Unit
  del s path = on_ok parse path (api_fetch fetch s path delete) (λ r. ok tt)

  module _ (stringify : Json N → Str) where
    unfoldable pub sent_json : Str → Server → Str → Option (Json N) → Result (Json N)
    sent_json method s path none =
        on_ok parse path (api_fetch fetch s path (json_body method none))
          (λ r. json_or_empty parse r.body)
    sent_json method s path (some v) =
        on_ok parse path (api_fetch fetch s path (json_body method (some (stringify v))))
          (λ r. json_or_empty parse r.body)

    unfoldable pub post_json : Server → Str → Option (Json N) → Result (Json N)
    post_json = sent_json (codes "POST")

    unfoldable pub put_json : Server → Str → Option (Json N) → Result (Json N)
    put_json = sent_json (codes "PUT")

  module _ (number : Str → Option ℤ) where
    -- A width that is a whole number above nought
    abbrev cols_of : Option ℤ → Option ℕ
    cols_of none = none
    cols_of (some (negsuc n)) = none
    cols_of (some (pos n)) = if ltb 0 n then some n else none

    abbrev header_number : Option Str → Option ℤ
    header_number none = some (pos 0)
    header_number (some h) = number h

    abbrev pane_text : Response → Result (Str × Option ℕ)
    pane_text r = elim r.body [
      | none ↦ err (exception (codes "body unreadable"))
      | some text ↦ ok (text, cols_of (header_number r.pane_width))
    ]

    unfoldable pub get_pane_text : Server → ℕ → Init → Result (Str × Option ℕ)
    get_pane_text s session_id init =
        let path = codes "/api/sessions/" ++ decimal session_id ++ codes "/text" in
        on_ok parse path (api_fetch fetch s path init) pane_text

-- `origin.replace(/^http/, "ws")`
abbrev ws_origin : Str → Str
ws_origin origin = if starts_with (codes "http") origin then codes "ws" ++ drop 4 origin else origin

-- The entries of `{ token, ...params }`
abbrev entries : Option Str → List (Str × Str) → List (Str × Str)
entries none params = params
entries (some t) params = elim (header (codes "token") params) [
  | none ↦ (codes "token", t) ∷ params
  | some u ↦ (codes "token", u) ∷ filter (λ h. not (str_eq h.0 (codes "token"))) params
]

abbrev joined : (Str → Str) → List (Str × Str) → Str
joined encode [] = []
joined encode (h ∷ []) = h.0 ++ codes "=" ++ encode h.1
joined encode (h ∷ g ∷ hs) = h.0 ++ codes "=" ++ encode h.1 ++ codes "&" ++ joined encode (g ∷ hs)

-- `encodeURIComponent` is a parameter; the parameters have different names.
unfoldable pub ws_url : (Str → Str) → Server → Str → List (Str × Str) → Str
ws_url encode s path params =
    let base = ws_origin s.origin ++ path in
    elim (entries (token_of s) params) [
      | [] ↦ base
      | h ∷ hs ↦ base ++ codes "?" ++ joined encode (h ∷ hs)
    ]
