-- ===== src/Api/Tests.antt =====
-- Runs of requests (api.ts).
use multimux.Base.{
  ℕ, ◌<◌, ◌≤◌, ◌≡◌, refl, Option, none, some, some_inj, subst, arith, [], ◌∷◌, length, Str, str_eq,
  codes, starts_with, trim, trim_start, trim_end, is_space,
}
use multimux.Base.Json.{Json}
use multimux.Base.Json as Json
use multimux.Base.Decimal.{decimal}
use multimux.Grid.Types.{Server}
use multimux.Api.{
  api_error, Failure, api, err, Request, Response, request_for, failed, detail_of, shortened,
  field_of, api_fetch, on_ok, get, get_json, ws_url,
}
use multimux.Api.Outcomes.{Tells, get_json-Tells}
use multimux.Api.Details.{failed-le}

abbrev daemon : Server
daemon = record {
  id = codes "b";
  origin = codes "https://box:8686";
  name = codes "box";
  token = some (codes "T");
}

abbrev refusal : Response
refusal = record { status = 401; body = some (codes " {no session} "); pane_width = none }

-- A daemon that refuses every request
abbrev refuse : Request → Option Response
refuse q = some refusal

-- A parser that finds one field in every text
abbrev one_field : Str → Option (Json ℕ)
one_field s =
    some (Json.obj (Json.Fields.field (codes "error") (Json.str (codes "expired")) Json.Fields.end))

abbrev refused : Failure
refused = api (failed one_field (codes "/api/auth/me") refusal)

got : get_json refuse one_field daemon (codes "/api/auth/me") ≡ err refused
unfolding get_json api_fetch on_ok
got = refl

told : (failed one_field (codes "/api/auth/me") refusal).message ≡ codes "/api/auth/me: 401 expired"
unfolding failed api_error detail_of shortened field_of trim trim_start trim_end is_space
    starts_with str_eq decimal
told = refl

url :
    ws_url (λ s. s) daemon (codes "/ws/pty") ((codes "id", codes "3") ∷ [])
    ≡ codes "wss://box:8686/ws/pty?token=T&id=3"
unfolding ws_url str_eq starts_with
url = refl

get_json-Tells_example : Tells refused (refuse (request_for daemon (codes "/api/auth/me") get))
get_json-Tells_example =
    get_json-Tells refuse one_field daemon (codes "/api/auth/me") refused
      (λ q r e. subst (λ x. 0 < x.status) (some_inj e) (omega arith)) got

failed-le_example :
    ((failed one_field (codes "/api/auth/me") refusal).status ≡ 401)
    × (length (failed one_field (codes "/api/auth/me") refusal).detail ≤ 201)
failed-le_example = failed-le one_field (codes "/api/auth/me") refusal
