-- ===== src/Api/Details.antt =====
-- The text of a failure, and what a request carries.
use multimux.Base.{
  ◌≤◌, ◌≡◌, refl, inl, inr, Option, some, List, [], ◌∷◌, ◌++◌, ltb, arith, Bool-cases, length, take,
  length-take, length-append, Str, str_eq, str_eq_refl, codes, by_true, by_false,
}
use multimux.Base.Json.{Json}
use multimux.Grid.Types.{Server}
use multimux.Api.{
  api_error, Response, omit, token_of, Init, request_for, header, with_header, shortened, detail_of,
  failed,
}

shortened-le : (s : Str) → length (shortened s) ≤ 201
unfolding shortened
shortened-le s = elim (Bool-cases (ltb 200 (length s))) [
  | inl e ↦ by_true (λ x. length x ≤ 201) (take 200 s ++ codes "…") s e (cut s)
  | inr e ↦ by_false (λ x. length x ≤ 201) (take 200 s ++ codes "…") s e (ground (arith, e))
]
  where
    cut : (s : Str) → length (take 200 s ++ codes "…") ≤ 201
    cut s = rw (length-append (take 200 s) (codes "…"), length-take 200 s) (omega arith)

-- Whatever a daemon answers, the error keeps its status and at most 201 characters of its text.
pub failed-le :
    {N : Type 0} (parse : Str → Option (Json N)) (path : Str) (r : Response)
    → ((failed parse path r).status ≡ r.status) × (length (failed parse path r).detail ≤ 201)
unfolding failed api_error detail_of
failed-le parse path r = (refl, shortened-le _)

header-with_header : (hs : List (Str × Str)) (k v : Str) → header k (with_header hs k v) ≡ some v
header-with_header [] k v = rw (str_eq_refl k) refl
header-with_header (h ∷ hs) k v = elim (Bool-cases (str_eq h.0 k)) [
  | inl e ↦ rw (e, str_eq_refl k) refl
  | inr e ↦ rw (e, e) (header-with_header hs k v)
]

-- A request to a server with a token carries it, in a header of its own, and no cookies.
request_for-token :
    (s : Server) (path : Str) (init : Init) (t : Str)
    → token_of s ≡ some t
    → (header (codes "Authorization") (request_for s path init).headers
        ≡ some (codes "Bearer " ++ t))
      × ((request_for s path init).credentials ≡ omit)
unfolding request_for
request_for-token s path init t e = (
  rw (e, request_for)
      (header-with_header init.headers (codes "Authorization") (codes "Bearer " ++ t)),
  rw (e, request_for) refl,
)
