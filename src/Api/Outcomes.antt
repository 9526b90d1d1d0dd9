-- ===== src/Api/Outcomes.antt =====
-- Which failure means what, and what a request carries.
use multimux.Base.{
  ◌<◌, ◌≡◌, ◌⊎◌, ◌↔◌, refl, sym, ap, ◌∙◌, inl, inr, true, ◌||◌, Option, none, some, [], ◌==◌, arith,
  Bool-cases, Str, codes, some_inj, by_true, by_false, subst,
}
use multimux.Base.Json.{Json}
use multimux.Grid.Types.{Server}
use multimux.Api.{
  api_error, Failure, api, exception, Result, ok, err, is_unauthorized, is_unreachable, Request,
  Response, is_ok, Init, request_for, failed, on_ok, api_fetch, get, json_of, get_json,
}

abbrev failure : {T : Type 0} → Result T → Option Failure
failure (ok t) = none
failure (err e) = some e

-- What a failure says of the answer that was had.
pub record Tells (e : Failure) (answer : Option Response) : Type 0 where
  pub unreachable : (is_unreachable e ≡ true) ↔ (answer ≡ none)
  pub unauthorized :
      (is_unauthorized e ≡ true)
      ↔ ((r : Response) × (answer ≡ some r) × ((r.status ≡ 401) ⊎ (r.status ≡ 403)))

abbrev Denied : Option Response → Type 0
Denied answer = (r : Response) × (answer ≡ some r) × ((r.status ≡ 401) ⊎ (r.status ≡ 403))

none-Tells : (path : Str) → Tells (api (api_error 0 path [])) none
unfolding is_unreachable is_unauthorized api_error
none-Tells path = record {
  unreachable = (λ e. refl, λ e. refl);
  unauthorized = (λ e. cc, λ (r, q, d). absurd (cc q));
}

-- A failure of another kind, after a response that was ok
exception-Tells : (m : Str) (r : Response) → is_ok r ≡ true → Tells (exception m) (some r)
unfolding is_unreachable is_unauthorized
exception-Tells m r h = record {
  unreachable = (λ e. cc, λ e. cc);
  unauthorized =
      (λ e. cc, λ (q, e, d). absurd (denied q d (subst (λ x. is_ok x ≡ true) (some_inj e) h)));
}
  where
    denied : (q : Response) → (q.status ≡ 401) ⊎ (q.status ≡ 403) → is_ok q ≡ true → ⊥
    denied q d k = ground arith

module _ {N : Type 0} (parse : Str → Option (Json N)) where
  refused-Tells :
      (path : Str) (r : Response) → 0 < r.status → Tells (api (failed parse path r)) (some r)
  unfolding is_unreachable is_unauthorized failed api_error
  refused-Tells path r h = record {
    unreachable = (λ e. absurd (ground (arith, h)), λ e. cc);
    unauthorized = (λ e. (r, refl, ground arith), λ (q, e, d). denied q d (some_inj e));
  }
    where
      denied :
          (q : Response)
          → (q.status ≡ 401) ⊎ (q.status ≡ 403)
          → r ≡ q
          → (r.status == 401 || r.status == 403) ≡ true
      denied q d e = subst (λ x. (x.status == 401 || x.status == 403) ≡ true) (sym e) (ground arith)

  on_ok-Tells :
      {T : Type 0} (path : Str) (r : Response) (f : Response → Result T) (e : Failure)
      → 0 < r.status
      → ((e : Failure) → f r ≡ err e → (m : Str) × (e ≡ exception m))
      → on_ok parse path (ok r) f ≡ err e
      → Tells e (some r)
  unfolding on_ok
  on_ok-Tells path r f e real plain h = elim (Bool-cases (is_ok r)) [
    | inl k ↦
        let (m, q) = plain e (sym (by_true (λ x. x ≡ f r) _ _ k refl) ∙ h) in
        subst (λ x. Tells x (some r)) (sym q) (exception-Tells m r k)
    | inr k ↦
        subst (λ x. Tells x (some r))
          (some_inj
            (ap failure (sym (by_false (λ x. x ≡ err (api (failed parse path r))) _ _ k refl) ∙ h)))
          (refused-Tells path r real)
  ]

  json_of-exception :
      (body : Option Str) (e : Failure) → json_of parse body ≡ err e → (m : Str) × (e ≡ exception m)
  unfolding json_of
  json_of-exception none e h = (_, some_inj (ap failure (sym h)))
  json_of-exception (some text) e h = go (parse text) refl
    where
      go : (o : Option (Json N)) → parse text ≡ o → (m : Str) × (e ≡ exception m)
      go none q = (codes "no JSON", some_inj (ap failure (sym h ∙ step)))
        where
          step : json_of parse (some text) ≡ err (exception (codes "no JSON"))
          step = rw (q, json_of) refl
      go (some v) q = absurd (cc (h, step))
        where
          step : json_of parse (some text) ≡ ok v
          step = rw (q, json_of) refl

module _ (fetch : Request → Option Response) (s : Server) (path : Str) (init : Init) where
  api_fetch-none :
      fetch (request_for s path init) ≡ none
      → api_fetch fetch s path init ≡ err (api (api_error 0 path []))
  unfolding api_fetch
  api_fetch-none q = rw (q, api_fetch) refl

  api_fetch-some :
      (r : Response) → fetch (request_for s path init) ≡ some r → api_fetch fetch s path init ≡ ok r
  unfolding api_fetch
  api_fetch-some r q = rw (q, api_fetch) refl

module _ {N : Type 0} (fetch : Request → Option Response) (parse : Str → Option (Json N)) where
  -- If `fetch` gives no response of status 0, then a failure to get JSON counts as the daemon being
  -- unreachable exactly if `fetch` gave no response, and as not being signed in exactly if the
  -- response has status 401 or 403.
  pub get_json-Tells :
      (s : Server) (path : Str) (e : Failure)
      → ((q : Request) (r : Response) → fetch q ≡ some r → 0 < r.status)
      → get_json fetch parse s path ≡ err e
      → Tells e (fetch (request_for s path get))
  unfolding get_json on_ok
  get_json-Tells s path e real h = go (fetch (request_for s path get)) refl
    where
      go : (o : Option Response) → fetch (request_for s path get) ≡ o → Tells e o
      go none q =
          let none_step =
            ap (λ x. on_ok parse path x (λ r. json_of parse r.body))
              (api_fetch-none fetch s path get q) in
          subst (λ x. Tells x none) (some_inj (ap failure (sym none_step ∙ h))) (none-Tells path)
      go (some r) q =
          let some_step =
            ap (λ x. on_ok parse path x (λ r. json_of parse r.body))
              (api_fetch-some fetch s path get r q) in
          on_ok-Tells parse path r (λ r. json_of parse r.body) e (real _ r q)
            (json_of-exception parse r.body) (sym some_step ∙ h)
