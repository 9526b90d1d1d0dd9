-- ===== src/Servers/Consent.antt =====
-- Whose token is stored.
use multimux.Base.{
  ◌≡◌, refl, ap₂, ◌⊎◌, inl, inr, Bool, true, false, not, ◌||◌, Option, none, some, List, [], ◌∷◌,
  arith, Any, Bool-cases, Str, str_eq, str_eq→eq, codes,
}
use multimux.Grid.Types.{Server}
use multimux.Servers.{
  Event, message, poll, Effect, store_token, close_popup, on_token, is_token, on_consent,
  connect_all, connect_server,
}

silent : (s : Server) (es : List Event) → (connect_all s false es).1 ≡ []
unfolding connect_all on_consent
silent s [] = refl
silent s (e ∷ es) = silent s es

abbrev pub IsGrant : Server → Str → Event → Type 0
IsGrant s token e = e ≡ message s.origin (some (codes "multimux-token")) token

abbrev pub Grants : Server → List Event → List Effect → Type 0
Grants s es out =
    (out ≡ [])
    ⊎ ((token : Str) × (out ≡ store_token s.id token ∷ close_popup ∷ on_token ∷ [])
        × Any (IsGrant s token) es)

later-Grants :
    (s : Server) (e : Event) (es : List Event) (out : List Effect)
    → Grants s es out
    → Grants s (e ∷ es) out
later-Grants s e es out (inl q) = inl q
later-Grants s e es out (inr (token, q, a)) = inr (token, q, inr a)

connect_all-Grants :
    (s : Server) (on : Bool) (es : List Event) → Grants s es (connect_all s on es).1
unfolding connect_all on_consent
connect_all-Grants s on [] = inl refl
connect_all-Grants s false (e ∷ es) = inl (silent s es)
connect_all-Grants s true (poll closed ∷ es) =
    later-Grants s (poll closed) es _ (connect_all-Grants s (not closed) es)
connect_all-Grants s true (message origin type token ∷ es) =
    elim (Bool-cases (not (str_eq origin s.origin) || not (is_token type))) [
      | inl e ↦
          rw e (later-Grants s (message origin type token) es _ (connect_all-Grants s true es))
      | inr e ↦ rw (e, silent s es) (inr (token, refl, inl (grant type e)))
    ]
  where
    grant :
        (type : Option Str)
        → (not (str_eq origin s.origin) || not (is_token type)) ≡ false
        → message origin type token ≡ message s.origin (some (codes "multimux-token")) token
    grant none e = absurd (ground arith)
    grant (some t) e =
        ap₂ (λ o y. message o (some y) token) (str_eq→eq origin s.origin (ground arith))
          (str_eq→eq t (codes "multimux-token") (ground arith))

-- Whatever messages arrive while a server is being connected, a token is stored at most once, for
-- that server, and it is one that a message of the right type brought from that server's origin.
pub connect_server-Grants :
    (s : Server) (blocked : Bool) (es : List Event)
    → ((connect_server s blocked es).1 ≡ [])
      ⊎ ((token : Str) × ((connect_server s blocked es).1
            ≡ store_token s.id token ∷ close_popup ∷ on_token ∷ [])
          × Any (λ e. e ≡ message s.origin (some (codes "multimux-token")) token) es)
unfolding connect_server
connect_server-Grants s blocked es = connect_all-Grants s (not blocked) es
