-- ===== src/Grid/Page/SessionSync/FollowUp.antt =====
-- No refresh is lost, and a burst of them costs two requests.
use multimux.Base.{
  ◌≡◌, refl, sym, ap, ◌∙◌, Bool, true, false, ◌||◌, Option, none, some, List, [], ◌∷◌, ◌++◌, arith,
  subst,
}
use multimux.Grid.Types.{Session, Server}
use multimux.Grid.Page.SessionSync.{Slot, SessionSync, fetch_sessions, on_sessions}

-- Refreshes of one server, each with whether it settles the initial load
unfoldable pub refresh_all : SessionSync → Server → List Bool → SessionSync × List Server
refresh_all s server [] = (s, [])
refresh_all s server (b ∷ bs) =
    let (s', now) = fetch_sessions s server b in
    let (s'', later) = refresh_all s' server bs in (s'', now ++ later)

abbrev pub any_of : List Bool → Bool
any_of [] = false
any_of (b ∷ bs) = b || any_of bs

abbrev pub waiting : SessionSync → Slot → SessionSync
waiting s slot = record s { in_flight = some slot }

or_false : (b : Bool) → (b || false) ≡ b
or_false b = ground arith

or_assoc : (a b c : Bool) → (a || b || c) ≡ (a || (b || c))
or_assoc a b c = ground arith

-- With a request out, refreshes only queue.
waiting-refresh_all :
    (s : SessionSync) (server : Server) (slot : Slot) (b : Bool) (bs : List Bool)
    → refresh_all (waiting s slot) server (b ∷ bs)
      ≡ (waiting s (record { queued = true; settle = slot.settle || any_of (b ∷ bs) }), [])
unfolding refresh_all fetch_sessions
waiting-refresh_all s server slot b [] =
    ap (λ (c : Bool). (waiting s (record { queued = true; settle = c }), []))
      (sym (or_false (slot.settle || b)) ∙ or_assoc slot.settle b false)
waiting-refresh_all s server slot b (c ∷ bs) =
    waiting-refresh_all s server (record { queued = true; settle = slot.settle || b }) c bs
    ∙ ap (λ (c : Bool). (waiting s (record { queued = true; settle = c }), []))
        (or_assoc slot.settle b (c || any_of bs))

abbrev pub follow_up_for : List Bool → Server → List Server
follow_up_for [] latest = []
follow_up_for (b ∷ []) latest = []
follow_up_for (b ∷ c ∷ bs) latest = latest ∷ []

-- Of a burst that came to `r`: the requests that it and the first answer send, and what is left
-- after the second answer
abbrev Burst :
    Bool
    → List Bool
    → Server
    → Server
    → Option (List Session)
    → Option (List Session)
    → SessionSync × List Server
    → Type 0
Burst settled bs server latest first second r =
    (r.1 ≡ server ∷ [])
    × ((on_sessions r.0 first (some latest)).1 ≡ follow_up_for bs latest)
    × ((on_sessions (on_sessions r.0 first (some latest)).0 second (some latest)).0.in_flight
        ≡ none)
    × ((on_sessions (on_sessions r.0 first (some latest)).0 second (some latest)).0.settled
        ≡ (settled || any_of bs))

abbrev sent_out : SessionSync → Bool → SessionSync
sent_out s b = record s {
  in_flight = some (record { queued = false; settle = false });
  settles = b;
}

fetch_sessions-idle :
    (s : SessionSync) (server : Server) (b : Bool)
    → s.in_flight ≡ none
    → fetch_sessions s server b ≡ (sent_out s b, server ∷ [])
unfolding fetch_sessions
fetch_sessions-idle s server b h = go s.in_flight h
  where
    go :
        (o : Option Slot)
        → o ≡ none
        → ◌≡◌ {A = SessionSync × List Server}
            (elim o [
              | some slot ↦ (
                record s { in_flight = some (record { queued = true; settle = slot.settle || b }) },
                [],
              )
              | none ↦ (sent_out s b, server ∷ [])
            ])
            (sent_out s b, server ∷ [])
    go none e = refl
    go (some slot) e = cc

alone-Burst :
    (s : SessionSync) (server latest : Server) (b : Bool) (first second : Option (List Session))
    → Burst s.settled (b ∷ []) server latest first second (sent_out s b, server ∷ [])
unfolding on_sessions
alone-Burst s server latest b none second =
    (refl, refl, refl, ap (s.settled ||◌) (sym (or_false b)))
alone-Burst s server latest b (some l) second =
    (refl, refl, refl, ap (s.settled ||◌) (sym (or_false b)))

more-Burst :
    (s : SessionSync) (server latest : Server) (b c : Bool) (bs : List Bool)
    (first second : Option (List Session))
    → Burst s.settled
        (b ∷ c ∷ bs)
        server
        latest
        first
        second
        (waiting (sent_out s b) (record { queued = true; settle = any_of (c ∷ bs) }), server ∷ [])
unfolding on_sessions fetch_sessions
more-Burst s server latest b c bs none none =
    (refl, refl, refl, or_assoc s.settled b (c || any_of bs))
more-Burst s server latest b c bs none (some l) =
    (refl, refl, refl, or_assoc s.settled b (c || any_of bs))
more-Burst s server latest b c bs (some l) none =
    (refl, refl, refl, or_assoc s.settled b (c || any_of bs))
more-Burst s server latest b c bs (some l) (some m) =
    (refl, refl, refl, or_assoc s.settled b (c || any_of bs))

-- A burst of refreshes of a server, when no request is out, sends one request. Its answer, good or
-- bad, sends a second one if there was more than one refresh, and none otherwise. After the second
-- answer nothing is out, and the initial load has settled if it had or if any refresh of the burst was
-- to settle it; if the server is not removed meanwhile.
pub burst-settles :
    (s : SessionSync) (server latest : Server) (b : Bool) (bs : List Bool)
    (first second : Option (List Session))
    → s.in_flight ≡ none
    → let r = refresh_all s server (b ∷ bs) in
      (r.1 ≡ server ∷ [])
      × ((on_sessions r.0 first (some latest)).1 ≡ follow_up_for (b ∷ bs) latest)
      × ((on_sessions (on_sessions r.0 first (some latest)).0 second (some latest)).0.in_flight
          ≡ none)
      × ((on_sessions (on_sessions r.0 first (some latest)).0 second (some latest)).0.settled
          ≡ (s.settled || any_of (b ∷ bs)))
unfolding refresh_all
burst-settles s server latest b [] first second h =
    subst (Burst s.settled (b ∷ []) server latest first second)
      (sym (
        ap (λ (r : SessionSync × List Server). (r.0, r.1 ++ []))
          (fetch_sessions-idle s server b h)))
      (alone-Burst s server latest b first second)
burst-settles s server latest b (c ∷ bs) first second h =
    subst (Burst s.settled (b ∷ c ∷ bs) server latest first second)
      (sym (
        ap
          (λ (r : SessionSync × List Server).
            ((refresh_all r.0 server (c ∷ bs)).0, r.1 ++ (refresh_all r.0 server (c ∷ bs)).1))
          (fetch_sessions-idle s server b h)
        ∙ ap (λ (r : SessionSync × List Server). (r.0, (server ∷ []) ++ r.1))
            (waiting-refresh_all (sent_out s b) server (record { queued = false; settle = false }) c
              bs)))
      (more-Burst s server latest b c bs first second)
