-- ===== src/Grid/Mobile/Loops.antt =====
-- The loops of `orderMobileSessions`: what they keep, and which keys they visit.
use mathlib.Core.List.{foldl}
use multimux.Base.{
  ◌≡◌, refl, inl, inr, true, Option, none, some, List, [], ◌∷◌, arith, any, Bool-cases,
  Option-cases, Any, Str, str_eq, str_eq_refl,
}
use multimux.Grid.Types.{Session, Server}
use multimux.Grid.Model.{Tile}
use multimux.Grid.View.{tile_key}
use multimux.Grid.DirFilter.{SessionsByServer}
use multimux.Grid.Mobile.Visits.{contains-cons}
use multimux.Grid.Mobile.{
  MobileSession, session_key, get_entry, contains, Collected, collect, entries, visit, visit_tile,
  visit_session, visit_server, collected,
}

abbrev pub HasKey : Str → Server → Session → Type 0
HasKey key server s = session_key server s ≡ key

module _ (servers : List Server) (by_server : SessionsByServer) where
  abbrev pub lookup : Str → Option MobileSession
  lookup = get_entry (entries servers by_server)

  -- A key stays seen, and is seen once it is visited if it has an entry.
  seen-visit :
      (key k : Str) (st : Collected)
      → contains st.seen k ≡ true
      → contains (visit servers by_server key st).seen k ≡ true
  unfolding visit collect
  seen-visit key k st h = elim (Option-cases (lookup key)) [
    | inl absent ↦ rw absent h
    | inr (e, found) ↦ elim (Bool-cases (contains st.seen key)) [
      | inl old ↦ rw (found, old) h
      | inr new ↦ rw (found, new, contains-cons key st.seen k, h) (ground arith)
    ]
  ]

  visited :
      (key : Str) (st : Collected) {e : MobileSession}
      → lookup key ≡ some e
      → contains (visit servers by_server key st).seen key ≡ true
  unfolding visit collect
  visited key st found = elim (Bool-cases (contains st.seen key)) [
    | inl old ↦ rw (found, old) old
    | inr new ↦ rw (found, new, contains-cons key st.seen key, str_eq_refl key) refl
  ]

  -- What holds of the collected sessions after a visit, if it held before, holds after the loops.
  module _ (P : Collected → Type 0)
      (keep : (key : Str) (st : Collected) → P st → P (visit servers by_server key st)) where
    P-tiles :
        (st : Collected) (tiles : List (Option Tile))
        → P st
        → P (foldl (visit_tile servers by_server) st tiles)
    unfolding visit_tile
    P-tiles st [] h = h
    P-tiles st (none ∷ tiles) h = P-tiles st tiles h
    P-tiles st (some t ∷ tiles) h =
        P-tiles (visit_tile servers by_server st (some t)) tiles
          (elim (Bool-cases (any (λ server. str_eq server.id t.server_id) servers)) [
            | inl e ↦ rw e (keep (tile_key t) st h)
            | inr e ↦ rw e h
          ])

    P-sessions :
        (server : Server) (st : Collected) (sessions : List Session)
        → P st
        → P (foldl (visit_session servers by_server server) st sessions)
    unfolding visit_session
    P-sessions server st [] h = h
    P-sessions server st (s ∷ sessions) h =
        P-sessions server (visit servers by_server (session_key server s) st) sessions
          (keep (session_key server s) st h)

    P-servers :
        (st : Collected) (rest : List Server)
        → P st
        → P (foldl (visit_server servers by_server) st rest)
    unfolding visit_server
    P-servers st [] h = h
    P-servers st (server ∷ rest) h =
        P-servers (visit_server servers by_server st server) rest
          (P-sessions server st (by_server server.id) h)

    pub P-collected :
        (tiles : List (Option Tile))
        → P (record { seen = []; result = [] })
        → P (collected servers by_server tiles)
    unfolding collected
    P-collected tiles h = P-servers _ servers (P-tiles _ tiles h)

  pub seen-sessions :
      (key : Str) (server : Server) (st : Collected) (sessions : List Session) {e : MobileSession}
      → lookup key ≡ some e
      → Any (HasKey key server) sessions
      → contains (foldl (visit_session servers by_server server) st sessions).seen key ≡ true
  unfolding visit_session
  seen-sessions key server st [] found h = absurd h
  seen-sessions key server st (s ∷ sessions) {e} found (inl same) =
      P-sessions (λ c. contains c.seen key ≡ true) (λ k c. seen-visit k key c) server _ sessions
        (rw same (visited key st found))
  seen-sessions key server st (s ∷ sessions) found (inr h) =
      seen-sessions key server (visit servers by_server (session_key server s) st) sessions found h

  pub seen-servers :
      (key : Str) (st : Collected) (rest : List Server) {e : MobileSession}
      → lookup key ≡ some e
      → Any (λ server. Any (HasKey key server) (by_server server.id)) rest
      → contains (foldl (visit_server servers by_server) st rest).seen key ≡ true
  unfolding visit_server
  seen-servers key st [] found h = absurd h
  seen-servers key st (server ∷ rest) {e} found (inl here) =
      P-servers (λ c. contains c.seen key ≡ true) (λ k c. seen-visit k key c) _ rest
        (seen-sessions key server st (by_server server.id) found here)
  seen-servers key st (server ∷ rest) found (inr h) =
      seen-servers key (visit_server servers by_server st server) rest found h
