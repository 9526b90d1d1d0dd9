-- ===== src/Grid/Ended/Keys.antt =====
-- Which keys `endedTileKeys` gives.
use mathlib.Core.List.{foldl}
use multimux.Base.{
  ℕ, ◌≢◌, not, ◌==◌, All, codes, subst, ◌≡◌, refl, sym, ap, ◌∙◌, inl, inr, Bool, true, false, ◌&&◌,
  ◌||◌, Option, none, some, List, [], ◌∷◌, ◌++◌, if◌then◌else◌, arith, any, Bool-cases, Str, str_eq,
  str_eq_iff, str_eq_refl,
}
use multimux.Grid.Types.{Session, running}
use multimux.Grid.Model.{Tile, Layout, occupied}
use multimux.Grid.View.{tile_key}
use multimux.Grid.Mobile.{contains}
use multimux.Grid.Ended.{by_id, is_over, add_key, ends, end_tile, ended_tile_keys}

any-append {ℓ} :
    {A : Type ℓ} (p : A → Bool) (xs ys : List A) → any p (xs ++ ys) ≡ any p xs || any p ys
any-append p [] ys = refl
any-append p (x ∷ xs) ys = ground (arith, any-append p xs ys)

contains-add_key :
    (keys : List Str) (key k : Str)
    → contains (add_key keys key) k ≡ contains keys k || str_eq key k
unfolding add_key contains
contains-add_key keys key k =
    ground (arith, any-append (λ j. str_eq j k) keys (key ∷ []), str_eq_iff key k, absorbed keys)
  where
    absorbed :
        (js : List Str)
        → any (λ j. str_eq j key) js ≡ true
        → key ≡ k
        → any (λ j. str_eq j k) js ≡ true
    absorbed js h e = multimux.Base.subst (λ x. any (λ j. str_eq j x) js ≡ true) e h

-- No two sessions of the list have one id.
abbrev pub DistinctIds : List Session → Type 0
DistinctIds [] = Unit
DistinctIds (s ∷ ss) = All (λ u. s.id ≢ u.id) ss × DistinctIds ss

-- Somewhere in the list the session runs.
abbrev pub is_alive : List Session → ℕ → Bool
is_alive sessions id = any (λ s. s.id == id && str_eq s.status (codes "running")) sessions

-- A tile of that server that shows `k`, and whose session runs nowhere.
abbrev pub ended_at : Str → List Session → Str → Tile → Bool
ended_at server_id sessions k t =
    str_eq t.server_id server_id && str_eq (tile_key t) k && not (is_alive sessions t.session_id)

absent :
    (s : Session) (ss : List Session)
    → All (λ u. s.id ≢ u.id) ss
    → (by_id ss s.id ≡ none) × (is_alive ss s.id ≡ false)
unfolding by_id
absent s [] h = (refl, refl)
absent s (u ∷ ss) (h, k) =
    let (e, f) = absent s ss k in
    let other : (u.id == s.id) ≡ false = ground (arith, λ (q : u.id ≡ s.id). h (sym q)) in
    (rw (e, other) refl, rw (other, f) refl)

is_over-by_id :
    (sessions : List Session) (id : ℕ)
    → DistinctIds sessions
    → is_over (by_id sessions id) ≡ not (is_alive sessions id)
unfolding by_id running
is_over-by_id [] id d = refl
is_over-by_id (s ∷ ss) id (h, d) = elim (Bool-cases (s.id == id)) [
  | inl e ↦
      let same : s.id ≡ id = ground arith in
      let (p, q) =
        subst (λ i. (by_id ss i ≡ none) × (is_alive ss i ≡ false)) same (absent s ss h) in
      rw (p, q, e) (ground arith)
  | inr e ↦ ap is_over (later (by_id ss id) e) ∙ is_over-by_id ss id d ∙ rw e refl
]
  where
    later :
        (o : Option Session)
        → (s.id == id) ≡ false
        → (elim o as (λ _. Option Session) [
          | some u ↦ some u
          | none ↦ if s.id == id then some s else none
        ])
          ≡ o
    later none e = rw e refl
    later (some u) e = refl

ended-from :
    (server_id : Str) (sessions : List Session) (k : Str) (keys : List Str)
    (tiles : List (Option Tile))
    → DistinctIds sessions
    → contains (foldl (end_tile server_id sessions) keys tiles) k
      ≡ contains keys k || any (ended_at server_id sessions k) (occupied tiles)
unfolding end_tile
ended-from server_id sessions k keys [] d = ground arith
ended-from server_id sessions k keys (none ∷ tiles) d = ended-from server_id sessions k keys tiles d
ended-from server_id sessions k keys (some t ∷ tiles) d =
    elim (Bool-cases (ends server_id sessions t)) [
      | inl e ↦ rw e (
          ended-from server_id sessions k (add_key keys (tile_key t)) tiles d
          ∙ ground
              (arith, contains-add_key keys (tile_key t) k, is_over-by_id sessions t.session_id d))
      | inr e ↦ rw e (
          ended-from server_id sessions k keys tiles d
          ∙ ground (arith, is_over-by_id sessions t.session_id d))
    ]

-- Where no two sessions of the list have one id, a key is reported exactly if a tile on that server
-- shows it whose session does not run: it is not in the list, or it is there with another status.
pub ended_tile_keys-contains :
    {N : Type 0} (layout : Layout N) (server_id : Str) (sessions : List Session) (k : Str)
    → DistinctIds sessions
    → contains (ended_tile_keys layout server_id sessions) k
      ≡ any (ended_at server_id sessions k) (occupied layout.tiles)
unfolding ended_tile_keys contains
ended_tile_keys-contains layout server_id sessions k d =
    ended-from server_id sessions k [] layout.tiles d
