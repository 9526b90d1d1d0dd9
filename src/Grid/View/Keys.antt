-- ===== src/Grid/View/Keys.antt =====
-- `tileKey` of grid/model.ts names a tile and no other.
use multimux.Base.{◌≤◌, ◌<◌, ◌≡◌, refl, [], ◌∷◌, ◌++◌, arith, All, Str}
use multimux.Base.Decimal.{decimal, decimal_inj, All-decimal}
use multimux.Grid.Model.{Tile}
use multimux.Grid.View.{tile_key}

abbrev IsDigits : Str → Type 0
IsDigits = All (λ c. (48 ≤ c) × (c < 58))

no_colon : (u e' d' : Str) → IsDigits d' → d' ≡ u ++ b':' ∷ e' → ⊥
no_colon [] e' [] k q = cc
no_colon [] e' (x ∷ d') k q = ground arith
no_colon (y ∷ u) e' [] k q = cc
no_colon (y ∷ u) e' (x ∷ d') k q = no_colon u e' d' k.1 (cc)

-- The last colon tells the two parts apart, whatever the server's name holds.
split_unique :
    (s t d e : Str) → IsDigits d → IsDigits e → s ++ b':' ∷ d ≡ t ++ b':' ∷ e → (s ≡ t) × (d ≡ e)
split_unique [] [] d e hd he h = (refl, cc)
split_unique [] (c ∷ t) d e hd he h = absurd (no_colon t e d hd (cc))
split_unique (c ∷ s) [] d e hd he h = absurd (no_colon s d e he (cc))
split_unique (c ∷ s) (c' ∷ t) d e hd he h = let (p, q) = split_unique s t d e hd he (cc) in (cc, q)

-- Two tiles with one key show one session of one server.
pub tile_key_inj : (t u : Tile) → tile_key t ≡ tile_key u → t ≡ u
unfolding tile_key
tile_key_inj t u h =
    let (p, q) =
      split_unique t.server_id u.server_id (decimal t.session_id) (decimal u.session_id)
        (All-decimal t.session_id) (All-decimal u.session_id) h in
    λ i. record { server_id = p i; session_id = decimal_inj t.session_id u.session_id q i }
