-- ===== src/ClientId/Stable.antt =====
-- When the id stays the same.
use multimux.Base.{◌≡◌, ◌≢◌, refl, Bool, true, false, Option, none, some, [], ◌∷◌, Str}
use multimux.ClientId.{Profile, generated, load_or_make, client_id}

-- A later page of the profile
abbrev reloaded : Profile → Profile
reloaded p = record p { cached = none }

load-stable :
    (old stored : Option Str) (r w r' w' : Bool) (made made' : Str)
    → made ≢ []
    → (client_id (load_or_make (record { cached = old; stored = stored }) r w made).0 r' w' made').1
      ≡ (load_or_make (record { cached = old; stored = stored }) r w made).1
unfolding client_id load_or_make generated
load-stable old stored r w r' w' [] made' ne = absurd (ne refl)
load-stable old stored false w r' w' (c ∷ s) made' ne = refl
load-stable old none true w r' w' (c ∷ s) made' ne = refl
load-stable old (some []) true w r' w' (c ∷ s) made' ne = refl
load-stable old (some (d ∷ t)) true w r' w' (c ∷ s) made' ne = refl

-- A page that asks again gets the id that it got before, whatever becomes of the storage, if new ids
-- are not empty.
client_id-stable :
    (p : Profile) (r w r' w' : Bool) (made made' : Str)
    → made ≢ []
    → (client_id (client_id p r w made).0 r' w' made').1 ≡ (client_id p r w made).1
unfolding client_id
client_id-stable p r w r' w' made made' ne = go p.cached p.stored
  where
    go :
        (cached stored : Option Str)
        → (client_id
            (client_id (record { cached = cached; stored = stored }) r w made).0
            r'
            w'
            made').1
          ≡ (client_id (record { cached = cached; stored = stored }) r w made).1
    go (some (c ∷ s)) stored = refl
    go (some []) stored = load-stable (some []) stored r w r' w' made made' ne
    go none stored = load-stable none stored r w r' w' made made' ne

-- The next page of a profile gets the same id as a page that could read and write the storage, if it
-- can read it and new ids are not empty.
client_id-reloaded :
    (stored : Option Str) (w : Bool) (made made' : Str)
    → made ≢ []
    → (client_id
        (reloaded (client_id (record { cached = none; stored = stored }) true true made).0)
        true
        w
        made').1
      ≡ (client_id (record { cached = none; stored = stored }) true true made).1
unfolding client_id load_or_make generated
client_id-reloaded none w [] made' ne = absurd (ne refl)
client_id-reloaded none w (c ∷ s) made' ne = refl
client_id-reloaded (some []) w [] made' ne = absurd (ne refl)
client_id-reloaded (some []) w (c ∷ s) made' ne = refl
client_id-reloaded (some (d ∷ t)) w made made' ne = refl
