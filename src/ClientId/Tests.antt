-- ===== src/ClientId/Tests.antt =====
-- Runs of the client id (clientId.ts).
use multimux.Base.{◌≡◌, refl, true, false, none, codes}
use multimux.ClientId.{Profile, client_id, load_or_make, generated}

abbrev fresh_page : Profile
fresh_page = record { cached = none; stored = none }

-- A page without a storage keeps the id that it made.
asked_twice :
    (client_id (client_id fresh_page false false (codes "a1")).0 true true (codes "b2")).1
    ≡ codes "a1"
unfolding client_id load_or_make generated
asked_twice = refl
