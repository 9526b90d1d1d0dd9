-- ===== src/Events/Health.antt =====
-- An open connection has one line to the daemon, and a bounded backoff.
use multimux.Base.{ℕ, ◌≤◌, ◌≡◌, refl, false, Option, none, some, List, [], ◌∷◌, arith}
use multimux.Events.{Effect, Connection, without, cleared}

-- Either one socket calls back, and it is the current one, or one timer is set that will connect.
pub data Line (c : Connection) : Type 0 where
  live : (w : ℕ) → c.ws ≡ some w → c.attached ≡ w ∷ [] → c.pending ≡ [] → Line c
  waiting : (t : ℕ) → c.attached ≡ [] → c.timeout ≡ some t → c.pending ≡ t ∷ [] → Line c

pub record IsHealthy (c : Connection) : Type 0 where
  pub running : c.closed ≡ false
  pub line : Line c
  pub low : 1000 ≤ c.backoff
  pub high : c.backoff ≤ 15000

without_self : (n : ℕ) → without n (n ∷ []) ≡ []
without_self n = ground arith

abbrev After : Connection × List Effect → Type 0
After r = IsHealthy r.0

-- Once the timer is cleared, none is set.
pub quiet-cleared : (c : Connection) → Line c → cleared c.timeout c.pending ≡ []
quiet-cleared c (live w p q r) = rw r (calm c.timeout)
  where
    calm : (o : Option ℕ) → cleared o [] ≡ []
    calm none = refl
    calm (some t) = refl
quiet-cleared c (waiting t p q r) = rw (q, r) (without_self t)
