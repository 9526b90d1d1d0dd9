-- ===== src/Events/Silence.antt =====
-- The last subscriber to leave stops the connection, and nothing comes of it afterwards.
use multimux.Base.{◌≡◌, Bool, true, List, []}
use multimux.Events.{Effect, Connection, Event, join, closing}

-- Stopped: nobody listens, and no timer is set.
pub record IsStopped (c : Connection) : Type 0 where
  pub over : c.closed ≡ true
  pub nobody : c.subscribers ≡ []
  pub quiet : c.pending ≡ []

-- What the browser may still call back; joining is for connections in the map.
abbrev pub IsCallback : Event → Type 0
IsCallback (join h) = ⊥
IsCallback _ = Unit

-- Nothing is done, and the connection stays stopped.
abbrev Quiet : Connection × List Effect → Type 0
Quiet r = IsStopped r.0 × (r.1 ≡ [])

-- What leaving gives, when nobody is left of a healthy connection.
abbrev Left : Connection → (Connection × List Effect) × Bool → Type 0
Left c r = (r.1 ≡ true) × (r.0.1 ≡ closing c.ws) × IsStopped r.0.0
