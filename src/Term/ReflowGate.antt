-- ===== src/Term/ReflowGate.antt =====
-- Holding back refits while a splitter is dragged: term/reflowGate.ts.
pub mod Releases
mod Tests
use multimux.Base.{ℕ, Bool, true, false, not, List, [], ◌∷◌, ◌++◌, if◌then◌else◌, ◌==◌, any, filter}

-- The module's state; a listener is named by a number.
pub record Gate : Type 0 where
  pub held : Bool
  pub listeners : List ℕ

pub data Call : Type 0 where
  begin_reflow_hold end_reflow_hold : Call
  -- `onReflowRelease`, and the function that it returns
  listen unlisten : ℕ → Call

abbrev pub opened : Gate
opened = record { held = false; listeners = [] }

-- Adding to and deleting from a `Set`
abbrev pub added : ℕ → List ℕ → List ℕ
added n ns = if any (λ m. m == n) ns then ns else ns ++ n ∷ []

abbrev pub deleted : ℕ → List ℕ → List ℕ
deleted n = filter (λ m. not (m == n))

-- A call, with the listeners that it calls; they do not call back into the gate.
unfoldable pub step : Gate → Call → Gate × List ℕ
step g begin_reflow_hold = (record g { held = true }, [])
step g end_reflow_hold = if g.held then (record g { held = false }, g.listeners) else (g, [])
step g (listen n) = (record g { listeners = added n g.listeners }, [])
step g (unlisten n) = (record g { listeners = deleted n g.listeners }, [])

unfoldable pub run : Gate → List Call → Gate
run g [] = g
run g (c ∷ cs) = run (step g c).0 cs
