-- ===== src/Term/ReflowGate/Tests.antt =====
-- Runs of the gate (term/reflowGate.ts).
use multimux.Base.{◌≡◌, refl, false, List, [], ◌∷◌, if◌then◌else◌, ◌&&◌}
use multimux.Term.ReflowGate.{
  Call, begin_reflow_hold, end_reflow_hold, listen, unlisten, opened, step, run,
}
use multimux.Term.ReflowGate.Releases.{count, holds, listens, release-once}

abbrev a_drag : List Call
a_drag =
    listen 1
    ∷ listen 2
    ∷ begin_reflow_hold
    ∷ listen 1
    ∷ listen 3
    ∷ unlisten 2
    ∷ begin_reflow_hold
    ∷ []

told : (step (run opened a_drag) end_reflow_hold).1 ≡ 1 ∷ 3 ∷ []
unfolding step run
told = refl

release-once_example :
    count 1 (step (run opened a_drag) end_reflow_hold).1
    ≡ (if holds false a_drag && listens 1 false a_drag then 1 else 0)
release-once_example = release-once 1 a_drag
