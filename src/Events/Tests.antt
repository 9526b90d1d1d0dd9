-- ===== src/Events/Tests.antt =====
-- Runs of the events socket (useEvents.ts).
use multimux.Base.{◌≡◌, refl, Bool, true, false, List, [], ◌∷◌, map}
use multimux.Events.{
  Status, Effect, Connection, Event, socket_open, socket_close, timer, live_check, resume,
  classified, handle, handle_all, open_connection, unsubscribe, classify, answer, no_answer,
  set_status, connect, on_open, on_close, reconnect_now, stale, on_live_check,
}

-- The socket opens and closes twice; the second time the daemon is asked why; then it connects again.
abbrev a_day : List Event
a_day = socket_open 0 10 ∷ socket_close 0 ∷ timer 1 1010 ∷ socket_close 2 ∷ timer 3 3010 ∷ []

done :
    (handle_all (open_connection 7 0).0 a_day).1
    ≡ Effect.on_status 7 Status.opened
      ∷ Effect.set_timeout 1 1000
      ∷ Effect.new_socket 2
      ∷ Effect.probe
      ∷ Effect.set_timeout 3 2000
      ∷ Effect.new_socket 4
      ∷ []
unfolding open_connection handle_all handle connect on_open set_status on_close
done = refl

-- Seventy-five seconds of silence are too many for an open socket.
silence :
    (handle_all (open_connection 7 0).0 (live_check 75000 true ∷ live_check 75001 true ∷ [])).1
    ≡ Effect.close_socket 0 ∷ Effect.new_socket 1 ∷ []
unfolding open_connection handle_all handle connect on_live_check reconnect_now stale
silence = refl

causes :
    map classify
      (no_answer ∷ answer 401 false ∷ answer 403 false ∷ answer 200 true ∷ answer 500 false ∷ [])
    ≡ Status.unreachable ∷ Status.auth_expired ∷ Status.forbidden ∷ Status.ws_blocked
      ∷ Status.unreachable ∷ []
unfolding classify
causes = refl

abbrev a_late_day : List Event
a_late_day =
    socket_open 4 3020 ∷ classified Status.unreachable ∷ timer 9 4000 ∷ resume 9000 false false ∷ []

abbrev left : (Connection × List Effect) × Bool
left = unsubscribe (handle_all (open_connection 7 0).0 a_day).0 7
