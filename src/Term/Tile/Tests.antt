-- ===== src/Term/Tile/Tests.antt =====
-- Terminals at work: a lost socket, the end of a session, a paste, and who sizes the window.
use multimux.Base.{any, filter, not, ◌≡◌, refl, true, false, some, List, [], ◌∷◌, codes, str_eq}
use multimux.Term.Tile.{
  Tile, connecting, opened, offline, exited, SizePolicy, follow_input, passive, Effect, new_socket,
  close_socket, set_state, fit, send_resize, send, write, set_timeout, classify, return, bytes,
  text, resize, claim, fit_to_box,
}
use multimux.Term.Tile.Close.{retry, gone_missing}
use multimux.Term.Tile.Socket.{connect, on_open, on_message, on_close, on_classified, on_timer}
use multimux.Term.Tile.Input.{send_input, on_data, on_all_data, paste, on_key}
use multimux.Term.Tile.Life.{
  dispose, Signal, socket_open, socket_message, socket_close, classified, timer, Event, signal, key,
  typed, pasted, on_signal, handle, mount, run, run_signals,
}
use multimux.Term.Tile.Line.{IsHealthy}
use multimux.Term.Tile.Connected.{run-IsHealthy}
use multimux.Term.Tile.Silence.{dispose-Silent, revives, is_opening}

abbrev told : SizePolicy → List Event → List Effect
told p es = (run (mount p).0 es).1

-- The socket opens, is lost, the daemon still has the session, and the timer connects again.
abbrev lost_and_found : List Event
lost_and_found =
    signal (socket_open 0 true)
    ∷ signal (socket_close 0)
    ∷ signal (classified retry)
    ∷ signal (timer 1)
    ∷ []

lost_and_found_works :
    told follow_input lost_and_found
    ≡ set_state opened
      ∷ fit
      ∷ send_resize false
      ∷ set_state offline
      ∷ classify
      ∷ set_timeout 1 500
      ∷ set_state connecting
      ∷ new_socket 2
      ∷ []
unfolding mount connect run handle on_signal on_open resize fit_to_box on_close on_classified
    on_timer
lost_and_found_works = refl

-- The session ends, and Enter goes nowhere.
session_ends :
    told passive (
      signal (socket_open 0 false)
      ∷ signal (socket_message 0 (bytes (codes "hi")))
      ∷ signal (socket_message 0 (text (some (codes "exit"))))
      ∷ typed (codes "x") true
      ∷ [])
    ≡ set_state opened
      ∷ send_resize false
      ∷ write (codes "hi")
      ∷ set_state exited
      ∷ close_socket 0
      ∷ []
unfolding mount connect run handle on_signal on_open resize fit_to_box on_message on_data send_input
    str_eq
session_ends = refl

-- Shift+Enter is sent once, and the return that the browser still gives is dropped.
shift_enter_once :
    told follow_input
      (signal (socket_open 0 false) ∷ key true ∷ typed (13 ∷ []) true ∷ typed (13 ∷ []) true ∷ [])
    ≡ set_state opened
      ∷ send_resize false
      ∷ send_resize true
      ∷ send (27 ∷ codes "[13;2u")
      ∷ send (13 ∷ [])
      ∷ []
unfolding mount connect run handle on_signal on_open resize fit_to_box on_key claim on_data
    send_input str_eq
shift_enter_once = refl

-- A paste that the socket refuses in the middle is told so.
paste_refused :
    told passive (signal (socket_open 0 false) ∷ pasted (codes "a" ∷ []) false false ∷ [])
    ≡ set_state opened ∷ send_resize false ∷ return false ∷ []
unfolding mount connect run handle on_signal on_open resize fit_to_box claim paste on_all_data
    on_data send_input str_eq
paste_refused = refl

run-IsHealthy_example : IsHealthy (run (mount follow_input).0 lost_and_found).0
run-IsHealthy_example = run-IsHealthy follow_input lost_and_found

abbrev late : List Signal
late = socket_open 2 true ∷ socket_close 2 ∷ timer 1 ∷ classified gone_missing ∷ []

dispose-Silent_example :
    (any revives (run_signals (dispose (run (mount follow_input).0 lost_and_found).0).0 late).1
      ≡ false)
    × ((run_signals
          (dispose (run (mount follow_input).0 lost_and_found).0).0
          (filter (λ s. not (is_opening s)) late)).1
        ≡ [])
dispose-Silent_example = dispose-Silent follow_input lost_and_found late

abbrev at_work : Tile
at_work = (run (mount follow_input).0 (signal (socket_open 0 true) ∷ [])).0
