-- ===== src/Term/Tile/Connected.antt =====
-- A terminal's effect has one line to the daemon at a time.
use multimux.Base.{
  ◌≡◌, refl, inl, inr, Bool, true, false, List, [], ◌∷◌, arith, if◌then◌else◌, ◌==◌, by_true,
  by_false, Bool-cases,
}
use multimux.Term.Tile.{Tile, Effect, SizePolicy}
use multimux.Term.Tile.Input.{reflow, on_key, on_resized, on_released}
use multimux.Term.Tile.Untouched.{is_same, on_data-IsSame, input-IsSame, paste-IsSame}
use multimux.Term.Tile.Line.{
  IsHealthy, After, keep-IsHealthy, connect-IsHealthy, on_open-IsHealthy, on_message-IsHealthy,
  on_close-IsHealthy, on_classified-IsHealthy, on_timer-IsHealthy,
}
use multimux.Term.Tile.Life.{
  Signal, socket_open, socket_message, socket_closing, socket_close, classified, timer, Event,
  signal, key, unsuppress, gesture, focus_in, fit_shared, typed, put_in, pasted, font_size, refit,
  resized, released, resync, on_signal, handle, mount, run,
}

if-IsHealthy :
    (t : Tile) (b : Bool) (r : Tile × List Effect)
    → IsHealthy t
    → (b ≡ true → After r)
    → After (if b then r else (t, []))
if-IsHealthy t true r h f = f refl
if-IsHealthy t false r h f = h

on_signal-IsHealthy : (t : Tile) (s : Signal) → IsHealthy t → After (on_signal t s)
unfolding on_signal
on_signal-IsHealthy t (socket_open id box) h = if-IsHealthy t _ _ h (λ e. on_open-IsHealthy t box h)
on_signal-IsHealthy t (socket_message id m) h =
    if-IsHealthy t _ _ h (λ e. on_message-IsHealthy t id m (ground arith) h)
on_signal-IsHealthy t (socket_closing id) h = keep-IsHealthy t _ (is_same t _ _ _ _) h
on_signal-IsHealthy t (socket_close id) h =
    if-IsHealthy t _ _ h (λ e. on_close-IsHealthy t id (ground arith) h)
on_signal-IsHealthy t (classified k) h = elim (Bool-cases (t.classifying == 0)) [
  | inl e ↦ by_true After (t, []) _ e h
  | inr e ↦ by_false After (t, []) _ e (on_classified-IsHealthy t k e h)
]
on_signal-IsHealthy t (timer id) h = if-IsHealthy t _ _ h (λ e. on_timer-IsHealthy t id e h)

-- No event breaks it.
handle-IsHealthy : (t : Tile) (e : Event) → IsHealthy t → After (handle t e)
unfolding handle on_key on_resized on_released
handle-IsHealthy t (signal s) h = on_signal-IsHealthy t s h
handle-IsHealthy t (key true) h = keep-IsHealthy t _ (is_same t _ _ _ _) h
handle-IsHealthy t (key false) h = h
handle-IsHealthy t unsuppress h = keep-IsHealthy t _ (is_same t _ _ _ _) h
handle-IsHealthy t gesture h = h
handle-IsHealthy t (focus_in a) h = h
handle-IsHealthy t (fit_shared b) h = h
handle-IsHealthy t (typed s works) h = keep-IsHealthy t _ (on_data-IsSame t s works) h
handle-IsHealthy t (put_in s works) h = keep-IsHealthy t _ (input-IsSame t s works) h
handle-IsHealthy t (pasted ds throws works) h =
    keep-IsHealthy t _ (paste-IsSame t ds throws works) h
handle-IsHealthy t (font_size n b) h = h
handle-IsHealthy t (refit b) h = h
handle-IsHealthy t (resized true b) h = keep-IsHealthy t _ (is_same t _ _ _ _) h
handle-IsHealthy t (resized false b) h = h
handle-IsHealthy t (released b) h =
    if-IsHealthy t t.reflow_pending (record t { reflow_pending = false }, reflow t b) h
      (λ e. keep-IsHealthy t _ (is_same t _ _ _ _) h)
handle-IsHealthy t resync h = h

all-IsHealthy : (t : Tile) (es : List Event) → IsHealthy t → After (run t es)
unfolding run
all-IsHealthy t [] h = h
all-IsHealthy t (e ∷ es) h = all-IsHealthy (handle t e).0 es (handle-IsHealthy t e h)

-- From the start of the effect on, whatever happens: a tile that has not given up has either one
-- socket that calls back, which is the current one, or one question to the daemon about a closed
-- socket, or one timer that will connect, never two of them and never none, with a backoff between
-- half a second and ten seconds; a tile that has given up has set no timer.
pub run-IsHealthy : (p : SizePolicy) (es : List Event) → IsHealthy (run (mount p).0 es).0
unfolding mount
run-IsHealthy p es =
    all-IsHealthy _ es (connect-IsHealthy _ refl refl refl refl refl (omega arith) (omega arith))
