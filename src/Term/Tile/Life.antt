-- ===== src/Term/Tile/Life.antt =====
-- The effect of term/TerminalTile.tsx from its start to its cleaning up, as events.
use multimux.Base.{
  ℕ, Bool, true, false, not, ◌&&◌, Option, none, some, List, [], ◌∷◌, ◌++◌, if◌then◌else◌, ◌==◌,
  Str,
}
use multimux.Term.Tile.{
  SizePolicy, connecting, Tile, Effect, set_font_size, Message, without, has, resize, claim,
  fit_to_box,
}
use multimux.Term.Tile.Close.{Kind}
use multimux.Term.Tile.Socket.{
  connect, on_open, on_message, on_close, closing, on_classified, on_timer,
}
use multimux.Term.Tile.Input.{
  reflow, on_key, on_focus, on_resized, on_released, on_data, input, paste,
}

abbrev pub cleared : Option ℕ → List ℕ → List ℕ
cleared none pending = pending
cleared (some id) pending = without id pending

-- `ws.onmessage = null` and `ws.onclose = null`, where there is a socket
abbrev pub muting : Option ℕ → List ℕ → List ℕ
muting none muted = muted
muting (some w) muted = w ∷ muted

-- The function that the effect returns
unfoldable pub dispose : Tile → Tile × List Effect
dispose t = (
  record t {
    closed = true;
    ws_open = false;
    pending = cleared t.timeout t.pending;
    muted = muting t.ws t.muted;
  },
  closing t.ws,
)

-- What the browser calls back with
pub data Signal : Type 0 where
  socket_open : ℕ → Bool → Signal
  socket_message : ℕ → Message → Signal
  -- the socket leaves the state OPEN, and its close event is to come
  socket_closing : ℕ → Signal
  socket_close : ℕ → Signal
  classified : Kind → Signal
  timer : ℕ → Signal

-- What the user, the page and the tile's owner do
pub data Event : Type 0 where
  signal : Signal → Event
  -- whether it is Shift+Enter
  key : Bool → Event
  -- the timeout of `shiftEnterCapture`
  unsuppress : Event
  -- paste, pointerdown, wheel, or a drop of files
  gesture : Event
  focus_in : Option Bool → Event
  -- the Fit button, with whether there is a box
  fit_shared : Bool → Event
  typed : Str → Bool → Event
  put_in : Str → Bool → Event
  pasted : List Str → Bool → Bool → Event
  font_size : ℕ → Bool → Event
  refit : Bool → Event
  resized : Bool → Bool → Event
  released : Bool → Event
  -- the page gets focus, or becomes visible
  resync : Event

is_current : Option ℕ → ℕ → Bool
is_current none id = false
is_current (some w) id = w == id

-- The socket calls back with more than its open event.
abbrev pub hears : Tile → ℕ → Bool
hears t id = has id t.attached && not (has id t.muted)

unfoldable pub on_signal : Tile → Signal → Tile × List Effect
unfolding is_current
on_signal t (socket_open id box) = if has id t.attached then on_open t box else (t, [])
on_signal t (socket_message id m) = if hears t id then on_message t m else (t, [])
on_signal t (socket_closing id) = (record t { ws_open = t.ws_open && not (is_current t.ws id) }, [])
on_signal t (socket_close id) = if hears t id then on_close t id else (t, [])
on_signal t (classified kind) = if t.classifying == 0 then (t, []) else on_classified t kind
on_signal t (timer id) = if has id t.pending then on_timer t id else (t, [])

unfoldable pub handle : Tile → Event → Tile × List Effect
handle t (signal s) = on_signal t s
handle t (key shift_enter) = on_key t shift_enter
handle t unsuppress = (record t { suppress_next_cr = false }, [])
handle t gesture = (t, claim t)
handle t (focus_in active) = (t, on_focus t active)
handle t (fit_shared box) = (t, fit_to_box box ++ resize t true)
handle t (typed s works) = on_data t s works
handle t (put_in s works) = input t s works
handle t (pasted pieces throws works) = paste t pieces throws works
handle t (font_size size box) = (t, set_font_size size ∷ reflow t box)
handle t (refit box) = (t, reflow t box)
handle t (resized held box) = on_resized t held box
handle t (released box) = on_released t box
handle t resync = (t, resize t false)

-- The start of the effect
unfoldable pub mount : SizePolicy → Tile × List Effect
mount policy = connect (record {
  policy = policy;
  state = connecting;
  ws = none;
  ws_open = false;
  attached = [];
  muted = [];
  closed = false;
  backoff = 500;
  timeout = none;
  pending = [];
  classifying = 0;
  paste_accepted = none;
  suppress_next_cr = false;
  reflow_pending = false;
  fresh = 0;
})

unfoldable pub run : Tile → List Event → Tile × List Effect
run t [] = (t, [])
run t (e ∷ es) = let (t', now) = handle t e in let (t'', later) = run t' es in (t'', now ++ later)

-- The callbacks that come after the cleaning up
unfoldable pub run_signals : Tile → List Signal → Tile × List Effect
run_signals t [] = (t, [])
run_signals t (s ∷ ss) =
    let (t', now) = on_signal t s in let (t'', later) = run_signals t' ss in (t'', now ++ later)
