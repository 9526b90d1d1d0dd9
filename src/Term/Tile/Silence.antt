-- ===== src/Term/Tile/Silence.antt =====
-- What the callbacks of a terminal's effect still do after its end (term/TerminalTile.tsx).
use multimux.Base.{
  ℕ, ◌-◌, ◌≡◌, refl, inl, inr, Bool, true, false, not, ◌&&◌, any, filter, Option, none, some, List,
  [], ◌∷◌, ◌++◌, arith, if◌then◌else◌, ◌==◌, by_true, by_false, Bool-cases,
}
use multimux.Term.Tile.{
  Tile, Effect, SizePolicy, has, new_socket, close_socket, set_state, fit, send_resize, send, write,
  set_font_size, set_timeout, classify, return, resize, fit_to_box,
}
use multimux.Term.Tile.Socket.{on_open, on_classified}
use multimux.Term.Tile.Line.{
  live, asking, waiting, let_go, held, IsHealthy, going, over, without_self,
}
use multimux.Term.Tile.Life.{
  cleared, muting, hears, dispose, Signal, socket_open, socket_message, socket_closing,
  socket_close, classified, timer, Event, on_signal, mount, run, run_signals,
}
use multimux.Term.Tile.Connected.{run-IsHealthy}

-- What is left of an effect that was cleaned up: no socket calls back but with its open event, and
-- no timer is set.
record IsOver (t : Tile) : Type 0 where
  shut : t.closed ≡ true
  mute : (id : ℕ) → hears t id ≡ false
  unset : t.pending ≡ []

muted-line :
    (t : Tile)
    → IsHealthy t
    → (id : ℕ) → has id t.attached && not (has id (muting t.ws t.muted)) ≡ false
muted-line t (going o u (live w p q r s) a b) id = rw (p, q) (ground arith)
muted-line t (going o u (asking p q r) a b) id = rw p refl
muted-line t (going o u (waiting d p q r s) a b) id = rw p refl
muted-line t (over o (let_go p) q) id = rw p refl
muted-line t (over o (held w p r) q) id = rw (p, r) (ground arith)

cleared-line : (t : Tile) → IsHealthy t → cleared t.timeout t.pending ≡ []
cleared-line t h = go t h
  where
    nothing : (o : Option ℕ) → cleared o [] ≡ []
    nothing none = refl
    nothing (some d) = refl

    go : (t : Tile) → IsHealthy t → cleared t.timeout t.pending ≡ []
    go t (going o u (live w p q r s) a b) = rw r (nothing t.timeout)
    go t (going o u (asking p q r) a b) = rw q (nothing t.timeout)
    go t (going o u (waiting d p q r s) a b) = rw (q, r) (without_self d)
    go t (over o h q) = rw q (nothing t.timeout)

dispose-IsOver : (t : Tile) → IsHealthy t → IsOver (dispose t).0
unfolding dispose
dispose-IsOver t h = record { shut = refl; mute = muted-line t h; unset = cleared-line t h }

-- What an effect would have to do to be connected again, or to write to the terminal.
abbrev pub revives : Effect → Bool
revives (new_socket id) = true
revives (set_timeout id ms) = true
revives classify = true
revives (write s) = true
revives (send s) = true
revives (close_socket id) = false
revives (set_state s) = false
revives fit = false
revives (send_resize active) = false
revives (set_font_size n) = false
revives (return b) = false

abbrev pub is_opening : Signal → Bool
is_opening (socket_open id box) = true
is_opening (socket_message id m) = false
is_opening (socket_closing id) = false
is_opening (socket_close id) = false
is_opening (classified k) = false
is_opening (timer id) = false

abbrev Dead : Tile × List Effect → Type 0
Dead r = IsOver r.0 × (any revives r.1 ≡ false)

abbrev Silent : Tile × List Effect → Type 0
Silent r = IsOver r.0 × (r.1 ≡ [])

-- A callback that is not there does nothing.
missing_callback :
    (t : Tile) (b : Bool) (r : Tile × List Effect)
    → b ≡ false
    → IsOver t
    → Silent (if b then r else (t, []))
missing_callback t b r e h = by_false Silent r (t, []) e (h, refl)

has-nil : (id : ℕ) (ids : List ℕ) → ids ≡ [] → has id ids ≡ false
has-nil id ids e = rw e refl

on_signal-Silent :
    (t : Tile) (s : Signal) → IsOver t → is_opening s ≡ false → Silent (on_signal t s)
unfolding on_signal on_classified
on_signal-Silent t (socket_open id b) h n = absurd (ground arith)
on_signal-Silent t (socket_message id m) h n = missing_callback t _ _ (h.mute id) h
on_signal-Silent t (socket_closing id) h n =
    (record { shut = h.shut; mute = h.mute; unset = h.unset }, refl)
on_signal-Silent t (socket_close id) h n = missing_callback t _ _ (h.mute id) h
on_signal-Silent t (classified k) h n = elim (Bool-cases (t.classifying == 0)) [
  | inl e ↦ by_true Silent (t, []) _ e (h, refl)
  | inr e ↦
      by_false Silent (t, []) _ e
        (by_true Silent (record t { classifying = t.classifying - 1 }, []) _ h.shut
          (record { shut = h.shut; mute = h.mute; unset = h.unset }, refl))
]
on_signal-Silent t (timer id) h n = missing_callback t _ _ (has-nil id t.pending h.unset) h

-- An open event, whose callback stays, brings nothing back to life.
on_open-Dead : (t : Tile) (box : Bool) → IsOver t → Dead (on_open t box)
unfolding on_open fit_to_box resize
on_open-Dead t box h = (record { shut = h.shut; mute = h.mute; unset = h.unset }, ground arith)

on_signal-Dead : (t : Tile) (s : Signal) → IsOver t → Dead (on_signal t s)
unfolding on_signal
on_signal-Dead t s h = elim (Bool-cases (is_opening s)) [
  | inl e ↦ opening s e
  | inr e ↦ let (k, q) = on_signal-Silent t s h e in (k, rw q refl)
]
  where
    opening : (s' : Signal) → is_opening s' ≡ true → Dead (on_signal t s')
    opening (socket_open id box) e = elim (Bool-cases (has id t.attached)) [
      | inl q ↦ by_true Dead _ (t, []) q (on_open-Dead t box h)
      | inr q ↦ by_false Dead (on_open t box) _ q (h, refl)
    ]
    opening (socket_message id m) e = absurd (ground arith)
    opening (socket_closing id) e = absurd (ground arith)
    opening (socket_close id) e = absurd (ground arith)
    opening (classified k) e = absurd (ground arith)
    opening (timer id) e = absurd (ground arith)

any-append :
    (xs ys : List Effect)
    → any revives xs ≡ false
    → any revives ys ≡ false
    → any revives (xs ++ ys) ≡ false
any-append [] ys h k = k
any-append (x ∷ xs) ys h k = ground (arith, any-append xs ys)

all-Dead : (t : Tile) (ss : List Signal) → IsOver t → any revives (run_signals t ss).1 ≡ false
unfolding run_signals
all-Dead t [] h = refl
all-Dead t (s ∷ ss) h =
    let (h', e) = on_signal-Dead t s h in
    any-append (on_signal t s).1 _ e (all-Dead (on_signal t s).0 ss h')

all-Silent :
    (t : Tile) (ss : List Signal)
    → IsOver t
    → (run_signals t (filter (λ s. not (is_opening s)) ss)).1 ≡ []
unfolding run_signals
all-Silent t [] h = refl
all-Silent t (s ∷ ss) h = elim (Bool-cases (is_opening s)) [
  | inl o ↦ rw o (all-Silent t ss h)
  | inr o ↦
      let (h', e) = on_signal-Silent t s h o in
      let rest = all-Silent (on_signal t s).0 ss h' in rw (o, e, rest) refl
]

-- Once the effect has been cleaned up, whatever happened before and whatever its sockets, its timers
-- and its questions to the daemon call back with: nothing reconnects, sets a timer, asks the daemon,
-- writes to the terminal or sends input; and where no socket opens, nothing is done at all.
pub dispose-Silent :
    (p : SizePolicy) (es : List Event) (ss : List Signal)
    → (any revives (run_signals (dispose (run (mount p).0 es).0).0 ss).1 ≡ false)
      × ((run_signals (dispose (run (mount p).0 es).0).0 (filter (λ s. not (is_opening s)) ss)).1
          ≡ [])
dispose-Silent p es ss =
    let h = dispose-IsOver _ (run-IsHealthy p es) in (all-Dead _ ss h, all-Silent _ ss h)
