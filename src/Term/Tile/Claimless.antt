-- ===== src/Term/Tile/Claimless.antt =====
-- What a terminal does that claims nothing of the shared window.
use multimux.Base.{
  ℕ, ◌≡◌, refl, ◌∙◌, inl, inr, Bool, true, false, not, ◌&&◌, ◌||◌, Option, none, some, List, [],
  ◌∷◌, ◌++◌, arith, any, by_true, by_false, Bool-cases, Str, str_eq, is_some, if◌then◌else◌, ◌==◌,
}
use multimux.Term.Tile.{
  Tile, opened, SizePolicy, follow_input, passive, Effect, send_resize, Message, bytes, text,
  follows, has, resize, claim, fit_to_box, send,
}
use multimux.Term.Tile.Close.{Kind, retry, gone_exited, gone_missing, gone_auth}
use multimux.Term.Tile.Socket.{
  connect, on_open, is_exit, closing, on_message, on_close, after, on_classified, on_timer,
}
use multimux.Term.Tile.Input.{refused, send_input, on_data, on_all_data, reflow}
use multimux.Term.Tile.Life.{
  hears, Signal, socket_open, socket_message, socket_closing, socket_close, classified, timer,
  Event, key, gesture, focus_in, fit_shared, put_in, pasted, on_signal,
}

-- The effect sends a size that claims the window.
abbrev pub is_claim : Effect → Bool
is_claim (send_resize b) = b
is_claim _ = false

abbrev pub claims : List Effect → Bool
claims = any is_claim

-- The event is a person's at this very terminal: a gesture, a key, a focus that a person caused, or
-- what the tile's owner puts in.
abbrev pub by_person : Event → Bool
by_person (key shift_enter) = true
by_person gesture = true
by_person (focus_in none) = true
by_person (focus_in (some active)) = active
by_person (put_in s works) = true
by_person (pasted ds throws works) = true
by_person _ = false

-- It is the Fit button.
abbrev pub by_button : Event → Bool
by_button (fit_shared box) = true
by_button _ = false

abbrev pub is_connected : Tile → Bool
is_connected t = is_some t.ws && t.ws_open

pub resize-claims : (t : Tile) (b : Bool) → claims (resize t b) ≡ is_connected t && b
unfolding resize
resize-claims t b = grind arith

pub claim-claims : (t : Tile) → claims (claim t) ≡ is_connected t && follows t.policy
unfolding claim
claim-claims t = go t.policy
  where
    go :
        (p : SizePolicy)
        → claims (if follows p then resize t true else []) ≡ is_connected t && follows p
    go follow_input = resize-claims t true
    go passive = ground arith

pub claims-++ : (xs ys : List Effect) → claims (xs ++ ys) ≡ claims xs || claims ys
claims-++ [] ys = refl
claims-++ (x ∷ xs) ys = let rest = claims-++ xs ys in grind arith

-- What comes without a claim leaves those before it.
pub claims_first : (xs ys : List Effect) → claims ys ≡ false → claims (xs ++ ys) ≡ claims xs
claims_first xs ys e = let h = claims-++ xs ys in grind arith

pub fit_to_box-claims : (box : Bool) → claims (fit_to_box box) ≡ false
unfolding fit_to_box
fit_to_box-claims true = refl
fit_to_box-claims false = refl

pub reflow-claims : (t : Tile) (box : Bool) → claims (reflow t box) ≡ false
unfolding reflow
reflow-claims t box =
    let h = claims-++ (fit_to_box box) (resize t false) in
    let f = fit_to_box-claims box in let r = resize-claims t false in grind arith

abbrev pub Claimless : Tile × List Effect → Type 0
Claimless r = claims r.1 ≡ false

pub if-Claimless :
    (b : Bool) (r r' : Tile × List Effect)
    → Claimless r
    → Claimless r'
    → Claimless (if b then r else r')
if-Claimless true r r' h h' = h
if-Claimless false r r' h h' = h'

pub send_input-Claimless : (t : Tile) (s : Str) (works : Bool) → Claimless (send_input t s works).0
unfolding send_input
send_input-Claimless t s works =
    let no : Tile × List Effect = (record t { paste_accepted = refused t.paste_accepted }, []) in
    elim (Bool-cases (is_some t.ws && t.ws_open && works)) [
      | inl e ↦
          by_true (λ (r : (Tile × List Effect) × Bool). Claimless r.0) ((t, send s ∷ []), true)
            (no, false) e refl
      | inr e ↦
          by_false (λ (r : (Tile × List Effect) × Bool). Claimless r.0) ((t, send s ∷ []), true)
            (no, false) e refl
    ]

pub on_data-Claimless : (t : Tile) (s : Str) (works : Bool) → Claimless (on_data t s works)
unfolding on_data
on_data-Claimless t s works =
    if-Claimless (t.suppress_next_cr && str_eq s (13 ∷ [])) _ _ refl
      (send_input-Claimless t s works)

pub on_all_data-Claimless :
    (t : Tile) (ds : List Str) (works : Bool) → Claimless (on_all_data t ds works)
unfolding on_all_data
on_all_data-Claimless t [] works = refl
on_all_data-Claimless t (d ∷ ds) works =
    let t' = (on_data t d works).0 in
    let rest = on_all_data-Claimless t' ds works in
    claims_first (on_data t d works).1 (on_all_data t' ds works).1 rest
    ∙ on_data-Claimless t d works

pub connect-Claimless : (t : Tile) → Claimless (connect t)
unfolding connect
connect-Claimless t = if-Claimless t.closed _ _ refl refl

pub on_open-Claimless : (t : Tile) (box : Bool) → Claimless (on_open t box)
unfolding on_open
on_open-Claimless t box =
    let t' : Tile = record t { state = opened; ws_open = true; backoff = 500 } in
    let h = claims-++ (fit_to_box box) (resize t' false) in
    let f = fit_to_box-claims box in let r = resize-claims t' false in grind arith

pub on_message-Claimless : (t : Tile) (m : Message) → Claimless (on_message t m)
unfolding on_message
on_message-Claimless t (bytes b) = if-Claimless t.closed _ _ refl refl
on_message-Claimless t (text type) =
    if-Claimless (t.closed || not (is_exit type)) _ _ refl (go t.ws)
  where
    go : (w : Option ℕ) → claims (closing w) ≡ false
    go none = refl
    go (some w) = refl

pub after-Claimless : (t : Tile) (k : Kind) → Claimless (after t k)
after-Claimless t retry = refl
after-Claimless t gone_exited = refl
after-Claimless t gone_missing = refl
after-Claimless t gone_auth = refl

pub on_signal-Claimless : (t : Tile) (s : Signal) → Claimless (on_signal t s)
unfolding on_signal on_close on_classified on_timer
on_signal-Claimless t (socket_open id box) =
    if-Claimless (has id t.attached) _ _ (on_open-Claimless t box) refl
on_signal-Claimless t (socket_message id m) =
    if-Claimless (hears t id) _ _ (on_message-Claimless t m) refl
on_signal-Claimless t (socket_closing id) = refl
on_signal-Claimless t (socket_close id) =
    if-Claimless (hears t id) _ _ (if-Claimless t.closed _ _ refl refl) refl
on_signal-Claimless t (classified k) =
    if-Claimless (t.classifying == 0) _ _ refl
      (if-Claimless t.closed _ _ refl (after-Claimless _ k))
on_signal-Claimless t (timer id) = if-Claimless (has id t.pending) _ _ (connect-Claimless _) refl
