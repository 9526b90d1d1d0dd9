-- ===== src/Grid/MobileView/Awaited.antt =====
-- A session that was just started is selected as soon as it is listed.
use multimux.Base.{
  ℕ, ◌≡◌, refl, ap, ap₂, some_inj, ◌∙◌, Bool, true, false, not, ◌||◌, Option, none, some, List, [],
  ◌∷◌, if◌then◌else◌, find_idx?, is_some, All, Str,
}
use multimux.Grid.Types.{Session, Server}
use multimux.Grid.Mobile.{MobileSession, session_key, is_key, reconcile_mobile_selection}
use multimux.Grid.MobileView.{
  PointerStart, MobileView, settle, close_creator, created, terminate_selected, on_pointer_down,
  start_of, clear_pointer, Offset, move_selection, swiped, on_pointer_up, Key, arrow_down,
  arrow_left, arrow_right, arrow_up, end, home, other, on_key_down, Event, listed, open_creator,
  shut_creator, started, terminate, terminated, pointer_down, pointer_up, pointer_gone, key_down,
  handle, run,
}

-- Nothing else is started, and no list has the session.
abbrev pub Before : Str → List MobileSession × Event → Type 0
Before key (sessions, started server ss) =
    (find_idx? (is_key (some key)) sessions ≡ none) × (ss ≡ [])
Before key (sessions, e) = find_idx? (is_key (some key)) sessions ≡ none

abbrev Awaits : Str → MobileView → Type 0
Awaits key v = v.pending_key ≡ some key

settle-Awaits :
    (key : Str) (sessions : List MobileSession) (v : MobileView)
    → find_idx? (is_key (some key)) sessions ≡ none
    → Awaits key v
    → Awaits key (settle sessions v)
unfolding settle
settle-Awaits key sessions v h a =
    go (find_idx? (is_key v.pending_key) sessions) (ap (λ k. find_idx? (is_key k) sessions) a ∙ h)
  where
    go :
        (o : Option ℕ)
        → o ≡ none
        → Awaits key (elim o [
          | none ↦ record v { selection = reconcile_mobile_selection v.selection sessions }
          | some i ↦ record v {
            selection = record { key = v.pending_key; index = i };
            pending_key = none;
          }
        ])
    go none e = a
    go (some i) e = cc

settle-found :
    (key : Str) (sessions : List MobileSession) (v : MobileView) (i : ℕ)
    → find_idx? (is_key (some key)) sessions ≡ some i
    → Awaits key v
    → (settle sessions v).selection ≡ record { key = some key; index = i }
unfolding settle
settle-found key sessions v i h a =
    go (find_idx? (is_key v.pending_key) sessions) (ap (λ k. find_idx? (is_key k) sessions) a ∙ h)
  where
    go :
        (o : Option ℕ)
        → o ≡ some i
        → (elim o as (λ _. MobileView) [
          | none ↦ record v { selection = reconcile_mobile_selection v.selection sessions }
          | some j ↦ record v {
            selection = record { key = v.pending_key; index = j };
            pending_key = none;
          }
        ]).selection
          ≡ record { key = some key; index = i }
    go none e = cc
    go (some j) e = ap₂ (λ k n. record { key = k; index = n }) a (some_inj e)

clear_pointer-Awaits :
    (key : Str) (v : MobileView) (id : ℕ) → Awaits key v → Awaits key (clear_pointer v id).0
unfolding clear_pointer
clear_pointer-Awaits key v id a = go (start_of v.pointer id)
  where
    go :
        (o : Option PointerStart)
        → Awaits key
            (elim o as (λ _. MobileView × Option PointerStart) [
              | none ↦ (v, none)
              | some s ↦ (record v { pointer = none }, some s)
            ]).0
    go none = a
    go (some s) = a

move_selection-Awaits :
    (key : Str) (sessions : List MobileSession) (v : MobileView) (o : Offset)
    → Awaits key v
    → Awaits key (move_selection sessions v o)
unfolding move_selection
move_selection-Awaits key sessions v o a = a

on_pointer_up-Awaits :
    (key : Str) (sessions : List MobileSession) (v : MobileView) (id x y : ℕ)
    → Awaits key v
    → Awaits key (on_pointer_up sessions v id x y)
unfolding on_pointer_up
on_pointer_up-Awaits key sessions v id x y a =
    go (clear_pointer v id).0 (clear_pointer v id).1 (clear_pointer-Awaits key v id a)
  where
    either :
        (b : Bool) (w w' : MobileView)
        → Awaits key w
        → Awaits key w'
        → Awaits key (if b then w else w')
    either true w w' h k = h
    either false w w' h k = k

    go :
        (w : MobileView) (o : Option PointerStart)
        → Awaits key w
        → Awaits key (swiped sessions w o x y)
    go w none h = h
    go w (some s) h = either _ w _ h (move_selection-Awaits key sessions w _ h)

on_key_down-Awaits :
    (key : Str) (sessions : List MobileSession) (v : MobileView) (k : Key)
    → Awaits key v
    → Awaits key (on_key_down sessions v k)
unfolding on_key_down
on_key_down-Awaits key sessions v arrow_down a = move_selection-Awaits key sessions v _ a
on_key_down-Awaits key sessions v arrow_left a = move_selection-Awaits key sessions v _ a
on_key_down-Awaits key sessions v arrow_right a = move_selection-Awaits key sessions v _ a
on_key_down-Awaits key sessions v arrow_up a = move_selection-Awaits key sessions v _ a
on_key_down-Awaits key sessions v end a = move_selection-Awaits key sessions v _ a
on_key_down-Awaits key sessions v home a = move_selection-Awaits key sessions v _ a
on_key_down-Awaits key sessions v other a = a

if-Awaits :
    (key : Str) (b : Bool) (v w : MobileView)
    → Awaits key v
    → Awaits key w
    → Awaits key (if b then v else w)
if-Awaits key true v w a c = a
if-Awaits key false v w a c = c

-- Until the session is listed, it stays the awaited one.
handle-Awaits :
    (key : Str) (sessions : List MobileSession) (v : MobileView) (e : Event)
    → Before key (sessions, e)
    → Awaits key v
    → Awaits key (handle sessions v e).0
unfolding handle close_creator created terminate_selected on_pointer_down
handle-Awaits key sessions v listed b a = settle-Awaits key sessions v b a
handle-Awaits key sessions v open_creator b a = a
handle-Awaits key sessions v shut_creator b a = a
handle-Awaits key sessions v (started server []) b a = settle-Awaits key sessions v b.0 a
handle-Awaits key sessions v (started server (s ∷ ss)) b a = cc (b.1)
handle-Awaits key sessions v (terminate server id true) b a = a
handle-Awaits key sessions v (terminate server id false) b a = a
handle-Awaits key sessions v terminated b a = a
handle-Awaits key sessions v (pointer_down e is_primary on_control) b a =
    if-Awaits key (not is_primary || is_some v.pointer || on_control) v _ a a
handle-Awaits key sessions v (pointer_up id x y) b a = on_pointer_up-Awaits key sessions v id x y a
handle-Awaits key sessions v (pointer_gone id) b a = clear_pointer-Awaits key v id a
handle-Awaits key sessions v (key_down k) b a = on_key_down-Awaits key sessions v k a

run-Awaits :
    (key : Str) (v : MobileView) (es : List (List MobileSession × Event))
    → All (Before key) es
    → Awaits key v
    → Awaits key (run v es)
unfolding run
run-Awaits key v [] b a = a
run-Awaits key v ((sessions, e) ∷ es) (b, bs) a =
    run-Awaits key (handle sessions v e).0 es bs (handle-Awaits key sessions v e b a)

created-Awaits :
    (sessions : List MobileSession) (v : MobileView) (server : Server) (s : Session)
    (ss : List Session)
    → find_idx? (is_key (some (session_key server s))) sessions ≡ none
    → Awaits (session_key server s) (handle sessions v (started server (s ∷ ss))).0
unfolding handle created close_creator
created-Awaits sessions v server s ss h =
    settle-Awaits (session_key server s) sessions
      (record v { pending_key = some (session_key server s) }) h refl

-- The first session of a launch is selected once it is listed, whatever is swiped, typed, opened,
-- terminated or listed before, as long as nothing else is launched.
pub started-selected :
    (sessions later : List MobileSession) (v : MobileView) (server : Server) (s : Session)
    (ss : List Session) (es : List (List MobileSession × Event)) (i : ℕ)
    → find_idx? (is_key (some (session_key server s))) sessions ≡ none
    → All (Before (session_key server s)) es
    → find_idx? (is_key (some (session_key server s))) later ≡ some i
    → (settle later (run (handle sessions v (started server (s ∷ ss))).0 es)).selection
      ≡ record { key = some (session_key server s); index = i }
started-selected sessions later v server s ss es i h b f =
    settle-found (session_key server s) later _ i f
      (run-Awaits (session_key server s) _ es b (created-Awaits sessions v server s ss h))
