-- ===== src/Term/Tile.antt =====
-- A terminal's socket, and who may size its window: term/TerminalTile.tsx, for one run of its effect.
--
-- The effect's variables are a record, its callbacks are events, and what it does is a list of
-- effects. A socket or a timer is named by a number; a timer that was cleared is not called back, and a
-- socket that was given up calls back with its open event only.
-- `ws.readyState` is OPEN from the socket's open event until it closes or begins to. Text is sent as
-- its code units. Not here: uploads, selection and copying, links, and the renderer.
pub mod Close
pub mod Socket
pub mod Input
pub mod Life
pub mod Untouched
pub mod Line
pub mod Connected
pub mod Silence
pub mod Claimless
pub mod Claims
mod Tests
use multimux.Base.{
  ℕ, Bool, true, false, not, ◌&&◌, Option, List, [], ◌∷◌, if◌then◌else◌, ◌==◌, filter, any, is_some,
  Str,
}

-- `ConnState`; `open` is a reserved word
pub data ConnState : Type 0 where
  connecting opened offline exited missing auth : ConnState

pub data SizePolicy : Type 0 where
  follow_input passive : SizePolicy

pub record Tile : Type 0 where
  pub policy : SizePolicy
  pub state : ConnState
  pub ws : Option ℕ
  -- whether that socket is OPEN
  pub ws_open : Bool
  -- the sockets that have not told their closing, so that they still call back
  pub attached : List ℕ
  -- the sockets whose `onmessage` and `onclose` were set to null; `onopen` stays
  pub muted : List ℕ
  pub closed : Bool
  pub backoff : ℕ
  pub timeout : Option ℕ
  -- the timers that have been set, and neither fired nor been cleared
  pub pending : List ℕ
  -- how many calls of `classifyClose` have not answered
  pub classifying : ℕ
  pub paste_accepted : Option Bool
  pub suppress_next_cr : Bool
  pub reflow_pending : Bool
  -- a number that no socket or timer has yet
  pub fresh : ℕ

pub data Effect : Type 0 where
  new_socket close_socket : ℕ → Effect
  set_state : ConnState → Effect
  fit : Effect
  -- `ws.send(encodeResize(…))`, with its last argument
  send_resize : Bool → Effect
  send : Str → Effect
  -- `term.write`
  write : Str → Effect
  set_font_size : ℕ → Effect
  set_timeout : ℕ → ℕ → Effect
  -- a call of `classifyClose`
  classify : Effect
  -- what an operation returns
  return : Bool → Effect

-- A message of the daemon: bytes, or a text with what `parseServerText` finds as its type
pub data Message : Type 0 where
  bytes : Str → Message
  text : Option Str → Message

abbrev pub without : ℕ → List ℕ → List ℕ
without n = filter (λ m. not (m == n))

abbrev pub has : ℕ → List ℕ → Bool
has n = any (λ m. m == n)

-- `sendResize`
unfoldable pub resize : Tile → Bool → List Effect
resize t active = if is_some t.ws && t.ws_open then send_resize active ∷ [] else []

abbrev follows : SizePolicy → Bool
follows follow_input = true
follows passive = false

-- `claimForInteraction`
unfoldable pub claim : Tile → List Effect
claim t = if follows t.policy then resize t true else []

-- `fitToBox`, with whether the container has a box
unfoldable pub fit_to_box : Bool → List Effect
fit_to_box box = if box then fit ∷ [] else []
