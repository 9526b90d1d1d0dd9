-- ===== src/Events.antt =====
-- The events socket that hooks share: useEvents.ts, for one URL.
--
-- A connection is a state, and what its closures do is a list of effects. The browser calls back by
-- events: a socket or a timer is named by a number, and a callback that was taken away, or a timer
-- that was cleared, is not called. The time, whether the socket's `readyState` is OPEN, and whether
-- the page is hidden come with the event that asks.
pub mod Health
pub mod Silence
mod Tests
use multimux.Base.{
  ℕ, suc, ◌+◌, ◌-◌, ◌*◌, min, Bool, true, false, not, ◌&&◌, ◌||◌, Option, none, some, List, [], ◌∷◌,
  ◌++◌, map, if◌then◌else◌, ◌==◌, ltb, leb, filter, any, is_some, Str, str_eq, codes,
}

-- `EventsStatus`; `open` is a reserved word
pub data Status : Type 0 where
  opened auth_expired forbidden ws_blocked unreachable : Status

-- A type that a message tells: a text, or another value that is truthy, by a number.
pub data EventType : Type 0 where
  text : Str → EventType
  truthy : ℕ → EventType

pub data Effect : Type 0 where
  new_socket : ℕ → Effect
  close_socket : ℕ → Effect
  -- a timer, and its delay
  set_timeout : ℕ → ℕ → Effect
  -- the request of `classify`
  probe : Effect
  on_status : ℕ → Status → Effect
  on_hello : ℕ → Str → Effect
  on_event : ℕ → EventType → Effect

pub record Connection : Type 0 where
  pub subscribers : List ℕ
  pub last_status : Option Status
  pub last_build : Option Str
  pub ws : Option ℕ
  -- the sockets that still call back
  pub attached : List ℕ
  pub closed : Bool
  pub backoff : ℕ
  -- `reconnectTimeoutId`
  pub timeout : Option ℕ
  -- the timers that have been set, and neither fired nor been cleared
  pub pending : List ℕ
  pub fails : ℕ
  pub last_frame_at : ℕ
  -- a number that no socket or timer has yet
  pub fresh : ℕ

-- What a message holds: its type, where it has one that is not falsy but for the empty text, and its
-- build, where that is a text. `no_json` is one whose parsing or taking apart throws.
pub data Frame : Type 0 where
  no_json : Frame
  frame : Option EventType → Option Str → Frame

pub data Event : Type 0 where
  socket_open : ℕ → ℕ → Event
  socket_message : ℕ → ℕ → Frame → Event
  socket_close : ℕ → Event
  timer : ℕ → ℕ → Event
  -- the time, and whether the socket is open
  live_check : ℕ → Bool → Event
  -- the same, and whether the page is hidden
  resume : ℕ → Bool → Bool → Event
  classified : Status → Event
  join : ℕ → Event

abbrev pub without : ℕ → List ℕ → List ℕ
without n = filter (λ m. not (m == n))

abbrev pub has : ℕ → List ℕ → Bool
has n = any (λ m. m == n)

unfoldable pub set_status : Connection → Status → Connection × List Effect
set_status c s = (record c { last_status = some s }, map (λ h. on_status h s) c.subscribers)

unfoldable pub connect : Connection → ℕ → Connection × List Effect
connect c now = if c.closed then (c, []) else (
  record c {
    last_frame_at = now;
    ws = some c.fresh;
    attached = c.fresh ∷ c.attached;
    fresh = suc c.fresh;
  },
  new_socket c.fresh ∷ [],
)

-- `ws.onopen`
unfoldable pub on_open : Connection → ℕ → Connection × List Effect
on_open c now =
    set_status (record c { backoff = 1000; fails = 0; last_frame_at = now }) Status.opened

abbrev or_empty : Option Str → Str
or_empty none = []
or_empty (some s) = s

unfoldable pub on_frame : Connection → Frame → Connection × List Effect
on_frame c no_json = (c, [])
on_frame c (frame none build) = (c, [])
on_frame c (frame (some (text [])) build) = (c, [])
on_frame c (frame (some (truthy n)) build) = (c, map (λ h. on_event h (truthy n)) c.subscribers)
on_frame c (frame (some (text (k ∷ type))) build) =
    let told = map (λ h. on_event h (text (k ∷ type))) c.subscribers in
    if str_eq (k ∷ type) (codes "hello")
    then (
      record c { last_build = some (or_empty build) },
      map (λ h. on_hello h (or_empty build)) c.subscribers ++ told,
    )
    else (c, told)

-- `ws.onmessage`
unfoldable pub on_message : Connection → ℕ → Frame → Connection × List Effect
on_message c now f = on_frame (record c { last_frame_at = now }) f

-- `ws.onclose`, of a socket that will call back no more
unfoldable pub on_close : Connection → ℕ → Connection × List Effect
on_close c id =
    let gone = record c { attached = without id c.attached } in
    if c.closed then (gone, []) else (
      record gone {
        fails = c.fails + 1;
        timeout = some c.fresh;
        pending = c.fresh ∷ c.pending;
        fresh = suc c.fresh;
        backoff = min (c.backoff * 2) 15000;
      },
      (if leb 2 (c.fails + 1) then probe ∷ [] else []) ++ set_timeout c.fresh c.backoff ∷ [],
    )

abbrev pub cleared : Option ℕ → List ℕ → List ℕ
cleared none pending = pending
cleared (some t) pending = without t pending

abbrev pub detached : Option ℕ → List ℕ → List ℕ
detached none attached = attached
detached (some w) attached = without w attached

abbrev pub closing : Option ℕ → List Effect
closing none = []
closing (some w) = close_socket w ∷ []

unfoldable pub reconnect_now : Connection → ℕ → Connection × List Effect
reconnect_now c now =
    if c.closed
    then (c, [])
    else (let (c', made) =
          connect
            (record c {
              pending = cleared c.timeout c.pending;
              timeout = none;
              backoff = 1000;
              attached = detached c.ws c.attached;
              ws = none;
            })
            now in
        (c', closing c.ws ++ made))

-- `stale`, 75 seconds without a frame
unfoldable pub stale : Connection → ℕ → Bool
stale c now = ltb 75000 (now - c.last_frame_at)

unfoldable pub on_live_check : Connection → ℕ → Bool → Connection × List Effect
on_live_check c now is_open =
    if not c.closed && (is_some c.ws && is_open) && stale c now
    then reconnect_now c now
    else (c, [])

unfoldable pub on_resume : Connection → ℕ → Bool → Bool → Connection × List Effect
on_resume c now is_open hidden =
    if c.closed || hidden
    then (c, [])
    else if not (is_some c.ws && is_open) || stale c now
    then reconnect_now c now
    else (c, [])

abbrev replay_status : ℕ → Option Status → List Effect
replay_status h none = []
replay_status h (some s) = on_status h s ∷ []

abbrev replay_build : ℕ → Option Str → List Effect
replay_build h none = []
replay_build h (some b) = on_hello h b ∷ []

-- `subscribe`, for a connection that is there
unfoldable pub subscribe : Connection → ℕ → Connection × List Effect
subscribe c h = (
  record c { subscribers = if has h c.subscribers then c.subscribers else c.subscribers ++ h ∷ [] },
  replay_status h c.last_status ++ replay_build h c.last_build,
)

-- The end of `classify`
unfoldable pub on_classified : Connection → Status → Connection × List Effect
on_classified c s = if c.closed then (c, []) else set_status c s

unfoldable pub handle : Connection → Event → Connection × List Effect
handle c (socket_open id now) = if has id c.attached then on_open c now else (c, [])
handle c (socket_message id now f) = if has id c.attached then on_message c now f else (c, [])
handle c (socket_close id) = if has id c.attached then on_close c id else (c, [])
handle c (timer id now) =
    if has id c.pending then connect (record c { pending = without id c.pending }) now else (c, [])
handle c (live_check now is_open) = on_live_check c now is_open
handle c (resume now is_open hidden) = on_resume c now is_open hidden
handle c (classified s) = on_classified c s
handle c (join h) = subscribe c h

unfoldable pub handle_all : Connection → List Event → Connection × List Effect
handle_all c [] = (c, [])
handle_all c (e ∷ es) =
    let (c', now) = handle c e in let (c'', later) = handle_all c' es in (c'', now ++ later)

-- `open`, with the first subscriber
unfoldable pub open_connection : ℕ → ℕ → Connection × List Effect
open_connection first now =
    connect
      (record {
        subscribers = first ∷ [];
        last_status = none;
        last_build = none;
        ws = none;
        attached = [];
        closed = false;
        backoff = 1000;
        timeout = none;
        pending = [];
        fails = 0;
        last_frame_at = now;
        fresh = 0;
      })
      now

-- `conn.stop`
unfoldable pub stop : Connection → Connection × List Effect
stop c = (record c { closed = true; pending = cleared c.timeout c.pending }, closing c.ws)

-- The function that `subscribe` returns, with whether the connection leaves the map.
unfoldable pub unsubscribe : Connection → ℕ → (Connection × List Effect) × Bool
unsubscribe c h = elim (without h c.subscribers) [
  | [] ↦ (stop (record c { subscribers = [] }), true)
  | s ∷ rest ↦ ((record c { subscribers = s ∷ rest }, []), false)
]

-- `status` of `classify`, by what the request gave: no answer, or a code and whether it is ok.
pub data Answer : Type 0 where
  no_answer : Answer
  answer : ℕ → Bool → Answer

unfoldable pub classify : Answer → Status
classify no_answer = unreachable
classify (answer code ok) =
    if code == 401
    then auth_expired
    else if code == 403
    then forbidden
    else if ok
    then ws_blocked
    else unreachable
