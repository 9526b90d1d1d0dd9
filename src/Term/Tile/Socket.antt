-- ===== src/Term/Tile/Socket.antt =====
-- The socket and its reconnection: `connect` and the callbacks it sets, in term/TerminalTile.tsx.
use multimux.Base.{
  ℕ, suc, ◌-◌, ◌*◌, min, Bool, true, false, not, ◌||◌, Option, none, some, List, [], ◌∷◌, ◌++◌,
  if◌then◌else◌, Str, str_eq, codes,
}
use multimux.Term.Tile.{
  ConnState, connecting, opened, offline, exited, missing, auth, Tile, Effect, new_socket,
  close_socket, set_state, write, set_timeout, classify, Message, bytes, text, without, resize,
  fit_to_box,
}
use multimux.Term.Tile.Close.{Kind, retry, gone_exited, gone_missing, gone_auth}

unfoldable pub connect : Tile → Tile × List Effect
connect t = if t.closed then (t, []) else (
  record t {
    state = connecting;
    ws = some t.fresh;
    ws_open = false;
    attached = t.fresh ∷ t.attached;
    fresh = suc t.fresh;
  },
  set_state connecting ∷ new_socket t.fresh ∷ [],
)

-- `ws.onopen`; its socket is OPEN
unfoldable pub on_open : Tile → Bool → Tile × List Effect
on_open t box =
    let t' = record t { state = opened; ws_open = true; backoff = 500 } in
    (t', set_state opened ∷ (fit_to_box box ++ resize t' false))

abbrev pub is_exit : Option Str → Bool
is_exit none = false
is_exit (some type) = str_eq type (codes "exit")

abbrev pub closing : Option ℕ → List Effect
closing none = []
closing (some w) = close_socket w ∷ []

-- `ws.onmessage`
unfoldable pub on_message : Tile → Message → Tile × List Effect
on_message t (bytes b) = if t.closed then (t, []) else (t, write b ∷ [])
on_message t (text type) = if t.closed || not (is_exit type) then (t, []) else (
  record t { state = exited; closed = true; ws_open = false },
  set_state exited ∷ closing t.ws,
)

-- `ws.onclose`, up to its `await`
unfoldable pub on_close : Tile → ℕ → Tile × List Effect
on_close t id =
    let gone = record t { attached = without id t.attached; ws_open = false } in
    if t.closed then (gone, []) else (
      record gone { state = offline; classifying = suc t.classifying },
      set_state offline ∷ classify ∷ [],
    )

abbrev ended : Tile → ConnState → Tile × List Effect
ended t state = (record t { closed = true; state = state }, set_state state ∷ [])

abbrev pub after : Tile → Kind → Tile × List Effect
after t retry = (
  record t {
    timeout = some t.fresh;
    pending = t.fresh ∷ t.pending;
    backoff = min (t.backoff * 2) 10000;
    fresh = suc t.fresh;
  },
  set_timeout t.fresh t.backoff ∷ [],
)
after t gone_exited = ended t exited
after t gone_missing = ended t missing
after t gone_auth = ended t auth

-- The rest of `ws.onclose`
unfoldable pub on_classified : Tile → Kind → Tile × List Effect
on_classified t kind =
    let told = record t { classifying = t.classifying - 1 } in
    if t.closed then (told, []) else after told kind

unfoldable pub on_timer : Tile → ℕ → Tile × List Effect
on_timer t id = connect (record t { pending = without id t.pending })
