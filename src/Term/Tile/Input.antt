-- ===== src/Term/Tile/Input.antt =====
-- Typing, pasting, focus and size in term/TerminalTile.tsx: the operations and the listeners.
use multimux.Base.{
  Bool, true, false, not, ◌&&◌, Option, none, some, List, [], ◌∷◌, ◌++◌, if◌then◌else◌, is_some,
  Str, str_eq, codes,
}
use multimux.Term.Tile.{Tile, Effect, send, return, resize, claim, fit_to_box}

-- `pasteAccepted = false`, while a paste is going on
abbrev pub refused : Option Bool → Option Bool
refused none = none
refused (some accepted) = some false

-- `sendInput`, with whether `ws.send` does not throw, and what it returns
unfoldable pub send_input : Tile → Str → Bool → (Tile × List Effect) × Bool
send_input t typed works =
    if is_some t.ws && t.ws_open && works
    then ((t, send typed ∷ []), true)
    else ((record t { paste_accepted = refused t.paste_accepted }, []), false)

-- The listener of `term.onData`
unfoldable pub on_data : Tile → Str → Bool → Tile × List Effect
on_data t typed works =
    if t.suppress_next_cr && str_eq typed (13 ∷ [])
    then (record t { suppress_next_cr = false }, [])
    else (send_input t typed works).0

unfoldable pub on_all_data : Tile → List Str → Bool → Tile × List Effect
on_all_data t [] works = (t, [])
on_all_data t (d ∷ ds) works =
    let (t', now) = on_data t d works in
    let (t'', later) = on_all_data t' ds works in (t'', now ++ later)

unfoldable pub input : Tile → Str → Bool → Tile × List Effect
input t typed works =
    if is_some t.ws && t.ws_open
    then (let (r, sent) = send_input t typed works in (r.0, claim t ++ (r.1 ++ return sent ∷ [])))
    else (t, return false ∷ [])

abbrev pub accepted : Option Bool → Bool
accepted none = false
accepted (some b) = b

-- `paste`; `term.paste` gives its data to `onData` in pieces, or throws after some
unfoldable pub paste : Tile → List Str → Bool → Bool → Tile × List Effect
paste t pieces throws works =
    if is_some t.ws && t.ws_open
    then (let (t', sent) = on_all_data (record t { paste_accepted = some true }) pieces works in
        (
          record t' { paste_accepted = none },
          claim t ++ (sent ++ return (not throws && accepted t'.paste_accepted) ∷ []),
        ))
    else (t, return false ∷ [])

-- `reflow`, and `fit` of the operations
unfoldable pub reflow : Tile → Bool → List Effect
reflow t box = fit_to_box box ++ resize t false

-- `shiftEnterCapture`, with whether the key is Enter with Shift alone; the sequence is CSI 13;2u.
unfoldable pub on_key : Tile → Bool → Tile × List Effect
on_key t shift_enter =
    if shift_enter
    then (
      record t { suppress_next_cr = true },
      claim t ++ (if is_some t.ws && t.ws_open then send (27 ∷ codes "[13;2u") ∷ [] else []),
    )
    else (t, claim t)

-- `claimOnFocus`, with `userActivation.isActive` where the browser has it
unfoldable pub on_focus : Tile → Option Bool → List Effect
on_focus t (some false) = []
on_focus t _ = claim t

-- The callback of the observer, with `isReflowHeld`, and that of the reflow gate
unfoldable pub on_resized : Tile → Bool → Bool → Tile × List Effect
on_resized t held box = if held then (record t { reflow_pending = true }, []) else (t, reflow t box)

unfoldable pub on_released : Tile → Bool → Tile × List Effect
on_released t box =
    if t.reflow_pending then (record t { reflow_pending = false }, reflow t box) else (t, [])
