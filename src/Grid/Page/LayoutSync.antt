-- ===== src/Grid/Page/LayoutSync.antt =====
-- How the page and the daemon agree on the layout: `persist`, `flushLayout` and `refreshLayout`.
--
-- The refs and the state that they share are one record. A request is what a function returns
-- beside the next record; its end is a call of `written` or of `on_layout`.
pub mod System
pub mod Sound
pub mod Agreement
pub mod Drain
use multimux.Base.{
  ℕ, suc, Bool, true, false, not, ◌||◌, Option, none, some, List, [], ◌∷◌, if◌then◌else◌, ◌==◌, any,
  is_some, Str, str_eq,
}
use multimux.Grid.Numbers.{Numbers}
use multimux.Grid.Model.{Tile, Layout, occupied, normalize}
use multimux.Grid.View.{tile_key}

pub record LayoutSync (N : Type 0) : Type 0 where
  -- `layout` and `layoutRef`
  pub layout : Layout N
  pub maximized : Option Str
  pub pending_write : Option (Layout N)
  pub write_in_flight : Bool
  pub edit_serial : ℕ
  pub settled : Bool

-- What a call of `refreshLayout` remembers until its answer
pub record Fetch : Type 0 where
  pub writing_at_issue : Bool
  pub edit_serial : ℕ
  pub settle : Bool

-- `(k) => (k && !l.tiles.some((t) => t && tileKey(t) === k) ? null : k)`
unfoldable pub kept_key : {N : Type 0} → Layout N → Option Str → Option Str
kept_key l none = none
kept_key l (some []) = some []
kept_key l (some (c ∷ s)) =
    if any (λ t. str_eq (tile_key t) (c ∷ s)) (occupied l.tiles) then some (c ∷ s) else none

module _ {N : Type 0} where
  unfoldable pub adopt_layout : LayoutSync N → Layout N → LayoutSync N
  adopt_layout s l = record s { layout = l; maximized = kept_key l s.maximized }

  -- With the layouts that are sent: one or none
  unfoldable pub flush_layout : LayoutSync N → LayoutSync N × List (Layout N)
  flush_layout s = elim s.pending_write [
    | none ↦ (s, [])
    | some l ↦
        if s.write_in_flight
        then (s, [])
        else (record s { pending_write = none; write_in_flight = true }, l ∷ [])
  ]

  -- The end of a write, well or not
  unfoldable pub written : LayoutSync N → LayoutSync N × List (Layout N)
  written s = flush_layout (record s { write_in_flight = false })

  unfoldable pub persist : LayoutSync N → (Layout N → Layout N) → LayoutSync N × List (Layout N)
  persist s update =
      let next = update s.layout in
      flush_layout (record (adopt_layout s next) {
        edit_serial = suc s.edit_serial;
        pending_write = some next;
      })

  abbrev pub writing : LayoutSync N → Bool
  writing s = s.write_in_flight || is_some s.pending_write

  unfoldable pub refresh_layout : LayoutSync N → Bool → Fetch
  refresh_layout s settle = record {
    writing_at_issue = writing s;
    edit_serial = s.edit_serial;
    settle = settle;
  }

  -- Whether an answer may predate a local edit
  abbrev pub is_late : LayoutSync N → Fetch → Bool
  is_late s f = f.writing_at_issue || writing s || not (f.edit_serial == s.edit_serial)

  -- `setLayoutSettled`
  abbrev pub settled_by : LayoutSync N → Fetch → LayoutSync N
  settled_by s f = record s { settled = s.settled || f.settle }

module _ (R : Numbers) where
  open R use {Num}

  -- The canonical form of a stored layout
  unfoldable pub loaded : Layout Num → Layout Num
  loaded v = normalize R v.tiles v.shape.cols v.row_sizes v.col_sizes

  -- An answer: none if the request failed, and no layout if the value is none
  unfoldable pub on_layout : LayoutSync Num → Fetch → Option (Option (Layout Num)) → LayoutSync Num
  on_layout s f none = settled_by s f
  on_layout s f (some none) = settled_by s f
  on_layout s f (some (some v)) =
      settled_by (if is_late s f then s else adopt_layout s (loaded v)) f
