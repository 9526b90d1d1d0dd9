-- ===== src/Settings/Reorder/Tests.antt =====
-- Runs of reordering (settings/useReorder.ts).
use multimux.Base.{ℕ, ◌≡◌, refl, none, some, List, [], ◌∷◌, map, codes}
use multimux.Base.Int.{pos, negsuc}
use mathlib.Core.List.{Perm}
use multimux.Settings.Reorder.{
  relocated, moved, Reorder, Effect, put, drop, same, ordered, save, move, on_drop, handle,
}
use multimux.Settings.Reorder.Moves.{Relocates, moved-Relocates}
use multimux.Settings.Reorder.Shown.{handle-Sends}

abbrev ids : ℕ → ℕ
ids n = n

abbrev four : List ℕ
four = 11 ∷ 12 ∷ 13 ∷ 14 ∷ []

a_move_on : moved four (pos 0) (pos 2) ≡ some (12 ∷ 13 ∷ 11 ∷ 14 ∷ [])
unfolding moved relocated
a_move_on = refl

off_the_top : moved four (pos 0) (negsuc 0) ≡ none
unfolding moved
off_the_top = refl

moved-Relocates_example :
    (from : ℕ) × (to : ℕ) × (pos 0 ≡ pos from)
    × (pos 2 ≡ pos to)
    × Relocates four (12 ∷ 13 ∷ 11 ∷ 14 ∷ []) from to
moved-Relocates_example = moved-Relocates four (12 ∷ 13 ∷ 11 ∷ 14 ∷ []) (pos 0) (pos 2) a_move_on

abbrev dragging : Reorder ℕ
dragging = record {
  items = four;
  pending = some (12 ∷ 11 ∷ 13 ∷ 14 ∷ []);
  drag_index = some 3;
  over_index = some 1;
  error = some (codes "late");
}

abbrev after_drop : Reorder ℕ × List Effect
after_drop = handle ids dragging (drop 1 none)

sent : after_drop.1 ≡ put (12 ∷ 14 ∷ 11 ∷ 13 ∷ []) ∷ []
unfolding handle on_drop move moved relocated save ordered same
sent = refl

handle-Sends_example :
    (12 ∷ 14 ∷ 11 ∷ 13 ∷ [] ≡ map ids (ordered ids after_drop.0.pending after_drop.0.items))
    × Perm
        (ordered ids after_drop.0.pending after_drop.0.items)
        (ordered ids dragging.pending dragging.items)
    × (after_drop.0.error ≡ none)
handle-Sends_example = handle-Sends ids dragging (drop 1 none) (12 ∷ 14 ∷ 11 ∷ 13 ∷ []) sent
