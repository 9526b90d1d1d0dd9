-- ===== src/Settings/Reorder/Shown.antt =====
-- What the panel shows and sends when a row is moved.
use multimux.Base.{
  ℕ, suc, ◌+◌, ◌≡◌, refl, sym, ap, ◌∙◌, inl, inr, Bool, true, ◌&&◌, Option, none, some, List, [],
  ◌∷◌, map, ◌==◌, ==_refl, arith, length, all, any, get_elem?, erase_idx, lt-length_of_get_elem?,
  zero, Bool-cases, Option-cases, subst, append_assoc, ◌++◌,
}
use multimux.Base.Int.{ℤ, pos, ◌-ℤ◌}
use mathlib.Core.List.{Perm}
use multimux.Settings.Reorder.{
  insert_at, moved, Reorder, Effect, put, Event, drag_start, drag_over, drag_leave, drop, drag_end,
  key_up, key_down, saved, failed, drag_from, same, ordered, save, move, on_drop, handle,
}
use multimux.Settings.Reorder.Moves.{
  Relocates, moved-Relocates, insert_at-erase_idx, length-erase_idx,
}

module _ {T : Type 0} where
  all-insert_at :
      (t : T → Bool) (xs : List T) (i : ℕ) (v : T) → all t (insert_at xs i v) ≡ (t v && all t xs)
  all-insert_at t xs zero v = refl
  all-insert_at t [] (suc i) v = refl
  all-insert_at t (x ∷ xs) (suc i) v = rw (all-insert_at t xs i v) (ground arith)

  all-split :
      (t : T → Bool) (xs : List T) (i : ℕ) (v : T)
      → get_elem? xs i ≡ some v
      → all t xs ≡ (t v && all t (erase_idx xs i))
  all-split t xs i v e =
      ap (all t) (sym (insert_at-erase_idx xs i v e)) ∙ all-insert_at t (erase_idx xs i) i v

  -- Relocating a row changes no test of all rows, and not the number of rows.
  all-Relocates :
      (t : T → Bool) {items next : List T} {from to : ℕ}
      → Relocates items next from to
      → all t next ≡ all t items
  all-Relocates t {items = items} {next = next} {from = from} {to = to} r =
      all-split t next to r.row r.target
      ∙ ap (λ ys. t r.row && all t ys) r.others
      ∙ sym (all-split t items from r.row r.source)

  length-Relocates :
      {items next : List T} {from to : ℕ}
      → Relocates items next from to
      → length next ≡ length items
  length-Relocates {items = items} {next = next} {from = from} {to = to} r =
      sym (length-erase_idx next to (lt-length_of_get_elem? next to r.target))
      ∙ ap (λ ys. suc (length ys)) r.others
      ∙ length-erase_idx items from (lt-length_of_get_elem? items from r.source)

  any-middle :
      (t : T → Bool) (pre : List T) (x : T) (xs : List T)
      → t x ≡ true
      → any t (pre ++ x ∷ xs) ≡ true
  any-middle t [] x xs e = rw e refl
  any-middle t (y ∷ pre) x xs e = ground (arith, any-middle t pre x xs e)

module _ {T : Type 0} (id : T → ℕ) where
  all-among : (pre xs : List T) → all (λ p. any (λ i. id i == id p) (pre ++ xs)) xs ≡ true
  all-among pre [] = refl
  all-among pre (x ∷ xs) = rw (any-middle (λ i. id i == id x) pre x xs (==_refl (id x))) (
      subst (λ ys. all (λ p. any (λ i. id i == id p) ys) xs ≡ true) (append_assoc pre (x ∷ []) xs)
        (all-among (pre ++ x ∷ []) xs))

  -- A list that matches stays matching when a row is moved, and the list itself matches.
  same-Relocates :
      {shown next : List T} {from to : ℕ} (items : List T)
      → Relocates shown next from to
      → same id next items ≡ same id shown items
  unfolding same
  same-Relocates items r =
      rw (length-Relocates r, all-Relocates (λ p. any (λ i. id i == id p) items) r) refl

  same_refl : (items : List T) → same id items items ≡ true
  unfolding same
  same_refl items = rw (==_refl (length items), all-among [] items) refl

  same-ordered :
      (pending : Option (List T)) (items : List T) → same id (ordered id pending items) items ≡ true
  unfolding ordered
  same-ordered none items = same_refl items
  same-ordered (some p) items = elim (Bool-cases (same id p items)) [
    | inl e ↦ rw (e, ordered) e
    | inr e ↦ rw (e, ordered) (same_refl items)
  ]

  put_inj : {a b : List ℕ} → put a ∷ [] ≡ put b ∷ [] → a ≡ b
  put_inj e = cc

  -- What a step that sends the ids `ids` comes to.
  abbrev Sends : Reorder T → List ℕ → Reorder T × List Effect → Type 0
  Sends s ids r =
      r.1 ≡ put ids ∷ []
      → (ids ≡ map id (ordered id r.0.pending r.0.items))
        × Perm (ordered id r.0.pending r.0.items) (ordered id s.pending s.items)
        × (r.0.error ≡ none)

  save-Sends :
      (s : Reorder T) (next : List T) (ids : List ℕ) (from to : ℕ)
      → Relocates (ordered id s.pending s.items) next from to
      → Sends s ids (save id s next)
  unfolding save ordered
  save-Sends s next ids from to r e =
      let fits : same id next s.items ≡ true =
        same-Relocates s.items r ∙ same-ordered s.pending s.items in
      rw fits (sym (put_inj e), r.perm, refl)

  move-Sends : (s : Reorder T) (ids : List ℕ) (from to : ℤ) → Sends s ids (move id s from to)
  unfolding move
  move-Sends s ids from to = elim (Option-cases (moved (ordered id s.pending s.items) from to)) [
    | inl e ↦ rw (e, move) (λ e. cc)
    | inr (next, e) ↦
        let (f, t, _, _, r) = moved-Relocates _ next from to e in
        rw (e, move) (save-Sends s next ids f t r)
  ]

  on_drop-Sends :
      (s : Reorder T) (i : ℕ) (raw : Option ℤ) (ids : List ℕ) → Sends s ids (on_drop id s i raw)
  unfolding on_drop
  on_drop-Sends s i raw ids = elim (Option-cases (drag_from s.drag_index raw)) [
    | inl e ↦ rw (e, on_drop) (λ e. cc)
    | inr (from, e) ↦
        rw (e, on_drop)
          (move-Sends (record s { drag_index = none; over_index = none }) ids from (pos i))
  ]

  -- A request is sent with the ids of the rows as they are on screen from then on: those that were
  -- on screen before, in some order, whatever order of the server's list was pending. The last error is
  -- taken away.
  pub handle-Sends :
      (s : Reorder T) (e : Event) (ids : List ℕ)
      → (handle id s e).1 ≡ put ids ∷ []
      → (ids ≡ map id (ordered id (handle id s e).0.pending (handle id s e).0.items))
        × Perm
            (ordered id (handle id s e).0.pending (handle id s e).0.items)
            (ordered id s.pending s.items)
        × ((handle id s e).0.error ≡ none)
  unfolding handle
  handle-Sends s (drag_start i) ids h = cc
  handle-Sends s (drag_over i) ids h = cc
  handle-Sends s (drag_leave i) ids h = cc
  handle-Sends s (drop i raw) ids h = on_drop-Sends s i raw ids h
  handle-Sends s drag_end ids h = cc
  handle-Sends s (key_up i) ids h = move-Sends s ids (pos i) (pos i -ℤ pos 1) h
  handle-Sends s (key_down i) ids h = move-Sends s ids (pos i) (pos (i + 1)) h
  handle-Sends s saved ids h = cc
  handle-Sends s (failed text) ids h = cc
