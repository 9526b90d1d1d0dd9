-- ===== src/Settings/Reorder/Moves.antt =====
-- Where a moved row goes, and what becomes of the others.
use multimux.Base.{
  ℕ, zero, suc, ◌≤◌, ◌<◌, ◌≡◌, ◌≢◌, refl, sym, ap, ◌∙◌, inl, inr, none, some, List, [], ◌∷◌, arith,
  length, get_elem?, erase_idx, lt-length_of_get_elem?, some_inj, Option-cases, subst,
}
use multimux.Base.Int.{ℤ, pos, negsuc}
use mathlib.Core.List.Perm
use mathlib.Core.List.{Perm}
use multimux.Settings.Reorder.{insert_at, relocated, moved}

module _ {T : Type 0} where
  erase_idx-insert_at :
      (xs : List T) (i : ℕ) (v : T) → i ≤ length xs → erase_idx (insert_at xs i v) i ≡ xs
  erase_idx-insert_at xs zero v h = refl
  erase_idx-insert_at [] (suc i) v h = absurd (omega (arith, h))
  erase_idx-insert_at (x ∷ xs) (suc i) v h =
      ap (x ∷◌) (erase_idx-insert_at xs i v (omega (arith, h)))

  get_elem?-insert_at :
      (xs : List T) (i : ℕ) (v : T) → i ≤ length xs → get_elem? (insert_at xs i v) i ≡ some v
  get_elem?-insert_at xs zero v h = refl
  get_elem?-insert_at [] (suc i) v h = absurd (omega (arith, h))
  get_elem?-insert_at (x ∷ xs) (suc i) v h = get_elem?-insert_at xs i v (omega (arith, h))

  pub insert_at-erase_idx :
      (xs : List T) (i : ℕ) (v : T) → get_elem? xs i ≡ some v → insert_at (erase_idx xs i) i v ≡ xs
  insert_at-erase_idx [] i v h = cc
  insert_at-erase_idx (x ∷ xs) zero v h = ap (◌∷ xs) (sym (some_inj h))
  insert_at-erase_idx (x ∷ xs) (suc i) v h = ap (x ∷◌) (insert_at-erase_idx xs i v h)

  length-insert_at : (xs : List T) (i : ℕ) (v : T) → length (insert_at xs i v) ≡ suc (length xs)
  length-insert_at xs zero v = refl
  length-insert_at [] (suc i) v = refl
  length-insert_at (x ∷ xs) (suc i) v = ap suc (length-insert_at xs i v)

  pub length-erase_idx :
      (xs : List T) (i : ℕ) → i < length xs → suc (length (erase_idx xs i)) ≡ length xs
  length-erase_idx [] i h = absurd (omega (arith, h))
  length-erase_idx (x ∷ xs) zero h = refl
  length-erase_idx (x ∷ xs) (suc i) h = ap suc (length-erase_idx xs i (omega (arith, h)))

  insert_at-perm : (xs : List T) (i : ℕ) (v : T) → Perm (insert_at xs i v) (v ∷ xs)
  insert_at-perm xs zero v = Perm.refl _
  insert_at-perm [] (suc i) v = Perm.refl _
  insert_at-perm (x ∷ xs) (suc i) v =
      Perm.trans (Perm.cons x (insert_at-perm xs i v)) (Perm.swap v x xs)

  erase_idx-perm :
      (xs : List T) (i : ℕ) (v : T) → get_elem? xs i ≡ some v → Perm xs (v ∷ erase_idx xs i)
  erase_idx-perm xs i v h =
      subst (λ ys. Perm ys (v ∷ erase_idx xs i)) (insert_at-erase_idx xs i v h)
        (insert_at-perm (erase_idx xs i) i v)

  -- The row that stood at `from` stands at `to`, and the others keep their order.
  pub record Relocates (items next : List T) (from to : ℕ) : Type 0 where
    pub row : T
    pub source : get_elem? items from ≡ some row
    pub target : get_elem? next to ≡ some row
    pub others : erase_idx next to ≡ erase_idx items from
    pub perm : Perm next items
    pub back : moved next (pos to) (pos from) ≡ some items

  moved-inside :
      (items : List T) (from to : ℕ)
      → from ≢ to
      → from < length items
      → to < length items
      → moved items (pos from) (pos to) ≡ relocated items from to
  unfolding moved
  moved-inside items from to ne f t = ground arith

  insert_at-Relocates :
      (items : List T) (from to : ℕ) (row : T)
      → from ≢ to
      → to < length items
      → get_elem? items from ≡ some row
      → Relocates items (insert_at (erase_idx items from) to row) from to
  unfolding relocated
  insert_at-Relocates items from to row ne t e =
      let f : from < length items = lt-length_of_get_elem? items from e in
      let rest = erase_idx items from in
      let n : suc (length rest) ≡ length items = length-erase_idx items from f in
      let fits : to ≤ length rest = omega (arith, n, t) in
      let grown : length (insert_at rest to row) ≡ length items =
        length-insert_at rest to row ∙ n in
      let here : get_elem? (insert_at rest to row) to ≡ some row =
        get_elem?-insert_at rest to row fits in
      record {
        row = row;
        source = e;
        target = here;
        others = erase_idx-insert_at rest to row fits;
        perm =
            Perm.trans (insert_at-perm rest to row) (Perm.symm (erase_idx-perm items from row e));
        back =
            moved-inside _ to from (λ q. ne (sym q)) (omega (arith, grown, t))
              (omega (arith, grown, f))
            ∙ rw (here, relocated, erase_idx-insert_at rest to row fits)
                (ap some (insert_at-erase_idx items from row e));
      }

  relocated-Relocates :
      (items next : List T) (from to : ℕ)
      → from ≢ to
      → to < length items
      → relocated items from to ≡ some next
      → Relocates items next from to
  unfolding relocated
  relocated-Relocates items next from to ne t e = elim (Option-cases (get_elem? items from)) [
    | inr (row, f) ↦
        subst (λ n. Relocates items n from to) (some_inj (sym (is_some_row row f) ∙ e))
          (insert_at-Relocates items from to row ne t f)
    | inl f ↦ absurd (no_row f)
  ]
    where
      is_some_row :
          (row : T)
          → get_elem? items from ≡ some row
          → relocated items from to ≡ some (insert_at (erase_idx items from) to row)
      is_some_row row f = rw (f, relocated) refl

      no_row : get_elem? items from ≡ none → ⊥
      no_row f = cc (f, e)

  -- Moving a row says so only if both places are rows of the list and differ. Then the row stands
  -- at its new place, the others keep their order, and moving it back gives the old list.
  pub moved-Relocates :
      (items next : List T) (a b : ℤ)
      → moved items a b ≡ some next
      → (from : ℕ) × (to : ℕ) × (a ≡ pos from) × (b ≡ pos to) × Relocates items next from to
  unfolding moved
  moved-Relocates items next (negsuc from) b e = cc
  moved-Relocates items next (pos from) (negsuc to) e = cc
  moved-Relocates items next (pos from) (pos to) e = (
    from,
    to,
    refl,
    refl,
    relocated-Relocates items next from to (ground arith) (ground arith) (ground arith),
  )
