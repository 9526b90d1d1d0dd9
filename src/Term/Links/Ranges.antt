-- ===== src/Term/Links/Ranges.antt =====
-- The range of a link is where its text stands on screen.
use multimux.Base.{
  ℕ, zero, suc, ◌+◌, ◌-◌, ◌≡◌, refl, ap, inl, inr, Option, none, some, List, [], ◌∷◌, ◌++◌, map,
  arith, ◌==◌, length, get_elem?, take, All, All-append, All-map, All-get_elem?, Any, by_true,
  by_false, Bool-cases, some_inj, subst, Str,
}
use multimux.Term.Wrap.{Cell, Line, Terminal, Translate, row_width}
use multimux.Term.Links.{
  Pos, Url, shown, unit_at, cell_units, row_units, block_units, text_of, map_of, read_block, Link,
  link_at, is_url, links_of, compute_links,
}

-- The cell at `p` shows the unit `c`.
pub record Shows (term : Terminal) (p : Pos) (c : ℕ) : Type 0 where
  line : Line
  cell : Cell
  line_at : get_elem? term.lines p.y ≡ some line
  cell_at : get_elem? line.cells p.x ≡ some cell
  unit_in : Any (λ d. d ≡ c) (shown cell)

All-mapped :
    {A B : Type 0} (P : B → Type 0) (f : A → B) (xs : List A)
    → ((a : A) → Any (λ d. d ≡ a) xs → P (f a))
    → All P (map f xs)
All-mapped P f [] h = tt
All-mapped P f (x ∷ xs) h = (h x (inl refl), All-mapped P f xs (λ a k. h a (inr k)))

get_elem?-take :
    {A : Type 0} (n i : ℕ) (xs : List A) {a : A}
    → get_elem? (take n xs) i ≡ some a
    → get_elem? xs i ≡ some a
get_elem?-take zero i xs h = cc
get_elem?-take (suc n) i [] h = h
get_elem?-take (suc n) zero (x ∷ xs) h = h
get_elem?-take (suc n) (suc i) (x ∷ xs) h = get_elem?-take n i xs h

get_elem?-mapped :
    {A B : Type 0} (f : A → B) (xs : List A) (i : ℕ) (b : B)
    → get_elem? (map f xs) i ≡ some b
    → (a : A) × (get_elem? xs i ≡ some a) × (f a ≡ b)
get_elem?-mapped f [] i b h = cc
get_elem?-mapped f (x ∷ xs) zero b h = (x, refl, some_inj h)
get_elem?-mapped f (x ∷ xs) (suc i) b h = get_elem?-mapped f xs i b h

get_elem?-map-some :
    {A B : Type 0} (f : A → B) (xs : List A) (i : ℕ) (a : A)
    → get_elem? xs i ≡ some a
    → get_elem? (map f xs) i ≡ some (f a)
get_elem?-map-some f [] i a h = cc
get_elem?-map-some f (x ∷ xs) zero a h = ap (λ y. some (f y)) (some_inj h)
get_elem?-map-some f (x ∷ xs) (suc i) a h = get_elem?-map-some f xs i a h

module _ (term : Terminal) where
  abbrev Placed : ℕ × Pos → Type 0
  Placed u = Shows term u.1 u.0

  cell_units-Placed :
      (x y : ℕ) (line : Line) (cell : Cell)
      → get_elem? term.lines y ≡ some line
      → get_elem? line.cells x ≡ some cell
      → All Placed (cell_units x y cell)
  cell_units-Placed x y line cell l c = elim (Bool-cases (cell.width == 0)) [
    | inl e ↦ by_true (All Placed) [] (map (unit_at x y) (shown cell)) e tt
    | inr e ↦ by_false (All Placed) [] (map (unit_at x y) (shown cell)) e (
        All-mapped Placed (unit_at x y) (shown cell)
          (λ d k. record { line = line; cell = cell; line_at = l; cell_at = c; unit_in = k }))
  ]

  row_units-Placed :
      (x y : ℕ) (line : Line) (cells : List Cell)
      → get_elem? term.lines y ≡ some line
      → ((j : ℕ) (cell : Cell)
          → get_elem? cells j ≡ some cell
          → get_elem? line.cells (x + j) ≡ some cell)
      → All Placed (row_units x y cells)
  unfolding row_units
  row_units-Placed x y line [] l h = tt
  row_units-Placed x y line (cell ∷ cells) l h =
      All-append Placed (cell_units x y cell) (row_units (x + 1) y cells)
        (cell_units-Placed x y line cell l
          (subst (λ n. get_elem? line.cells n ≡ some cell) (omega arith) (h 0 cell refl)))
        (row_units-Placed (x + 1) y line cells l
          (λ j c k. subst (λ n. get_elem? line.cells n ≡ some c) (omega arith) (h (suc j) c k)))

  block_units-Placed : (n y : ℕ) → All Placed (block_units term n y)
  unfolding block_units
  block_units-Placed zero y = tt
  block_units-Placed (suc n) y = go (get_elem? term.lines y) refl (block_units-Placed n (y + 1))
    where
      go :
          (o : Option Line)
          → get_elem? term.lines y ≡ o
          → All Placed (block_units term n (y + 1))
          → All Placed (elim o [
            | none ↦ block_units term n (y + 1)
            | some line ↦
                row_units 0 y (take (row_width term line) line.cells) ++ block_units term n (y + 1)
          ])
      go none e rest = rest
      go (some line) e rest =
          All-append Placed (row_units 0 y (take (row_width term line) line.cells)) _
            (row_units-Placed 0 y line _ e (λ j c k.
              subst (λ n. get_elem? line.cells n ≡ some c) (omega arith)
                (get_elem?-take (row_width term line) j line.cells k)))
            rest

-- A link of `found` has the text of a match, and starts and ends on the cells that show the first and
-- the last unit of the match; a place is counted from 1.
pub record IsPlaced (term : Terminal) (text : Str) (found : List (ℕ × Str)) (link : Link)
    : Type 0 where
  index : ℕ
  start : Pos
  end : Pos
  first : ℕ
  last : ℕ
  is_match : Any (λ m. m ≡ (index, link.text)) found
  start_one : link.start ≡ record { x = start.x + 1; y = start.y + 1 }
  end_one : link.end ≡ record { x = end.x + 1; y = end.y + 1 }
  first_unit : get_elem? text index ≡ some first
  last_unit : get_elem? text (index + length link.text - 1) ≡ some last
  first_shown : Shows term start first
  last_shown : Shows term end last

-- The unit at an index of the text, on its cell
unit_of_place :
    (term : Terminal) (units : List (ℕ × Pos)) (i : ℕ) (p : Pos)
    → All (Placed term) units
    → get_elem? (map_of units) i ≡ some p
    → (c : ℕ) × (get_elem? (text_of units) i ≡ some c) × Shows term p c
unit_of_place term units i p h e =
    let (u, f, g) = get_elem?-mapped (λ (u : ℕ × Pos). u.1) units i p e in
    (
      u.0,
      get_elem?-map-some (λ (u : ℕ × Pos). u.0) units i u f,
      subst (λ q. Shows term q u.0) g (All-get_elem? (Placed term) units i h f),
    )

IsPlaced-later :
    (term : Terminal) (text : Str) (m : ℕ × Str) (found : List (ℕ × Str)) (link : Link)
    → IsPlaced term text found link
    → IsPlaced term text (m ∷ found) link
IsPlaced-later term text m found link h = record {
  index = h.index;
  start = h.start;
  end = h.end;
  first = h.first;
  last = h.last;
  is_match = inr h.is_match;
  start_one = h.start_one;
  end_one = h.end_one;
  first_unit = h.first_unit;
  last_unit = h.last_unit;
  first_shown = h.first_shown;
  last_shown = h.last_shown;
}

module _ (term : Terminal) (units : List (ℕ × Pos)) where
  abbrev AllPlaced : List (ℕ × Str) → List Link → Type 0
  AllPlaced found links = All (IsPlaced term (text_of units) found) links

  link_at-AllPlaced :
      (i : ℕ) (uri : Str) (found : List (ℕ × Str))
      → All (Placed term) units
      → AllPlaced
          ((i, uri) ∷ found)
          (link_at uri (get_elem? (map_of units) i) (get_elem? (map_of units) (i + length uri - 1)))
  link_at-AllPlaced i uri found h =
      go (get_elem? (map_of units) i) (get_elem? (map_of units) (i + length uri - 1)) refl refl
    where
      go :
          (s e : Option Pos)
          → get_elem? (map_of units) i ≡ s
          → get_elem? (map_of units) (i + length uri - 1) ≡ e
          → AllPlaced ((i, uri) ∷ found) (link_at uri s e)
      go none e p q = tt
      go (some s) none p q = tt
      go (some s) (some e) p q =
          let (c, f, m) = unit_of_place term units i s h p in
          let (d, g, n) = unit_of_place term units (i + length uri - 1) e h q in
          (
            record {
              index = i;
              start = s;
              end = e;
              first = c;
              last = d;
              is_match = inl refl;
              start_one = refl;
              end_one = refl;
              first_unit = f;
              last_unit = g;
              first_shown = m;
              last_shown = n;
            },
            tt,
          )

  links_of-AllPlaced :
      (lower : Str → Str) (parse : Str → Option Url) (found : List (ℕ × Str))
      → All (Placed term) units
      → AllPlaced found (links_of lower parse (map_of units) found)
  unfolding links_of
  links_of-AllPlaced lower parse [] h = tt
  links_of-AllPlaced lower parse ((i, uri) ∷ found) h =
      let rest =
        All-map (IsPlaced-later term (text_of units) (i, uri) found) _
          (links_of-AllPlaced lower parse found h) in
      let here =
        link_at uri (get_elem? (map_of units) i) (get_elem? (map_of units) (i + length uri - 1)) in
      let others = links_of lower parse (map_of units) found in
      elim (Bool-cases (is_url lower parse uri)) [
        | inl e ↦
            by_true (AllPlaced ((i, uri) ∷ found)) (here ++ others) others e
              (All-append _ here others (link_at-AllPlaced i uri found h) rest)
        | inr e ↦ by_false (AllPlaced ((i, uri) ∷ found)) (here ++ others) others e rest
      ]

-- Every link of a row has the text of a match of the expression in the text of the row's block, and its
-- range starts and ends on the cells that show the first and the last unit of that match, whatever
-- cells are wide, combined or empty, and however many rows the link runs over.
pub compute_links-IsPlaced :
    (lower : Str → Str) (parse : Str → Option Url) (matches : Str → List (ℕ × Str))
    (translate : Translate) (term : Terminal) (row : ℕ)
    → All
        (IsPlaced term
          (text_of (read_block translate term row))
          (matches (text_of (read_block translate term row))))
        (compute_links lower parse matches translate term row)
unfolding compute_links
compute_links-IsPlaced lower parse matches translate term row =
    links_of-AllPlaced term (read_block translate term row) lower parse _
      (unfold read_block in block_units-Placed term _ _)
