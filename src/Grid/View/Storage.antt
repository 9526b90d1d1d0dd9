-- ===== src/Grid/View/Storage.antt =====
-- Where a browser keeps its arrangements of directories: the rest of grid/viewLayout.ts.
--
-- The one item of the local storage is an object with an overlay for each directory. A stored count of
-- columns is any number; what the grid makes of it is a parameter, `whole`.
use mathlib.Core.Option
use multimux.Base.{
  ℕ, ◌≡◌, refl, sym, ap, ◌∙◌, inl, inr, Bool, true, false, Option, none, some, List, [], ◌∷◌,
  if◌then◌else◌, Bool-cases, Str, str_eq, str_eq→eq, eq→str_eq, codes,
}
use multimux.Base.Json.{Json, Items, Fields, Item}
use multimux.Grid.View.{Overlay}
use multimux.Grid.DirFilter.{strings_of, items_of}
use multimux.Grid.DirFilter.Stored.{strings_of-items_of}

-- `isNumArray`, with the numbers
unfoldable pub numbers_of : {N : Type 0} → Items N → Option (List N)
numbers_of Items.nil = some []
numbers_of (Items.cons (Json.num n) rest) = Option.map (n ∷◌) (numbers_of rest)
numbers_of (Items.cons _ rest) = none

-- `every(isNumArray)`, with the arrays
unfoldable pub rows_of : {N : Type 0} → Items N → Option (List (List N))
rows_of Items.nil = some []
rows_of (Items.cons (Json.arr row) rest) =
    let others = rows_of rest in
    elim (numbers_of row) [ none ↦ none | some ns ↦ Option.map (ns ∷◌) others ]
rows_of (Items.cons _ rest) = none

unfoldable pub field_of : {N : Type 0} → Fields N → Str → Option (Json N)
field_of Fields.end key = none
field_of (Fields.field k v rest) key =
    let others = field_of rest key in if str_eq k key then some v else others

abbrev overlay_of :
    {N : Type 0}
    → ℕ
    → Option (List Str)
    → Option (List N)
    → Option (List (List N))
    → Option (Overlay N)
overlay_of cols (some order) (some rows) (some columns) =
    some (record { cols = cols; order = order; row_sizes = rows; col_sizes = columns })
overlay_of cols _ _ _ = none

abbrev parts_of :
    {N : Type 0}
    → (N → ℕ)
    → Option (Json N)
    → Option (Json N)
    → Option (Json N)
    → Option (Json N)
    → Option (Overlay N)
parts_of whole (some (Json.num n)) (some (Json.arr order)) (some (Json.arr rows))
      (some (Json.arr columns)) =
    overlay_of (whole n) (strings_of order) (numbers_of rows) (rows_of columns)
parts_of whole _ _ _ _ = none

-- `isOverlay`, with the overlay
unfoldable pub as_overlay : {N : Type 0} → (N → ℕ) → Json N → Option (Overlay N)
as_overlay whole (Json.obj fields) =
    parts_of whole (field_of fields (codes "cols")) (field_of fields (codes "order"))
      (field_of fields (codes "rowSizes")) (field_of fields (codes "colSizes"))
as_overlay whole _ = none

unfoldable pub read_all : {N : Type 0} → Item N → Fields N
read_all (Item.doc (Json.obj fields)) = fields
read_all _ = Fields.end

abbrev pub read_entry : {N : Type 0} → (N → ℕ) → Option (Json N) → Option (Overlay N)
read_entry whole none = none
read_entry whole (some v) = as_overlay whole v

unfoldable pub view_overlay : {N : Type 0} → (N → ℕ) → Item N → Str → Option (Overlay N)
view_overlay whole item dir = read_entry whole (field_of (read_all item) dir)

-- `{ ...all, [key]: value }`
unfoldable pub with_field : {N : Type 0} → Fields N → Str → Json N → Fields N
with_field Fields.end key value = Fields.field key value Fields.end
with_field (Fields.field k v rest) key value =
    let others = with_field rest key value in
    if str_eq k key then Fields.field k value rest else Fields.field k v others

unfoldable pub numbers_json : {N : Type 0} → List N → Items N
numbers_json [] = Items.nil
numbers_json (n ∷ ns) = Items.cons (Json.num n) (numbers_json ns)

unfoldable pub rows_json : {N : Type 0} → List (List N) → Items N
rows_json [] = Items.nil
rows_json (r ∷ rs) = Items.cons (Json.arr (numbers_json r)) (rows_json rs)

-- What `JSON.stringify` keeps of an overlay
unfoldable pub overlay_json : {N : Type 0} → (ℕ → N) → Overlay N → Json N
overlay_json of_nat o = Json.obj (
    Fields.field (codes "cols") (Json.num (of_nat o.cols)) (
      Fields.field (codes "order") (Json.arr (items_of o.order)) (
        Fields.field (codes "rowSizes") (Json.arr (numbers_json o.row_sizes))
          (Fields.field (codes "colSizes") (Json.arr (rows_json o.col_sizes)) Fields.end))))

-- The value that is stored
unfoldable pub set_view_overlay : {N : Type 0} → (ℕ → N) → Item N → Str → Overlay N → Json N
set_view_overlay of_nat item dir o =
    Json.obj (with_field (read_all item) dir (overlay_json of_nat o))

if_true : {A : Type 0} (b : Bool) (x y : A) → b ≡ true → (if b then x else y) ≡ x
if_true b x y e = rw e refl

if_false : {A : Type 0} (b : Bool) (x y : A) → b ≡ false → (if b then x else y) ≡ y
if_false b x y e = rw e refl

module _ {N : Type 0} where
  numbers_of-numbers_json : (ns : List N) → numbers_of (numbers_json ns) ≡ some ns
  unfolding numbers_of numbers_json
  numbers_of-numbers_json [] = refl
  numbers_of-numbers_json (n ∷ ns) = ap (Option.map (n ∷◌)) (numbers_of-numbers_json ns)

  rows_of-rows_json : (rs : List (List N)) → rows_of (rows_json rs) ≡ some rs
  unfolding rows_of rows_json
  rows_of-rows_json [] = refl
  rows_of-rows_json (r ∷ rs) =
      rw (rows_of, numbers_of-numbers_json r) (ap (Option.map (r ∷◌)) (rows_of-rows_json rs))

  as_overlay-json :
      (whole : N → ℕ) (of_nat : ℕ → N) (o : Overlay N)
      → whole (of_nat o.cols) ≡ o.cols
      → as_overlay whole (overlay_json of_nat o) ≡ some o
  unfolding as_overlay overlay_json field_of str_eq
  as_overlay-json whole of_nat o h =
      rw
        (
          strings_of-items_of N o.order,
          numbers_of-numbers_json o.row_sizes,
          rows_of-rows_json o.col_sizes,
          h,
        )
        refl

  -- The field that was set, and the others
  field_of-with_field :
      (fs : Fields N) (key other : Str) (v : Json N)
      → field_of (with_field fs key v) other
        ≡ (if str_eq key other then some v else field_of fs other)
  unfolding field_of with_field
  field_of-with_field Fields.end key other v = refl
  field_of-with_field (Fields.field k w rest) key other v = elim (Bool-cases (str_eq k key)) [
    | inl e ↦
        rw (e, str_eq→eq k key e)
          (elim (Bool-cases (str_eq key other)) [ inl f ↦ rw f refl | inr f ↦ rw f refl ])
    | inr e ↦ rw e (elim (Bool-cases (str_eq k other)) [
      | inl f ↦ rw (f, apart k key other e f) refl
      | inr f ↦ rw f (field_of-with_field rest key other v)
    ])
  ]
    where
      apart :
          (k key other : Str)
          → str_eq k key ≡ false
          → str_eq k other ≡ true
          → str_eq key other ≡ false
      apart k key other e f = elim (Bool-cases (str_eq key other)) [
        | inl g ↦
            absurd (cc (e, eq→str_eq k key (str_eq→eq k other f ∙ sym (str_eq→eq key other g))))
        | inr g ↦ g
      ]

  read_set :
      (whole : N → ℕ) (of_nat : ℕ → N) (item : Item N) (dir other : Str) (o : Overlay N)
      → whole (of_nat o.cols) ≡ o.cols
      → read_entry whole (field_of (read_all (Item.doc (set_view_overlay of_nat item dir o))) other)
        ≡ (if str_eq dir other then some o else read_entry whole (field_of (read_all item) other))
  unfolding read_all set_view_overlay
  read_set whole of_nat item dir other o h = elim (Bool-cases (str_eq dir other)) [
    | inl e ↦
        ap (read_entry whole)
          (field_of-with_field (read_all item) dir other (overlay_json of_nat o) ∙ if_true _ _ _ e)
        ∙ as_overlay-json whole of_nat o h
        ∙ sym (if_true _ _ _ e)
    | inr e ↦
        ap (read_entry whole)
          (field_of-with_field (read_all item) dir other (overlay_json of_nat o) ∙ if_false _ _ _ e)
        ∙ sym (if_false _ _ _ e)
  ]

  -- An overlay that is stored for a directory is read back for it, and every other directory keeps
  -- what it had, whatever the item held before; if a count of columns stays a number of columns.
  pub view_overlay-set :
      (whole : N → ℕ) (of_nat : ℕ → N) (item : Item N) (dir other : Str) (o : Overlay N)
      → whole (of_nat o.cols) ≡ o.cols
      → view_overlay whole (Item.doc (set_view_overlay of_nat item dir o)) other
        ≡ (if str_eq dir other then some o else view_overlay whole item other)
  unfolding view_overlay
  view_overlay-set whole of_nat item dir other o h = read_set whole of_nat item dir other o h
