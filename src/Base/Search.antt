-- ===== src/Base/Search.antt =====
-- The array methods that take a test (`filter`, `some`, `every`, `find`, `findIndex`), and the
-- predicates on lists that their laws are stated with.
use Prim.Native.Nat.{ℕ, zero, suc, ◌-◌, ◌≤◌, ◌<◌}
use mathlib.Core.Path.{◌≡◌, refl, ap, sym, subst}
use mathlib.Core.Logic.{◌⊎◌, inl, inr}
use mathlib.Core.Bool.{Bool, true, false, ◌&&◌, ◌||◌}
use mathlib.Core.Option
use mathlib.Core.Option.{Option, none, some}
use mathlib.Core.List.{List, [], ◌∷◌, ◌++◌, map}
use native.Mathlib.Omega.{arith}
use multimux.Base.Tests.{if◌then◌else◌, Bool-cases}
use multimux.Base.Lists.{length, get_elem?, set, erase_idx}

pub some_inj {ℓ} : {A : Type ℓ} {a b : A} → some a ≡ some b → a ≡ b
some_inj e = cc

module _ {ℓ κ} {A : Type ℓ} (P : A → Type κ) where
  abbrev pub All : List A → Type κ
  All [] = Unit
  All (x ∷ xs) = P x × All xs

  pub All-append : (xs ys : List A) → All xs → All ys → All (xs ++ ys)
  All-append [] ys h k = k
  All-append (x ∷ xs) ys (p, h) k = (p, All-append xs ys h k)

  pub All-set : (xs : List A) (i : ℕ) (v : A) → All xs → P v → All (set xs i v)
  All-set [] i v h k = h
  All-set (x ∷ xs) zero v h k = (k, h.1)
  All-set (x ∷ xs) (suc i) v h k = (h.0, All-set xs i v h.1 k)

  pub All-erase_idx : (xs : List A) (i : ℕ) → All xs → All (erase_idx xs i)
  All-erase_idx [] i h = h
  All-erase_idx (x ∷ xs) zero h = h.1
  All-erase_idx (x ∷ xs) (suc i) h = (h.0, All-erase_idx xs i h.1)

  pub All-get_elem? : (xs : List A) (i : ℕ) {x : A} → All xs → get_elem? xs i ≡ some x → P x
  All-get_elem? [] i h e = cc
  All-get_elem? (y ∷ xs) zero (p, h) e = subst P (some_inj e) p
  All-get_elem? (y ∷ xs) (suc i) (p, h) e = All-get_elem? xs i h e

module _ {ℓ} {A : Type ℓ} (P : A → Type 0) where
  abbrev pub Any : List A → Type 0
  Any [] = ⊥
  Any (x ∷ xs) = P x ⊎ Any xs

  pub Any-append_left : (xs ys : List A) → Any xs → Any (xs ++ ys)
  Any-append_left [] ys h = absurd h
  Any-append_left (x ∷ xs) ys (inl p) = inl p
  Any-append_left (x ∷ xs) ys (inr h) = inr (Any-append_left xs ys h)

  pub Any-append_right : (xs ys : List A) → Any ys → Any (xs ++ ys)
  Any-append_right [] ys h = h
  Any-append_right (x ∷ xs) ys h = inr (Any-append_right xs ys h)

  pub Any-append : (xs ys : List A) → Any (xs ++ ys) → Any xs ⊎ Any ys
  Any-append [] ys h = inr h
  Any-append (x ∷ xs) ys (inl p) = inl (inl p)
  Any-append (x ∷ xs) ys (inr h) = elim (Any-append xs ys h) [ inl a ↦ inl (inr a) | inr b ↦ inr b ]

module _ {ℓ κ ι} {A : Type ℓ} {P : A → Type κ} {Q : A → Type ι} (f : (a : A) → P a → Q a) where
  pub All-map : (xs : List A) → All P xs → All Q xs
  All-map [] h = tt
  All-map (x ∷ xs) (p, h) = (f x p, All-map xs h)

module _ {ℓ} {A : Type ℓ} {P Q : A → Type 0} (f : (a : A) → P a → Q a) where
  pub Any-map : (xs : List A) → Any P xs → Any Q xs
  Any-map [] h = absurd h
  Any-map (x ∷ xs) (inl p) = inl (f x p)
  Any-map (x ∷ xs) (inr h) = inr (Any-map xs h)

module _ {ℓ} {A : Type ℓ} (p : A → Bool) where
  abbrev pub filter : List A → List A
  filter [] = []
  filter (x ∷ xs) = if p x then x ∷ filter xs else filter xs

  abbrev pub any : List A → Bool
  any [] = false
  any (x ∷ xs) = p x || any xs

  abbrev pub all : List A → Bool
  all [] = true
  all (x ∷ xs) = p x && all xs

  abbrev pub find? : List A → Option A
  find? [] = none
  find? (x ∷ xs) = if p x then some x else find? xs

  -- `none` is the source's -1.
  abbrev pub find_idx? : List A → Option ℕ
  find_idx? [] = none
  find_idx? (x ∷ xs) = if p x then some 0 else Option.map suc (find_idx? xs)

  pub filter-append : (xs ys : List A) → filter (xs ++ ys) ≡ filter xs ++ filter ys
  filter-append [] ys = refl
  filter-append (x ∷ xs) ys = ground (arith, filter-append xs ys)

  pub length-filter : (xs : List A) → length (filter xs) ≤ length xs
  length-filter [] = omega arith
  length-filter (x ∷ xs) = ground (arith, length-filter xs)

  pub All-filter : (xs : List A) → All (λ x. p x ≡ true) (filter xs)
  All-filter [] = tt
  All-filter (x ∷ xs) = elim (Bool-cases (p x)) [
    | inl e ↦
        subst (λ b. All (λ x. p x ≡ true) (if b then x ∷ filter xs else filter xs)) (sym e)
          (e, All-filter xs)
    | inr e ↦
        subst (λ b. All (λ x. p x ≡ true) (if b then x ∷ filter xs else filter xs)) (sym e)
          (All-filter xs)
  ]

  pub filter_of_All : (xs : List A) → All (λ x. p x ≡ true) xs → filter xs ≡ xs
  filter_of_All [] h = refl
  filter_of_All (x ∷ xs) (e, h) = ground (arith, filter_of_All xs h)

  pub any→Any : (xs : List A) → any xs ≡ true → Any (λ x. p x ≡ true) xs
  any→Any [] h = cc
  any→Any (x ∷ xs) h = elim (Bool-cases (p x)) [
    | inl e ↦ inl e
    | inr e ↦ inr (any→Any xs (ground arith))
  ]

  pub Any→any : (xs : List A) → Any (λ x. p x ≡ true) xs → any xs ≡ true
  Any→any [] h = absurd h
  Any→any (x ∷ xs) (inl e) = rw e
  Any→any (x ∷ xs) (inr h) = ground (arith, Any→any xs h)

  pub find_idx?-lt : (xs : List A) (i : ℕ) → find_idx? xs ≡ some i → i < length xs
  find_idx?-lt [] i h = cc
  find_idx?-lt (x ∷ xs) i h = ground (arith, find_idx?-lt xs (i - 1))

module _ {ℓ κ} {A : Type ℓ} {B : Type κ} where
  pub map-All {ι} :
      (P : B → Type ι) (f : A → B) (xs : List A) → All (λ x. P (f x)) xs → All P (map f xs)
  map-All P f [] h = tt
  map-All P f (x ∷ xs) (p, h) = (p, map-All P f xs h)

module _ {ℓ} {A : Type ℓ} where
  -- `Array.from({ length: n }, (_, i) => f(i))`
  abbrev pub tabulate : ℕ → (ℕ → A) → List A
  tabulate zero f = []
  tabulate (suc n) f = f 0 ∷ tabulate n (λ i. f (suc i))

  pub length-tabulate : (n : ℕ) (f : ℕ → A) → length (tabulate n f) ≡ n
  length-tabulate zero f = refl
  length-tabulate (suc n) f = ap suc (length-tabulate n (λ i. f (suc i)))

  pub All-tabulate {κ} :
      (P : A → Type κ) (n : ℕ) (f : ℕ → A) → ((i : ℕ) → P (f i)) → All P (tabulate n f)
  All-tabulate P zero f h = tt
  All-tabulate P (suc n) f h = (h 0, All-tabulate P n (λ i. f (suc i)) (λ i. h (suc i)))
