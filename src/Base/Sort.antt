-- ===== src/Base/Sort.antt =====
-- `Array.prototype.sort`: stable, by a test that says when one element comes strictly after another.
use mathlib.Core.Path.{◌≡◌, refl, ap, ◌∙◌}
use mathlib.Core.Logic.{inl, inr}
use mathlib.Core.Bool.{Bool, true, false}
use mathlib.Core.List.{List, [], ◌∷◌, Perm}
use mathlib.Core.List.Perm
use native.Mathlib.Omega.{arith}
use multimux.Base.Tests.{if◌then◌else◌, Bool-cases}
use multimux.Base.Search.{All, All-map, filter}

module _ {ℓ} {A : Type ℓ} (after : A → A → Bool) where
  unfoldable pub insert : A → List A → List A
  insert x [] = x ∷ []
  insert x (y ∷ ys) = if after x y then y ∷ insert x ys else x ∷ y ∷ ys

  unfoldable pub sort_by : List A → List A
  unfolding insert
  sort_by [] = []
  sort_by (x ∷ xs) = insert x (sort_by xs)

  -- No element comes after a later one.
  abbrev pub IsSorted : List A → Type ℓ
  IsSorted [] = Unit
  IsSorted (x ∷ xs) = All (λ y. after x y ≡ false) xs × IsSorted xs

  insert-perm : (x : A) (ys : List A) → Perm (insert x ys) (x ∷ ys)
  unfolding insert
  insert-perm x [] = Perm.refl (x ∷ [])
  insert-perm x (y ∷ ys) = elim (Bool-cases (after x y)) [
    | inl e ↦ rw e (Perm.trans (Perm.cons y (insert-perm x ys)) (Perm.swap x y ys))
    | inr e ↦ rw e (Perm.refl _)
  ]

  pub sort_by-perm : (xs : List A) → Perm (sort_by xs) xs
  unfolding sort_by
  sort_by-perm [] = Perm.refl []
  sort_by-perm (x ∷ xs) = Perm.trans (insert-perm x (sort_by xs)) (Perm.cons x (sort_by-perm xs))

  pub All-insert {κ} : (P : A → Type κ) (x : A) (ys : List A) → P x → All P ys → All P (insert x ys)
  unfolding insert
  All-insert P x [] p h = (p, tt)
  All-insert P x (y ∷ ys) p (q, h) = elim (Bool-cases (after x y)) [
    | inl e ↦ rw e (q, All-insert P x ys p h)
    | inr e ↦ rw e (p, (q, h))
  ]

  pub All-sort_by {κ} : (P : A → Type κ) (xs : List A) → All P xs → All P (sort_by xs)
  unfolding sort_by
  All-sort_by P [] h = tt
  All-sort_by P (x ∷ xs) (p, h) = All-insert P x (sort_by xs) p (All-sort_by P xs h)

  insert_of_All : (x : A) (ys : List A) → All (λ y. after x y ≡ false) ys → insert x ys ≡ x ∷ ys
  unfolding insert
  insert_of_All x [] h = refl
  insert_of_All x (y ∷ ys) (e, h) = rw e refl

  -- A sorted list stays as it is.
  pub sort_by_of_IsSorted : (xs : List A) → IsSorted xs → sort_by xs ≡ xs
  unfolding sort_by
  sort_by_of_IsSorted [] h = refl
  sort_by_of_IsSorted (x ∷ xs) (h, k) = rw (sort_by_of_IsSorted xs k) (insert_of_All x xs h)

  filter-insert :
      (p : A → Bool)
      → ((x y : A) → p x ≡ true → p y ≡ true → after x y ≡ false)
      → (x : A) (ys : List A) → filter p (insert x ys) ≡ filter p (x ∷ ys)
  unfolding insert
  filter-insert p same x [] = refl
  filter-insert p same x (y ∷ ys) = elim (Bool-cases (after x y)) [
    | inl e ↦ rw e (ground (arith, filter-insert p same x ys, same x y))
    | inr e ↦ rw e refl
  ]

  -- Stability: elements of which none comes after another keep their order.
  pub filter-sort_by :
      (p : A → Bool)
      → ((x y : A) → p x ≡ true → p y ≡ true → after x y ≡ false)
      → (xs : List A) → filter p (sort_by xs) ≡ filter p xs
  unfolding sort_by
  filter-sort_by p same [] = refl
  filter-sort_by p same (x ∷ xs) =
      filter-insert p same x (sort_by xs) ∙ ground (arith, filter-sort_by p same xs)

  module _ (asym : (x y : A) → after x y ≡ true → after y x ≡ false)
      (chain : (x y z : A) → after x y ≡ false → after y z ≡ false → after x z ≡ false) where
    insert-IsSorted : (x : A) (ys : List A) → IsSorted ys → IsSorted (insert x ys)
    unfolding insert
    insert-IsSorted x [] h = (tt, tt)
    insert-IsSorted x (y ∷ ys) (h, k) = elim (Bool-cases (after x y)) [
      | inl e ↦ rw e (All-insert _ x ys (asym x y e) h, insert-IsSorted x ys k)
      | inr e ↦ rw e ((e, All-map (λ z q. chain x y z e q) ys h), (h, k))
    ]

    pub sort_by-IsSorted : (xs : List A) → IsSorted (sort_by xs)
    unfolding sort_by
    sort_by-IsSorted [] = tt
    sort_by-IsSorted (x ∷ xs) = insert-IsSorted x (sort_by xs) (sort_by-IsSorted xs)

  filter-insert_out :
      (p : A → Bool) (x : A) (ys : List A) → p x ≡ false → filter p (insert x ys) ≡ filter p ys
  unfolding insert
  filter-insert_out p x [] e = rw e refl
  filter-insert_out p x (y ∷ ys) e = elim (Bool-cases (after x y)) [
    | inl f ↦ rw f (ground (arith, filter-insert_out p x ys))
    | inr f ↦ rw (f, e) refl
  ]

  filter-insert_in :
      (p : A → Bool) (x : A) (ys : List A)
      → p x ≡ true
      → filter p ys ≡ []
      → filter p (insert x ys) ≡ x ∷ []
  unfolding insert
  filter-insert_in p x [] e h = rw e refl
  filter-insert_in p x (y ∷ ys) e h = elim (Bool-cases (after x y)) [
    | inl f ↦ rw f (ground (arith, filter-insert_in p x ys))
    | inr f ↦ rw (f, e) (ap (x ∷◌) h)
  ]

  pub filter-sort_by_none :
      (p : A → Bool) (xs : List A) → filter p xs ≡ [] → filter p (sort_by xs) ≡ []
  unfolding sort_by
  filter-sort_by_none p [] h = refl
  filter-sort_by_none p (x ∷ xs) h = elim (Bool-cases (p x)) [
    | inl e ↦ ground arith
    | inr e ↦ filter-insert_out p x (sort_by xs) e ∙ filter-sort_by_none p xs (ground arith)
  ]

  -- The one element that passes a test still does, whatever the order.
  pub filter-sort_by_one :
      (p : A → Bool) (xs : List A) (z : A) → filter p xs ≡ z ∷ [] → filter p (sort_by xs) ≡ z ∷ []
  unfolding sort_by
  filter-sort_by_one p [] z h = cc
  filter-sort_by_one p (x ∷ xs) z h = elim (Bool-cases (p x)) [
    | inl e ↦
        let (first, rest) = one x (filter p xs) z (rw e at h) in
        filter-insert_in p x (sort_by xs) e (filter-sort_by_none p xs rest) ∙ ap (λ y. y ∷ []) first
    | inr e ↦ filter-insert_out p x (sort_by xs) e ∙ filter-sort_by_one p xs z (rw e at h)
  ]
    where
      one : (a : A) (r : List A) (b : A) → a ∷ r ≡ b ∷ [] → (a ≡ b) × (r ≡ [])
      one a r b q = (cc, cc)
