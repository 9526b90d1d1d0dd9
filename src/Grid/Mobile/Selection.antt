-- ===== src/Grid/Mobile/Selection.antt =====
-- `reconcileMobileSelection` selects a session that is listed.
use multimux.Base.{
  ℕ, suc, ◌<◌, ◌≡◌, refl, sym, ap, ◌∙◌, inl, inr, Option, none, some, List, [], ◌∷◌, arith, length,
  get_elem?, get_elem?_of_lt, find_idx?, find_idx?-lt, Bool-cases, Any, Str, str_eq, str_eq_iff,
  some_inj,
}
use mathlib.Core.Option
use multimux.Grid.Mobile.{
  MobileSession, MobileSelection, is_key, key_at, chosen, reconcile_mobile_selection,
}

find_idx?-key :
    (key : Str) (sessions : List MobileSession) (i : ℕ)
    → find_idx? (is_key (some key)) sessions ≡ some i
    → key_at sessions i ≡ some key
find_idx?-key key [] i h = cc
find_idx?-key key (s ∷ sessions) i h = elim (Bool-cases (str_eq s.key key)) [
  | inl e ↦ rw (some_inj (sym (rw e at h))) (ap some ((str_eq_iff s.key key).0 e))
  | inr e ↦
      later (find_idx? (is_key (some key)) sessions) refl (λ j q. find_idx?-key key sessions j q)
        (rw e at h)
]
  where
    later :
        (o : Option ℕ)
        → find_idx? (is_key (some key)) sessions ≡ o
        → ((j : ℕ) → find_idx? (is_key (some key)) sessions ≡ some j → key_at sessions j ≡ some key)
        → Option.map suc o ≡ some i
        → key_at (s ∷ sessions) i ≡ some key
    later none q ih r = cc
    later (some j) q ih r = rw (← some_inj r) (ih j q)

find_idx?-some :
    (key : Str) (sessions : List MobileSession)
    → Any (λ s. s.key ≡ key) sessions
    → (i : ℕ) × (find_idx? (is_key (some key)) sessions ≡ some i)
find_idx?-some key [] h = absurd h
find_idx?-some key (s ∷ sessions) (inl e) = (0, rw ((str_eq_iff s.key key).1 e) refl)
find_idx?-some key (s ∷ sessions) (inr h) =
    let (i, e) = find_idx?-some key sessions h in
    elim (Bool-cases (str_eq s.key key)) [
      | inl f ↦ (0, rw f refl)
      | inr f ↦ (suc i, rw (f, e) refl)
    ]

chosen_lt :
    (k : Option Str) (sessions : List MobileSession) (index : ℕ) (o : Option ℕ)
    → find_idx? (is_key k) sessions ≡ o
    → 0 < length sessions
    → chosen o index (length sessions) < length sessions
chosen_lt k sessions index none e h = omega arith
chosen_lt k sessions index (some i) e h = find_idx?-lt (is_key k) sessions i e

key_at-get :
    (sessions : List MobileSession) (i : ℕ) {t : MobileSession}
    → get_elem? sessions i ≡ some t
    → key_at sessions i ≡ some t.key
key_at-get sessions i e = rw (e, key_at) refl

-- With no session listed nothing is selected. With one listed, the selection is the key of the session
-- at its index, and a selection whose key is still listed keeps the key.
pub reconcile_lem :
    (previous : MobileSelection) (s : MobileSession) (rest : List MobileSession)
    → (reconcile_mobile_selection previous [] ≡ record { key = none; index = 0 })
      × ((t : MobileSession) × (get_elem?
              (s ∷ rest)
              (reconcile_mobile_selection previous (s ∷ rest)).index
            ≡ some t)
          × ((reconcile_mobile_selection previous (s ∷ rest)).key ≡ some t.key))
      × ((key : Str)
          → previous.key ≡ some key
          → Any (λ t. t.key ≡ key) (s ∷ rest)
          → (reconcile_mobile_selection previous (s ∷ rest)).key ≡ some key)
unfolding reconcile_mobile_selection
reconcile_lem previous s rest =
    let listed = s ∷ rest in
    let at = λ (o : Option ℕ). chosen o previous.index (length listed) in
    let (t, e) =
      get_elem?_of_lt listed _
        (chosen_lt previous.key listed previous.index _ refl (omega arith)) in
    (
      refl,
      (t, e, key_at-get listed _ e),
      λ key kept h.
          let (i, f) = find_idx?-some key listed h in
          ap (λ k. key_at listed (at (find_idx? (is_key k) listed))) kept
          ∙ ap (λ o. key_at listed (at o)) f
          ∙ find_idx?-key key listed i f,
    )
