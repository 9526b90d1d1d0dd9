-- ===== src/Grid/Mobile/Visits.antt =====
-- One visit of `orderMobileSessions`: what has been seen stands in the result, once.
use multimux.Base.{
  ◌≡◌, refl, ◌∙◌, inl, inr, Bool, true, false, ◌||◌, Option, none, some, List, [], ◌∷◌, ◌++◌,
  filter, if◌then◌else◌, arith, filter-append, append-nil, Bool-cases, Option-cases, Str, str_eq,
  str_eq_iff,
}
use multimux.Grid.Types.{Server}
use multimux.Grid.DirFilter.{SessionsByServer}
use multimux.Grid.Mobile.{MobileSession, get_entry, contains, Collected, collect, entries, visit}

abbrev pub at_key : Str → MobileSession → Bool
at_key key e = str_eq e.key key

abbrev pub to_list : Option MobileSession → List MobileSession
to_list none = []
to_list (some e) = e ∷ []

pub key-get_entry :
    (es : List MobileSession) (key : Str) {e : MobileSession}
    → get_entry es key ≡ some e
    → e.key ≡ key
unfolding get_entry
key-get_entry [] key h = cc
key-get_entry (x ∷ es) key {e} h = elim (Option-cases (get_entry es key)) [
  | inl absent ↦ ground (arith, str_eq_iff x.key key)
  | inr (later, found) ↦ ground (arith, key-get_entry es key found)
]

pub contains-cons :
    (key : Str) (seen : List Str) (k : Str)
    → contains (key ∷ seen) k ≡ str_eq key k || contains seen k
unfolding contains
contains-cons key seen k = refl

module _ (servers : List Server) (by_server : SessionsByServer) where
  abbrev pub lookup : Str → Option MobileSession
  lookup = get_entry (entries servers by_server)

  -- The loops' invariant: what has been seen stands in the result, once.
  pub record IsTidy (st : Collected) : Type 0 where
    pub once :
        (key : Str)
        → filter (at_key key) st.result
          ≡ (if contains st.seen key then to_list (lookup key) else [])

  pub visit-IsTidy :
      (key : Str) (st : Collected) → IsTidy st → IsTidy (visit servers by_server key st)
  unfolding visit collect
  visit-IsTidy key st tidy = elim (Option-cases (lookup key)) [
    | inl absent ↦ rw absent tidy
    | inr (e, found) ↦ elim (Bool-cases (contains st.seen key)) [
      | inl old ↦ rw (found, old) tidy
      | inr new ↦ rw (found, new) (record { once = λ k. added st e key k (tidy.once k) found new })
    ]
  ]
    where
      added :
          (st' : Collected) (e : MobileSession) (key' k : Str)
          → filter (at_key k) st'.result ≡ (if contains st'.seen k then to_list (lookup k) else [])
          → lookup key' ≡ some e
          → contains st'.seen key' ≡ false
          → filter (at_key k) (st'.result ++ e ∷ [])
            ≡ (if contains (key' ∷ st'.seen) k then to_list (lookup k) else [])
      added st' e key' k h found new =
          let split = filter-append (at_key k) st'.result (e ∷ []) in
          let at = key-get_entry (entries servers by_server) key' found in
          elim (Bool-cases (str_eq key' k)) [
            | inl same ↦
                let p : key' ≡ k = (str_eq_iff key' k).0 same in
                let empty : contains st'.seen k ≡ false = rw (← p) new in
                let here : lookup k ≡ some e = rw (← p) found in
                let hit : str_eq e.key k ≡ true = (str_eq_iff e.key k).1 (at ∙ p) in
                rw (contains-cons key' st'.seen k, same, here, split, h, empty, hit) refl
            | inr other ↦
                let miss : str_eq e.key k ≡ false = rw at other in
                rw (contains-cons key' st'.seen k, other, split, miss, append-nil) h
          ]
