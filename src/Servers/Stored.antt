-- ===== src/Servers/Stored.antt =====
-- The stored list after a change.
use multimux.Base.{
  ◌≡◌, refl, sym, ap, ◌∙◌, inl, inr, Bool, true, false, Option, none, some, List, [], ◌∷◌, find?,
  if◌then◌else◌, arith, Bool-cases, Str, str_eq, str_eq→eq,
}
use mathlib.Core.Option
use multimux.Grid.Types.{Server}
use multimux.Servers.{set_server_token, remove_server}

-- The server with this id
unfoldable pub find_server : Str → List Server → Option Server
find_server id = find? (λ s. str_eq s.id id)

same_id :
    (s other id : Str) (b : Bool) → str_eq s other ≡ true → str_eq s id ≡ b → str_eq other id ≡ b
same_id s other id b e f = ap (λ x. str_eq x id) (sym (str_eq→eq s other e)) ∙ f

module _ (id token other : Str) where
  find_server-set_server_token :
      (stored : List Server)
      → find_server other (set_server_token id token stored)
        ≡ Option.map
            (λ s. if str_eq other id then record s { token = some token } else s)
            (find_server other stored)
  unfolding find_server set_server_token
  find_server-set_server_token [] = refl
  find_server-set_server_token (s ∷ stored) = elim (Bool-cases (str_eq s.id id)) [
    | inl f ↦ elim (Bool-cases (str_eq s.id other)) [
      | inl e ↦ rw (f, e, same_id s.id other id true e f) refl
      | inr e ↦ rw (f, e) (find_server-set_server_token stored)
    ]
    | inr f ↦ elim (Bool-cases (str_eq s.id other)) [
      | inl e ↦ rw (f, e, same_id s.id other id false e f) refl
      | inr e ↦ rw (f, e) (find_server-set_server_token stored)
    ]
  ]

  find_server-remove_server :
      (stored : List Server)
      → find_server other (remove_server id stored)
        ≡ (if str_eq other id then none else find_server other stored)
  unfolding find_server remove_server
  find_server-remove_server [] = ground arith
  find_server-remove_server (s ∷ stored) = elim (Bool-cases (str_eq s.id id)) [
    | inl f ↦ elim (Bool-cases (str_eq s.id other)) [
      | inl e ↦
          let k = same_id s.id other id true e f in
          let h = find_server-remove_server stored in rw (f, e, k) (rw k at h)
      | inr e ↦ rw (f, e) (find_server-remove_server stored)
    ]
    | inr f ↦ elim (Bool-cases (str_eq s.id other)) [
      | inl e ↦ rw (f, e, same_id s.id other id false e f) refl
      | inr e ↦ rw (f, e) (find_server-remove_server stored)
    ]
  ]

-- The server with the id `id` gets the token, and every other keeps what it has; and a server that
-- is removed is found no more, while every other still is.
find_server-change :
    (id token other : Str) (stored : List Server)
    → (find_server other (set_server_token id token stored)
        ≡ Option.map
            (λ s. if str_eq other id then record s { token = some token } else s)
            (find_server other stored))
      × (find_server other (remove_server id stored)
          ≡ (if str_eq other id then none else find_server other stored))
find_server-change id token other stored = (
  find_server-set_server_token id token other stored,
  find_server-remove_server id token other stored,
)
