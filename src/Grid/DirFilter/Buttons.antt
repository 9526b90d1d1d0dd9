-- ===== src/Grid/DirFilter/Buttons.antt =====
-- `dirButtons`: one button for each directory that has a running session.
use Prim.Native.Nat.{Ordering}
use multimux.Base.{
  ℕ, zero, suc, ◌+◌, ◌≡◌, refl, sym, ap, ◌∙◌, inl, inr, Bool, false, ◌&&◌, List, [], ◌∷◌, ◌++◌, map,
  if◌then◌else◌, ◌==◌, arith, length, filter, filter-append, length-append, Bool-cases, Str, str_eq,
  str_eq_iff, str_eq_refl,
}
use multimux.Base.Sort.{sort_by, filter-sort_by_none, filter-sort_by_one}
use multimux.Grid.Types.{Session, Server, running}
use multimux.Grid.DirFilter.{
  DirButton, SessionsByServer, bump, count_sessions, count_servers, button_of, button_after,
  dir_buttons, leaf_name,
}

abbrev at_path : Str → Str × ℕ → Bool
at_path dir p = str_eq p.0 dir

abbrev pub running_at : Str → Session → Bool
running_at dir s = running s && str_eq s.dir dir

-- The entries for one directory, when it has been met `n` times.
abbrev entry : Str → ℕ → List (Str × ℕ)
entry dir n = if n == 0 then [] else (dir, n) ∷ []

filter-bump_other :
    (counts : List (Str × ℕ)) (e dir : Str)
    → str_eq e dir ≡ false
    → filter (at_path dir) (bump counts e) ≡ filter (at_path dir) counts
unfolding bump
filter-bump_other [] e dir h = rw h refl
filter-bump_other ((d, n) ∷ counts) e dir h =
    ground
      (arith, str_eq_iff d e, str_eq_iff d dir, str_eq_iff e dir, filter-bump_other counts e dir)

filter-bump_same :
    (counts : List (Str × ℕ)) (dir : Str) (n : ℕ)
    → filter (at_path dir) counts ≡ entry dir n
    → filter (at_path dir) (bump counts dir) ≡ (dir, n + 1) ∷ []
unfolding bump
filter-bump_same [] dir zero h = rw (str_eq_refl dir) refl
filter-bump_same [] dir (suc n) h = absurd (ground arith)
filter-bump_same ((d, m) ∷ counts) dir n h = elim (Bool-cases (str_eq d dir)) [
  | inl e ↦ rw (e, e) (ground (arith, str_eq_iff d dir))
  | inr e ↦ ground (arith, filter-bump_same counts dir n)
]

entry-suc : (dir : Str) (n : ℕ) → (dir, n + 1) ∷ [] ≡ entry dir (n + 1)
entry-suc dir n = ground arith

-- The count that `n` becomes when the sessions are gone through.
abbrev pub running_in : Str → List Session → ℕ
running_in dir sessions = length (filter (running_at dir) sessions)

filter-count_sessions :
    (dir : Str) (sessions : List Session) (counts : List (Str × ℕ)) (n : ℕ)
    → filter (at_path dir) counts ≡ entry dir n
    → filter (at_path dir) (count_sessions counts sessions)
      ≡ entry dir (n + running_in dir sessions)
unfolding count_sessions
filter-count_sessions dir [] counts n h = h ∙ ap (entry dir) (omega arith)
filter-count_sessions dir (s ∷ sessions) counts n h = elim (Bool-cases (running s)) [
  | inr idle ↦ rw (idle) (filter-count_sessions dir sessions counts n h)
  | inl live ↦ elim (Bool-cases (str_eq s.dir dir)) [
    | inl here ↦
        rw (live, here)
          (filter-count_sessions dir sessions (bump counts s.dir) (n + 1) (
              ap (λ e. filter (at_path dir) (bump counts e)) ((str_eq_iff s.dir dir).0 here)
              ∙ filter-bump_same counts dir n h
              ∙ entry-suc dir n)
            ∙ ap (entry dir) (omega arith))
    | inr there ↦
        rw (live, there)
          (filter-count_sessions dir sessions (bump counts s.dir) n
            (filter-bump_other counts s.dir dir there ∙ h))
  ]
]

-- The sessions of all servers, in the order that they are counted in.
abbrev pub all_sessions : SessionsByServer → List Server → List Session
all_sessions by_server [] = []
all_sessions by_server (server ∷ servers) = by_server server.id ++ all_sessions by_server servers

running_in-append :
    (dir : Str) (xs ys : List Session)
    → running_in dir (xs ++ ys) ≡ running_in dir xs + running_in dir ys
running_in-append dir xs ys = ap length (filter-append (running_at dir) xs ys) ∙ length-append _ _

filter-count_servers :
    (dir : Str) (by_server : SessionsByServer) (servers : List Server) (counts : List (Str × ℕ))
    (n : ℕ)
    → filter (at_path dir) counts ≡ entry dir n
    → filter (at_path dir) (count_servers by_server counts servers)
      ≡ entry dir (n + running_in dir (all_sessions by_server servers))
unfolding count_servers
filter-count_servers dir by_server [] counts n h = h ∙ ap (entry dir) (omega arith)
filter-count_servers dir by_server (server ∷ servers) counts n h =
    filter-count_servers dir by_server servers (count_sessions counts (by_server server.id)) _
      (filter-count_sessions dir (by_server server.id) counts n h)
    ∙ ap (entry dir) (
        omega (arith, running_in-append dir (by_server server.id) (all_sessions by_server servers)))

-- The button of a directory with `n` running sessions.
abbrev pub buttons_for : Str → ℕ → List DirButton
buttons_for dir n =
    if n == 0 then [] else record { path = dir; name = leaf_name dir; count = n } ∷ []

filter-map_button :
    (dir : Str) (counts : List (Str × ℕ)) (n : ℕ)
    → filter (at_path dir) counts ≡ entry dir n
    → filter (λ b. str_eq b.path dir) (map button_of counts) ≡ buttons_for dir n
unfolding button_of
filter-map_button dir counts n h = filter-map counts ∙ ap (map button_of) h ∙ ground arith
  where
    filter-map :
        (cs : List (Str × ℕ))
        → filter (λ b. str_eq b.path dir) (map button_of cs)
          ≡ map button_of (filter (at_path dir) cs)
    filter-map [] = refl
    filter-map (c ∷ cs) = elim (Bool-cases (at_path dir c)) [
      | inl e ↦ rw e (ap (button_of c ∷◌) (filter-map cs))
      | inr e ↦ rw e (filter-map cs)
    ]

sorted-buttons :
    (locale : Str → Str → Ordering) (dir : Str) (bs : List DirButton) (n : ℕ)
    → filter (λ b. str_eq b.path dir) bs ≡ buttons_for dir n
    → filter (λ b. str_eq b.path dir) (sort_by (button_after locale) bs) ≡ buttons_for dir n
sorted-buttons locale dir bs zero h = filter-sort_by_none (button_after locale) _ bs h
sorted-buttons locale dir bs (suc n) h =
    let z : DirButton = record { path = dir; name = leaf_name dir; count = suc n } in
    let e : buttons_for dir (suc n) ≡ z ∷ [] = ground arith in
    filter-sort_by_one (button_after locale) _ bs z (h ∙ e) ∙ sym e

-- A directory has exactly one button, with its leaf name and the number of its running sessions on
-- all servers, if it has a running session, and none if it has not. Whatever the locale's order.
pub dir_buttons-filter :
    (locale : Str → Str → Ordering) (servers : List Server) (by_server : SessionsByServer)
    (dir : Str)
    → filter (λ b. str_eq b.path dir) (dir_buttons locale servers by_server)
      ≡ buttons_for dir (running_in dir (all_sessions by_server servers))
unfolding dir_buttons
dir_buttons-filter locale servers by_server dir =
    sorted-buttons locale dir _ _
      (filter-map_button dir _ _ (filter-count_servers dir by_server servers [] 0 refl))
    ∙ ap (buttons_for dir) (omega arith)
