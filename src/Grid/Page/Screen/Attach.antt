-- ===== src/Grid/Page/Screen/Attach.antt =====
-- A session that is attached is shown.
use Prim.Native.Nat.{Ordering}
use multimux.Base.{
  ℕ, ◌<◌, ◌≡◌, refl, sym, ap, ◌∙◌, inl, inr, Bool, true, false, Option, none, some, List, [], ◌∷◌,
  ◌++◌, arith, length, filter, any, find?, Any, Any-append_left, Any-append_right, Bool-cases,
  some_inj, subst, by_false, Str, str_eq, str_eq→eq, str_eq_refl,
}
use multimux.Grid.Numbers.{Numbers}
use multimux.Grid.Types.{Session, Server, running}
use multimux.Grid.Model.{Tile, occupied, add_tile}
use multimux.Grid.Model.Slots.{occupied-append}
use multimux.Grid.Model.Packing.{occupied-normalize}
use multimux.Grid.View.{tile_key, filter_layout}
use multimux.Grid.View.Mirrors.{filter_layout-Mirrors}
use multimux.Grid.DirFilter.{
  SessionsByServer, DirButton, dir_buttons, has_button, effective_dirs, non_empty,
}
use multimux.Grid.DirFilter.Buttons.{
  running_in, running_at, all_sessions, buttons_for, dir_buttons-filter,
}
use multimux.Grid.Mobile.{contains}
use multimux.Grid.Page.Screen.{
  show_dir, session_for, is_shown, placed, Desk, showing, attach_session,
}

module _ {A : Type 0} where
  Any-filter :
      (p : A → Bool) (a : A) (xs : List A)
      → p a ≡ true
      → Any (λ x. x ≡ a) xs
      → Any (λ x. x ≡ a) (filter p xs)
  Any-filter p a [] h k = absurd k
  Any-filter p a (x ∷ xs) h (inl e) = rw (ap p e ∙ h) (inl e)
  Any-filter p a (x ∷ xs) h (inr k) = elim (Bool-cases (p x)) [
    | inl e ↦ rw e (inr (Any-filter p a xs h k))
    | inr e ↦ rw e (Any-filter p a xs h k)
  ]

  length-pos_of_Any : (a : A) (xs : List A) → Any (λ x. x ≡ a) xs → 0 < length xs
  length-pos_of_Any a [] h = absurd h
  length-pos_of_Any a (x ∷ xs) h = omega arith

  find?-Any : (p : A → Bool) (a : A) (xs : List A) → find? p xs ≡ some a → Any (λ x. x ≡ a) xs
  find?-Any p a [] h = cc
  find?-Any p a (x ∷ xs) h = elim (Bool-cases (p x)) [
    | inl e ↦ inl (some_inj (rw e at h))
    | inr e ↦ inr (find?-Any p a xs (rw e at h))
  ]

  any_of_filter : (p : A → Bool) (xs : List A) → 0 < length (filter p xs) → any p xs ≡ true
  any_of_filter p [] h = absurd (omega (arith, h))
  any_of_filter p (x ∷ xs) h = ground (arith, any_of_filter p xs)

  any-filter :
      (p q : A → Bool) (xs : List A)
      → ((x : A) → q x ≡ true → p x ≡ true)
      → any q xs ≡ true
      → any q (filter p xs) ≡ true
  any-filter p q [] k h = h
  any-filter p q (x ∷ xs) k h = elim (Bool-cases (q x)) [
    | inl e ↦ rw (k x e, e) refl
    | inr e ↦ elim (Bool-cases (p x)) [
      | inl f ↦ rw (f, e) (any-filter p q xs k (rw e at h))
      | inr f ↦ rw f (any-filter p q xs k (rw e at h))
    ]
  ]

in_all_sessions :
    (by_server : SessionsByServer) (servers : List Server) (id : Str) (s : Session)
    → Any (λ server. server.id ≡ id) servers
    → Any (λ x. x ≡ s) (by_server id)
    → Any (λ x. x ≡ s) (all_sessions by_server servers)
in_all_sessions by_server [] id s h k = absurd h
in_all_sessions by_server (server ∷ servers) id s (inl e) k =
    Any-append_left _ (by_server server.id) _
      (subst (λ i. Any (λ x. x ≡ s) (by_server i)) (sym e) k)
in_all_sessions by_server (server ∷ servers) id s (inr h) k =
    Any-append_right _ (by_server server.id) _ (in_all_sessions by_server servers id s h k)

-- A running session's directory has a button.
running-has_button :
    (locale : Str → Str → Ordering) (servers : List Server) (by_server : SessionsByServer)
    (s : Session)
    → running s ≡ true
    → Any (λ x. x ≡ s) (all_sessions by_server servers)
    → has_button (dir_buttons locale servers by_server) s.dir ≡ true
unfolding has_button
running-has_button locale servers by_server s h k =
    any_of_filter (λ (d : DirButton). str_eq d.path s.dir) _
      (subst (λ (bs : List DirButton). 0 < length bs)
        (sym (dir_buttons-filter locale servers by_server s.dir))
        (one (running_in s.dir (all_sessions by_server servers)) many))
  where
    many : 0 < running_in s.dir (all_sessions by_server servers)
    many =
        length-pos_of_Any s _ (Any-filter (running_at s.dir) s _ (rw (h, str_eq_refl s.dir) refl) k)

    one : (n : ℕ) → 0 < n → 0 < length (buttons_for s.dir n)
    one n p = ground arith

contains-non_empty :
    (active : List Str) (dir : Str) (by_server : SessionsByServer) (t : Tile) (s : Session)
    → session_for by_server t ≡ some s
    → contains active s.dir ≡ true
    → is_shown (non_empty (some active)) by_server t ≡ true
unfolding is_shown contains
contains-non_empty [] dir by_server t s e h = refl
contains-non_empty (a ∷ active) dir by_server t s e h = rw e h

-- Showing a directory with a button lets its sessions through the filter.
show_dir-is_shown :
    (selected : Option (List Str)) (dirs : List DirButton) (by_server : SessionsByServer) (t : Tile)
    (s : Session)
    → session_for by_server t ≡ some s
    → has_button dirs s.dir ≡ true
    → is_shown (effective_dirs (show_dir selected s.dir) dirs) by_server t ≡ true
unfolding show_dir effective_dirs
show_dir-is_shown none dirs by_server t s e h = unfold is_shown in refl
show_dir-is_shown (some prev) dirs by_server t s e h = elim (Bool-cases (contains prev s.dir)) [
  | inl f ↦ rw f (contains-non_empty (filter (has_button dirs) prev) s.dir by_server t s e (kept f))
  | inr f ↦ rw f (unfold is_shown in refl)
]
  where
    kept : contains prev s.dir ≡ true → contains (filter (has_button dirs) prev) s.dir ≡ true
    kept f =
        unfold contains in
        any-filter (has_button dirs) (λ k. str_eq k s.dir) prev
          (λ p q. ap (has_button dirs) (str_eq→eq p s.dir q) ∙ h) f

module _ (R : Numbers) where
  open R use {Num}

  -- A running session of a known server that has no tile gets one when it is attached, and the tile is
  -- on screen: the directories that are shown from then on include the session's. What an overlay does
  -- then is to reorder the screen.
  pub attach_session-is_shown :
      (locale : Str → Str → Ordering) (servers : List Server) (by_server : SessionsByServer)
      (d : Desk Num) (t : Tile) (s : Session)
      → Any (λ server. server.id ≡ t.server_id) servers
      → session_for by_server t ≡ some s
      → running s ≡ true
      → contains (placed d.layout) (tile_key t) ≡ false
      → Any
          (λ u. u ≡ t)
          (occupied
            (filter_layout R (attach_session R by_server d t).layout (
              is_shown
                (effective_dirs
                  (attach_session R by_server d t).selected
                  (dir_buttons locale servers by_server))
                by_server)).view.tiles)
  unfolding attach_session
  attach_session-is_shown locale servers by_server d t s known e h new =
      let dirs = dir_buttons locale servers by_server in
      let Shown = λ (r : Desk Num).
        Any (λ u. u ≡ t)
          (occupied
            (filter_layout R r.layout
              (is_shown (effective_dirs r.selected dirs) by_server)).view.tiles) in
      by_false Shown d
        (record d {
          selected = showing d.selected (session_for by_server t);
          layout = add_tile R d.layout t;
        })
        new
        (rw e (
          subst (Any (λ u. u ≡ t)) (sym (filter_layout-Mirrors R (add_tile R d.layout t) _).1) (
            Any-filter (is_shown (effective_dirs (show_dir d.selected s.dir) dirs) by_server) t _
              (show_dir-is_shown d.selected dirs by_server t s e button) there)))
    where
      button : has_button (dir_buttons locale servers by_server) s.dir ≡ true
      button = running-has_button locale servers by_server s h (
          in_all_sessions by_server servers t.server_id s known
            (unfold session_for in find?-Any _ s _ e))

      there : Any (λ u. u ≡ t) (occupied (add_tile R d.layout t).tiles)
      there =
          unfold add_tile in
          subst (Any (λ u. u ≡ t))
            (sym (
              occupied-normalize R (d.layout.tiles ++ some t ∷ []) _ _ _
              ∙ occupied-append d.layout.tiles (some t ∷ [])))
            (Any-append_right _ (occupied d.layout.tiles) (t ∷ []) (inl refl))
