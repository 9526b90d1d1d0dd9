-- ===== src/Term/Tile/Untouched.antt =====
-- What a terminal's input leaves alone: its connection.
use multimux.Base.{
  ◌≡◌, refl, ◌∙◌, inl, inr, Bool, true, false, ◌&&◌, Option, none, some, List, [], ◌∷◌, by_true,
  by_false, Bool-cases, Str, str_eq, is_some,
}
use multimux.Term.Tile.{Tile, Effect, send}
use multimux.Term.Tile.Input.{refused, send_input, on_data, on_all_data, input, paste}

-- What the connection consists of, apart from its state on screen
pub record IsSame (t t' : Tile) : Type 0 where
  pub same_ws : t'.ws ≡ t.ws
  pub same_attached : t'.attached ≡ t.attached
  pub same_muted : t'.muted ≡ t.muted
  pub same_closed : t'.closed ≡ t.closed
  pub same_timeout : t'.timeout ≡ t.timeout
  pub same_pending : t'.pending ≡ t.pending
  pub same_classifying : t'.classifying ≡ t.classifying
  pub same_backoff : t'.backoff ≡ t.backoff

pub is_same :
    (t : Tile) (p : Option Bool) (cr held is_open : Bool)
    → IsSame t (record t {
      paste_accepted = p;
      suppress_next_cr = cr;
      reflow_pending = held;
      ws_open = is_open;
    })
is_same t p cr held is_open = record {
  same_ws = refl;
  same_attached = refl;
  same_muted = refl;
  same_closed = refl;
  same_timeout = refl;
  same_pending = refl;
  same_classifying = refl;
  same_backoff = refl;
}

IsSame-trans : (t t' t'' : Tile) → IsSame t t' → IsSame t' t'' → IsSame t t''
IsSame-trans t t' t'' g h = record {
  same_ws = h.same_ws ∙ g.same_ws;
  same_attached = h.same_attached ∙ g.same_attached;
  same_muted = h.same_muted ∙ g.same_muted;
  same_closed = h.same_closed ∙ g.same_closed;
  same_timeout = h.same_timeout ∙ g.same_timeout;
  same_pending = h.same_pending ∙ g.same_pending;
  same_classifying = h.same_classifying ∙ g.same_classifying;
  same_backoff = h.same_backoff ∙ g.same_backoff;
}

abbrev pub Keeps : Tile → Tile × List Effect → Type 0
Keeps t r = IsSame t r.0

send_input-IsSame : (t : Tile) (s : Str) (works : Bool) → Keeps t (send_input t s works).0
unfolding send_input
send_input-IsSame t s works =
    let no : Tile × List Effect = (record t { paste_accepted = refused t.paste_accepted }, []) in
    elim (Bool-cases (is_some t.ws && t.ws_open && works)) [
      | inl e ↦
          by_true (λ (r : (Tile × List Effect) × Bool). Keeps t r.0) ((t, send s ∷ []), true)
            (no, false) e (is_same t _ _ _ _)
      | inr e ↦
          by_false (λ (r : (Tile × List Effect) × Bool). Keeps t r.0) ((t, send s ∷ []), true)
            (no, false) e (is_same t _ _ _ _)
    ]

pub on_data-IsSame : (t : Tile) (s : Str) (works : Bool) → Keeps t (on_data t s works)
unfolding on_data
on_data-IsSame t s works = elim (Bool-cases (t.suppress_next_cr && str_eq s (13 ∷ []))) [
  | inl e ↦
      by_true (Keeps t) (record t { suppress_next_cr = false }, []) (send_input t s works).0 e
        (is_same t _ _ _ _)
  | inr e ↦
      by_false (Keeps t) (record t { suppress_next_cr = false }, []) _ e
        (send_input-IsSame t s works)
]

on_all_data-IsSame : (t : Tile) (ds : List Str) (works : Bool) → Keeps t (on_all_data t ds works)
unfolding on_all_data
on_all_data-IsSame t [] works = is_same t _ _ _ _
on_all_data-IsSame t (d ∷ ds) works =
    let t' = (on_data t d works).0 in
    IsSame-trans t t' _ (on_data-IsSame t d works) (on_all_data-IsSame t' ds works)

pub input-IsSame : (t : Tile) (s : Str) (works : Bool) → Keeps t (input t s works)
unfolding input
input-IsSame t s works = elim (Bool-cases (is_some t.ws && t.ws_open)) [
  | inl e ↦ by_true (Keeps t) _ _ e (send_input-IsSame t s works)
  | inr e ↦ by_false (Keeps t) _ _ e (is_same t _ _ _ _)
]

pub paste-IsSame :
    (t : Tile) (ds : List Str) (throws works : Bool) → Keeps t (paste t ds throws works)
unfolding paste
paste-IsSame t ds throws works = elim (Bool-cases (is_some t.ws && t.ws_open)) [
  | inl e ↦ by_true (Keeps t) _ _ e (
      let t' : Tile = record t { paste_accepted = some true } in
      let h = on_all_data-IsSame t' ds works in
      IsSame-trans t _ _ (IsSame-trans t t' _ (is_same t _ _ _ _) h) (is_same _ none _ _ _))
  | inr e ↦ by_false (Keeps t) _ _ e (is_same t _ _ _ _)
]
