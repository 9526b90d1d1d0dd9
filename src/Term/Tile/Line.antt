-- ===== src/Term/Tile/Line.antt =====
-- The line of a terminal's effect to the daemon, and how the socket's callbacks pass it on.
use multimux.Base.{
  ℕ, suc, Bool, ◌-◌, ◌≤◌, ◌≡◌, refl, ap, ◌∙◌, inl, inr, true, false, not, ◌||◌, some, List, [], ◌∷◌,
  arith, ◌==◌, by_true, by_false, Bool-cases,
}
use multimux.Term.Tile.{
  Tile, offline, Effect, set_state, classify, Message, bytes, text, without, has,
}
use multimux.Term.Tile.Close.{Kind, retry, gone_exited, gone_missing, gone_auth}
use multimux.Term.Tile.Socket.{
  connect, on_open, is_exit, on_message, on_close, after, on_classified, on_timer,
}
use multimux.Term.Tile.Untouched.{IsSame}

-- Either one socket calls back, and it is the current one, or one call of `classifyClose` has not
-- answered, or one timer is set that will connect.
pub data Line (t : Tile) : Type 0 where
  live : (w : ℕ) → t.ws ≡ some w → t.attached ≡ w ∷ [] → t.pending ≡ [] → t.classifying ≡ 0 → Line t
  asking : t.attached ≡ [] → t.pending ≡ [] → t.classifying ≡ 1 → Line t
  waiting :
      (d : ℕ)
      → t.attached ≡ []
      → t.timeout ≡ some d
      → t.pending ≡ d ∷ []
      → t.classifying ≡ 0
      → Line t

-- No socket calls back but the current one.
pub data Held (t : Tile) : Type 0 where
  let_go : t.attached ≡ [] → Held t
  held : (w : ℕ) → t.ws ≡ some w → t.attached ≡ w ∷ [] → Held t

-- A tile that has not given up has a line, and one that has sets no timer.
pub data IsHealthy (t : Tile) : Type 0 where
  going :
      t.closed ≡ false → t.muted ≡ [] → Line t → 500 ≤ t.backoff → t.backoff ≤ 10000 → IsHealthy t
  over : t.closed ≡ true → Held t → t.pending ≡ [] → IsHealthy t

abbrev pub After : Tile × List Effect → Type 0
After r = IsHealthy r.0

Line-same : (t t' : Tile) → IsSame t t' → Line t → Line t'
Line-same t t' h (live w p q r s) =
    live w (h.same_ws ∙ p) (h.same_attached ∙ q) (h.same_pending ∙ r) (h.same_classifying ∙ s)
Line-same t t' h (asking p q r) =
    asking (h.same_attached ∙ p) (h.same_pending ∙ q) (h.same_classifying ∙ r)
Line-same t t' h (waiting d p q r s) =
    waiting d (h.same_attached ∙ p) (h.same_timeout ∙ q) (h.same_pending ∙ r)
      (h.same_classifying ∙ s)

Held-same : (t t' : Tile) → IsSame t t' → Held t → Held t'
Held-same t t' h (let_go p) = let_go (h.same_attached ∙ p)
Held-same t t' h (held w p q) = held w (h.same_ws ∙ p) (h.same_attached ∙ q)

-- The line and the backoff are not what changes.
pub keep-IsHealthy : (t t' : Tile) → IsSame t t' → IsHealthy t → IsHealthy t'
keep-IsHealthy t t' h (going o u l a b) =
    let e = h.same_backoff in
    going (h.same_closed ∙ o) (h.same_muted ∙ u) (Line-same t t' h l) (omega arith) (omega arith)
keep-IsHealthy t t' h (over o l p) =
    over (h.same_closed ∙ o) (Held-same t t' h l) (h.same_pending ∙ p)

pub without_self : (n : ℕ) → without n (n ∷ []) ≡ []
without_self n = ground arith

pub connect-IsHealthy :
    (t : Tile)
    → t.closed ≡ false
    → t.muted ≡ []
    → t.attached ≡ []
    → t.pending ≡ []
    → t.classifying ≡ 0
    → 500 ≤ t.backoff
    → t.backoff ≤ 10000
    → After (connect t)
unfolding connect
connect-IsHealthy t o u a p c lo hi =
    by_false After (t, []) _ o (going o u (live t.fresh refl (ap (t.fresh ∷◌) a) p c) lo hi)

pub on_open-IsHealthy : (t : Tile) (box : Bool) → IsHealthy t → After (on_open t box)
unfolding on_open
on_open-IsHealthy t box (going o u (live w p q r s) a b) =
    going o u (live w p q r s) (omega arith) (omega arith)
on_open-IsHealthy t box (going o u (asking p q r) a b) =
    going o u (asking p q r) (omega arith) (omega arith)
on_open-IsHealthy t box (going o u (waiting d p q r s) a b) =
    going o u (waiting d p q r s) (omega arith) (omega arith)
on_open-IsHealthy t box (over o (let_go p) q) = over o (let_go p) q
on_open-IsHealthy t box (over o (held w p r) q) = over o (held w p r) q

-- To give up is to stop where no timer is set.
give_up : (t : Tile) → IsHealthy t → t.pending ≡ [] → Held t
give_up t (going o u (live w p q r s) a b) e = held w p q
give_up t (going o u (asking p q r) a b) e = let_go p
give_up t (going o u (waiting d p q r s) a b) e = let_go p
give_up t (over o h p) e = h

-- A tile with a socket that calls back has set no timer.
unset : (t : Tile) (id : ℕ) → IsHealthy t → has id t.attached ≡ true → t.pending ≡ []
unset t id (going o u (live w p q r s) a b) found = r
unset t id (going o u (asking p q r) a b) found = q
unset t id (going o u (waiting d p q r s) a b) found = absurd (ground arith)
unset t id (over o h p) found = p

Held-closing : (t t' : Tile) → t'.ws ≡ t.ws → t'.attached ≡ t.attached → Held t → Held t'
Held-closing t t' a b (let_go p) = let_go (b ∙ p)
Held-closing t t' a b (held w p q) = held w (a ∙ p) (b ∙ q)

pub on_message-IsHealthy :
    (t : Tile) (id : ℕ) (m : Message)
    → has id t.attached ≡ true
    → IsHealthy t
    → After (on_message t m)
unfolding on_message
on_message-IsHealthy t id (bytes b) found h = elim (Bool-cases t.closed) [
  | inl e ↦ by_true After (t, []) _ e h
  | inr e ↦ by_false After (t, []) _ e h
]
on_message-IsHealthy t id (text type) found h = elim (Bool-cases (t.closed || not (is_exit type))) [
  | inl e ↦ by_true After (t, []) _ e h
  | inr e ↦
      by_false After (t, []) _ e
        (over refl (Held-closing t _ refl refl (give_up t h (unset t id h found)))
          (unset t id h found))
]

pub on_close-IsHealthy :
    (t : Tile) (id : ℕ) → has id t.attached ≡ true → IsHealthy t → After (on_close t id)
unfolding on_close
on_close-IsHealthy t id found (going o u (live w p q r s) a b) =
    by_false After (record t { attached = without id t.attached; ws_open = false }, []) _ o
      (going o u (asking (rw q (ground arith)) r (omega arith)) a b)
on_close-IsHealthy t id found (going o u (asking p q r) a b) = absurd (ground arith)
on_close-IsHealthy t id found (going o u (waiting d p q r s) a b) = absurd (ground arith)
on_close-IsHealthy t id found (over o (let_go p) q) = absurd (ground arith)
on_close-IsHealthy t id found (over o (held w p r) q) =
    let gone : Tile = record t { attached = without id t.attached; ws_open = false } in
    by_true After (gone, [])
      (
        record gone { state = offline; classifying = suc t.classifying },
        set_state offline ∷ classify ∷ [],
      )
      o (over o (let_go (rw r (ground arith))) q)

-- `after` is called for a tile that has no line.
after-IsHealthy :
    (t : Tile) (k : Kind)
    → t.closed ≡ false
    → t.muted ≡ []
    → t.attached ≡ []
    → t.pending ≡ []
    → t.classifying ≡ 0
    → 500 ≤ t.backoff
    → After (after t k)
after-IsHealthy t retry o u p q c a =
    going o u (waiting t.fresh p refl (ap (t.fresh ∷◌) q) c) (omega arith) (omega arith)
after-IsHealthy t gone_exited o u p q c a = over refl (let_go p) q
after-IsHealthy t gone_missing o u p q c a = over refl (let_go p) q
after-IsHealthy t gone_auth o u p q c a = over refl (let_go p) q

pub on_classified-IsHealthy :
    (t : Tile) (k : Kind) → (t.classifying == 0) ≡ false → IsHealthy t → After (on_classified t k)
unfolding on_classified
on_classified-IsHealthy t k c (going o u (live w p q r s) a b) = absurd (ground arith)
on_classified-IsHealthy t k c (going o u (asking p q r) a b) =
    by_false After (record t { classifying = t.classifying - 1 }, []) _ o
      (after-IsHealthy (record t { classifying = t.classifying - 1 }) k o u p q (omega arith) a)
on_classified-IsHealthy t k c (going o u (waiting d p q r s) a b) = absurd (ground arith)
on_classified-IsHealthy t k c (over o h p) =
    by_true After (record t { classifying = t.classifying - 1 }, []) _ o
      (over o (Held-closing t _ refl refl h) p)

pub on_timer-IsHealthy :
    (t : Tile) (id : ℕ) → has id t.pending ≡ true → IsHealthy t → After (on_timer t id)
unfolding on_timer
on_timer-IsHealthy t id found (going o u (live w p q r s) a b) = absurd (ground arith)
on_timer-IsHealthy t id found (going o u (asking p q r) a b) = absurd (ground arith)
on_timer-IsHealthy t id found (going o u (waiting d p q r s) a b) =
    connect-IsHealthy (record t { pending = without id t.pending }) o u p (rw r (ground arith)) s a
      b
on_timer-IsHealthy t id found (over o h p) = absurd (ground arith)
