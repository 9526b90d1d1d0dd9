-- ===== src/Grid/Page/LayoutSync/Agreement.antt =====
-- No answer undoes an edit, and a quiet page has stored its last edit.
use multimux.Base.{
  ℕ, ◌≡◌, refl, sym, ap, ◌∙◌, ◌⊎◌, inl, inr, Bool, true, false, not, ◌||◌, Option, none, some, ◌==◌,
  ==_iff, arith, get_elem?, erase_idx, is_some, All, All-get_elem?, Bool-cases, by_true, by_false,
  subst,
}
use multimux.Grid.Numbers.{Numbers}
use multimux.Grid.Model.{Layout}
use multimux.Grid.Page.LayoutSync.{
  LayoutSync, Fetch, adopt_layout, writing, is_late, settled_by, loaded, on_layout,
}
use multimux.Grid.Page.LayoutSync.Sound.{
  Fresh, Agrees, edited-Agrees, ended-Agrees, stored-Agrees, asked-Agrees, served-Agrees,
  kept-Agrees,
}
use multimux.Grid.Page.LayoutSync.System.{
  System, answered, Step, edit, store, end_write, ask, serve, answer_read, fail, preview, IsStart,
  Reach, start, later,
}

module _ (R : Numbers) where
  open R use {Num}

  -- An answer changes nothing that is on its way.
  record SameTraffic (s t : LayoutSync Num) : Type 0 where
    pending_same : t.pending_write ≡ s.pending_write
    flight_same : t.write_in_flight ≡ s.write_in_flight
    serial_same : t.edit_serial ≡ s.edit_serial

  on_layout-SameTraffic :
      (s : LayoutSync Num) (f : Fetch) (v : Option (Option (Layout Num)))
      → SameTraffic s (on_layout R s f v)
  unfolding on_layout adopt_layout
  on_layout-SameTraffic s f none = record {
    pending_same = refl;
    flight_same = refl;
    serial_same = refl;
  }
  on_layout-SameTraffic s f (some none) = record {
    pending_same = refl;
    flight_same = refl;
    serial_same = refl;
  }
  on_layout-SameTraffic s f (some (some v)) = elim (Bool-cases (is_late s f)) [
    | inl e ↦
        by_true (λ t. SameTraffic s (settled_by t f)) s (adopt_layout s (loaded R v)) e
          (record { pending_same = refl; flight_same = refl; serial_same = refl })
    | inr e ↦
        by_false (λ t. SameTraffic s (settled_by t f)) s (adopt_layout s (loaded R v)) e
          (record { pending_same = refl; flight_same = refl; serial_same = refl })
  ]

  answer-Agrees :
      (s : System Num) (i : ℕ) (f : Fetch) (v : Option (Option (Layout Num)))
      → Agrees s
      → Agrees (record s { page = on_layout R s.page f v; reads = erase_idx s.reads i })
  answer-Agrees s i f v a =
      let t = on_layout-SameTraffic s.page f v in
      kept-Agrees s i (on_layout R s.page f v) t.pending_same t.flight_same t.serial_same a

  pub Step-Agrees : {s t : System Num} → Step R s t → Agrees s → Agrees t
  unfolding adopt_layout
  Step-Agrees {s} (edit update) a = edited-Agrees s update a
  Step-Agrees {s} (store l e) a = stored-Agrees s l e a
  Step-Agrees {s} (end_write l e) a = ended-Agrees s l e a
  Step-Agrees {s} (ask settle) a = asked-Agrees s settle a
  Step-Agrees {s} (serve i f e) a = served-Agrees s i f e a
  Step-Agrees {s} (answer_read i f v e) a = answer-Agrees s i f (some (some v)) a
  Step-Agrees {s} (fail i f v e) a = answer-Agrees s i f none a
  Step-Agrees {s} (preview rs cs) a = record { sound = a.sound; fresh = a.fresh }

  start-Agrees : (s : System Num) → IsStart R s → Agrees s
  start-Agrees s h = record {
    sound = record {
      flight_so = h.no_flight ∙ sym (ap is_some h.no_write);
      pending_last = λ p q. cc (h.no_pending, q);
      pending_flight = λ p q. cc (h.no_pending, q);
      write_last = λ v q w. cc (h.no_write, w);
      write_stored = λ v w k. cc (h.no_write, w);
      quiet_daemon = λ e p w k. cc (h.no_edit, k);
    };
    fresh = subst (All (Fresh s.page.edit_serial (writing s.page) s.last)) (sym h.no_reads) tt;
  }

  pub Reach-Agrees : {s : System Num} → Reach R s → Agrees s
  Reach-Agrees {s} (start h) = start-Agrees s h
  Reach-Agrees (later r st) = Step-Agrees st (Reach-Agrees r)

  -- Whatever the order in which requests and answers travel, an answer about the layout leaves the
  -- layout on screen as it is, or puts the canonical form of what the last edit made there, once
  -- there has been an edit; if no other page writes the layout and no write fails.
  pub answered-last :
      (s : System Num) (i : ℕ) (f : Fetch) (v e : Layout Num)
      → Reach R s
      → get_elem? s.reads i ≡ some (record { fetch = f; answer = some v })
      → s.last ≡ some e
      → ((answered R s i f v).page.layout ≡ s.page.layout)
        ⊎ ((answered R s i f v).page.layout ≡ loaded R e)
  unfolding on_layout adopt_layout
  answered-last s i f v e r h k = elim (Bool-cases (is_late s.page f)) [
    | inl late ↦ inl (
        by_true (λ (t : LayoutSync Num). t.layout ≡ s.page.layout) s.page
          (adopt_layout s.page (loaded R v)) late refl)
    | inr now ↦ inr (
        by_false (λ (t : LayoutSync Num). t.layout ≡ loaded R e) s.page
          (adopt_layout s.page (loaded R v)) now (ap (loaded R) (told now)))
  ]
    where
      fresh :
          Fresh s.page.edit_serial (writing s.page) s.last (record { fetch = f; answer = some v })
      fresh = All-get_elem? _ s.reads i (Reach-Agrees r).fresh h

      parts : (a b c : Bool) → (a || b || not c) ≡ false → (a ≡ false) × (c ≡ true)
      parts a b c q = (ground arith, ground arith)

      told : is_late s.page f ≡ false → v ≡ e
      told now =
          let (a, c) =
            parts f.writing_at_issue (writing s.page) (f.edit_serial == s.page.edit_serial) now in
          fresh.tells a ((==_iff _ _).0 c) v e refl k
