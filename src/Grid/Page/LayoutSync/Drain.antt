-- ===== src/Grid/Page/LayoutSync/Drain.antt =====
-- Writes come to an end, and leave the last edit with the daemon.
use multimux.Base.{
  ◌≡◌, refl, sym, ap, ap₂, ◌∙◌, inl, inr, Bool, true, false, ◌||◌, Option, none, some, List, [],
  ◌∷◌, is_some, Bool-cases, Option-cases, some_inj,
}
use multimux.Grid.Numbers.{Numbers}
use multimux.Grid.Model.{Layout}
use multimux.Grid.Page.LayoutSync.{LayoutSync, written, writing}
use multimux.Grid.Page.LayoutSync.System.{Write, System, stored, ended, Reach}
use multimux.Grid.Page.LayoutSync.Sound.{
  Agrees, flush_layout_cases, ended-Agrees, stored-Agrees, Agrees-daemon,
}
use multimux.Grid.Page.LayoutSync.Agreement.{Reach-Agrees}

written-none :
    {N : Type 0} (s : LayoutSync N)
    → s.pending_write ≡ none
    → written s ≡ (record s { write_in_flight = false }, [])
unfolding written
written-none s h =
    flush_layout_cases (λ r. r ≡ (record s { write_in_flight = false }, []))
      (record s { write_in_flight = false }) (λ e. refl) (λ l e f. cc) (λ l e f. cc (h, e))

written-some :
    {N : Type 0} (s : LayoutSync N) (p : Layout N)
    → s.pending_write ≡ some p
    → written s ≡ (record s { pending_write = none; write_in_flight = true }, p ∷ [])
unfolding written
written-some s p h =
    flush_layout_cases
      (λ r. r ≡ (record s { pending_write = none; write_in_flight = true }, p ∷ []))
      (record s { write_in_flight = false }) (λ e. cc (h, e)) (λ l e f. cc)
      (λ l e f.
        ap (λ q. (record s { pending_write = none; write_in_flight = true }, q ∷ []))
          (some_inj (sym e ∙ h)))

module _ (R : Numbers) where
  open R use {Num}

  -- Steps that only finish writes
  pub data Drains (s : System Num) : System Num → Type 0 where
    here : Drains s s
    storing :
        {t : System Num} (l : Layout Num)
        → t.write ≡ some (record { value = l; stored = false })
        → Drains s t
        → Drains s (stored R t l)
    ending :
        {t : System Num} (l : Layout Num)
        → t.write ≡ some (record { value = l; stored = true })
        → Drains s t
        → Drains s (ended R t)

  record SameEdit (s t : System Num) : Type 0 where
    last_same : t.last ≡ s.last
    layout_same : t.page.layout ≡ s.page.layout

  -- What `drain` promises.
  record Drained (s : System Num) : Type 0 where
    to : System Num
    steps : Drains s to
    quiet : writing to.page ≡ false
    good : Agrees to
    same : SameEdit s to

  -- The write on its way ends, after it has been stored.
  finish :
      (s t : System Num) (w : Write Num)
      → t.write ≡ some w
      → Drains s t
      → Agrees t
      → (u : System Num) × Drains s (ended R u)
        × Agrees (ended R u)
        × (u.page ≡ t.page)
        × (u.last ≡ t.last)
  finish s t w e d a = elim (Bool-cases w.stored) [
    | inl k ↦
        let h : t.write ≡ some (record { value = w.value; stored = true }) = e ∙ whole true k in
        (t, ending w.value h d, ended-Agrees t w.value h a, refl, refl)
    | inr k ↦
        let h : t.write ≡ some (record { value = w.value; stored = false }) = e ∙ whole false k in
        (
          stored R t w.value,
          ending w.value refl (storing w.value h d),
          ended-Agrees (stored R t w.value) w.value refl (stored-Agrees t w.value h a),
          refl,
          refl,
        )
  ]
    where
      whole : (b : Bool) → w.stored ≡ b → some w ≡ some (record { value = w.value; stored = b })
      whole b k = ap (λ c. some (record { value = w.value; stored = c })) k

  last_round :
      (s t : System Num)
      → t.page.pending_write ≡ none
      → Drains s t
      → Agrees t
      → SameEdit s t
      → Drained s
  last_round s t p d a m = elim (Option-cases t.write) [
    | inl e ↦ record {
      to = t;
      steps = d;
      quiet = ap₂ (λ b o. b || is_some o) (a.sound.flight_so ∙ ap is_some e) p;
      good = a;
      same = m;
    }
    | inr (w, e) ↦
        let (u, du, au, same_page, same_last) = finish s t w e d a in
        let none_left = ap (λ (x : LayoutSync Num). x.pending_write) same_page ∙ p in
        let end = written-none u.page none_left in
        record {
          to = ended R u;
          steps = du;
          quiet =
              ap (λ (r : LayoutSync Num × List (Layout Num)). writing r.0) end
              ∙ ap is_some none_left;
          good = au;
          same = record {
            last_same = same_last ∙ m.last_same;
            layout_same =
                ap (λ (r : LayoutSync Num × List (Layout Num)). r.0.layout) end
                ∙ ap (λ (x : LayoutSync Num). x.layout) same_page
                ∙ m.layout_same;
          };
        }
  ]

  some_write : (w : Option (Write Num)) → is_some w ≡ true → (v : Write Num) × (w ≡ some v)
  some_write none h = cc
  some_write (some v) h = (v, refl)

  first_round :
      (s : System Num) (p : Layout Num) → s.page.pending_write ≡ some p → Agrees s → Drained s
  first_round s p h a =
      let (w, e) = some_write s.write (sym a.sound.flight_so ∙ a.sound.pending_flight p h) in
      let (u, du, au, same_page, same_last) = finish s s w e here a in
      let end =
        written-some u.page p (ap (λ (x : LayoutSync Num). x.pending_write) same_page ∙ h) in
      last_round s (ended R u)
        (ap (λ (r : LayoutSync Num × List (Layout Num)). r.0.pending_write) end) du au
        (record {
          last_same = same_last;
          layout_same =
              ap (λ (r : LayoutSync Num × List (Layout Num)). r.0.layout) end
              ∙ ap (λ (x : LayoutSync Num). x.layout) same_page;
        })

  drained : (s : System Num) → Agrees s → Drained s
  drained s a = elim (Option-cases s.page.pending_write) [
    | inl e ↦ last_round s s e here a (record { last_same = refl; layout_same = refl })
    | inr (p, e) ↦ first_round s p e a
  ]

  -- At any time, steps that only finish the writes on their way lead to where nothing is left to write;
  -- the layout on screen is the same, and the daemon holds what the last edit made. Again no other page
  -- writes the layout and no write fails.
  pub Drains-last :
      (s : System Num) (e : Layout Num)
      → Reach R s
      → s.last ≡ some e
      → (t : System Num) × Drains s t
        × (writing t.page ≡ false)
        × (t.page.layout ≡ s.page.layout)
        × (t.daemon ≡ e)
  Drains-last s e r h =
      let d = drained s (Reach-Agrees R r) in
      (
        d.to,
        d.steps,
        d.quiet,
        d.same.layout_same,
        Agrees-daemon d.to d.good d.quiet e (d.same.last_same ∙ h),
      )
