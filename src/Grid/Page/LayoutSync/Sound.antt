-- ===== src/Grid/Page/LayoutSync/Sound.antt =====
-- What the page, the requests on their way and the daemon have in common, and that every step keeps
-- it.
use multimux.Base.{
  ℕ, suc, ◌≤◌, ◌≡◌, refl, sym, ap, ◌∙◌, inl, inr, Bool, true, false, ◌||◌, Option, none, some, List,
  [], ◌∷◌, if◌then◌else◌, arith, get_elem?, set, erase_idx, is_some, All, All-map, All-get_elem?,
  All-set, All-erase_idx, Bool-cases, some_inj, by_true, by_false, subst,
}
use multimux.Grid.Model.{Layout}
use multimux.Grid.Page.LayoutSync.{
  LayoutSync, Fetch, adopt_layout, flush_layout, written, persist, writing, refresh_layout,
}
use multimux.Grid.Page.LayoutSync.System.{Write, Read, System, sent}

-- What is on its way, what the daemon holds and what the last edit made fit together.
pub record Sound {N : Type 0} (pending : Option (Layout N)) (flight : Bool) (w : Option (Write N))
    (daemon : Layout N) (last : Option (Layout N)) : Type 0 where
  pub flight_so : flight ≡ is_some w
  pub pending_last : (p : Layout N) → pending ≡ some p → last ≡ some p
  pub pending_flight : (p : Layout N) → pending ≡ some p → flight ≡ true
  pub write_last : (v : Write N) → pending ≡ none → w ≡ some v → last ≡ some v.value
  pub write_stored : (v : Write N) → w ≡ some v → v.stored ≡ true → daemon ≡ v.value
  pub quiet_daemon : (e : Layout N) → pending ≡ none → w ≡ none → last ≡ some e → daemon ≡ e

-- A read that is not late now was never beside a write, and tells the last edit.
pub record Fresh {N : Type 0} (serial : ℕ) (busy : Bool) (last : Option (Layout N)) (r : Read N)
    : Type 0 where
  pub past : r.fetch.edit_serial ≤ serial
  pub idle : r.fetch.writing_at_issue ≡ false → r.fetch.edit_serial ≡ serial → busy ≡ false
  pub tells :
      r.fetch.writing_at_issue ≡ false
      → r.fetch.edit_serial ≡ serial
      → (v e : Layout N) → r.answer ≡ some v
      → last ≡ some e
      → v ≡ e

pub record Agrees {N : Type 0} (s : System N) : Type 0 where
  pub sound : Sound s.page.pending_write s.page.write_in_flight s.write s.daemon s.last
  pub fresh : All (Fresh s.page.edit_serial (writing s.page) s.last) s.reads

module _ {N : Type 0} (P : LayoutSync N × List (Layout N) → Type 0) (s : LayoutSync N) where
  -- What a flush can do.
  pub flush_layout_cases :
      (s.pending_write ≡ none → P (s, []))
      → ((l : Layout N) → s.pending_write ≡ some l → s.write_in_flight ≡ true → P (s, []))
      → ((l : Layout N)
          → s.pending_write ≡ some l
          → s.write_in_flight ≡ false
          → P (record s { pending_write = none; write_in_flight = true }, l ∷ []))
      → P (flush_layout s)
  unfolding flush_layout
  flush_layout_cases a b c = go s.pending_write refl
    where
      go :
          (o : Option (Layout N))
          → s.pending_write ≡ o
          → P (elim o [
            | none ↦ (s, [])
            | some l ↦
                if s.write_in_flight
                then (s, [])
                else (record s { pending_write = none; write_in_flight = true }, l ∷ [])
          ])
      go none e = a e
      go (some l) e = elim (Bool-cases s.write_in_flight) [
        | inl f ↦ by_true P _ _ f (b l e f)
        | inr f ↦ by_false P _ _ f (c l e f)
      ]

module _ {N : Type 0} where
  -- Later edits make every read on its way late.
  outdated :
      (serial : ℕ) (busy busy' : Bool) (last last' : Option (Layout N)) (r : Read N)
      → Fresh serial busy last r
      → Fresh (suc serial) busy' last' r
  outdated serial busy busy' last last' r h = record {
    past = omega (arith, h.past);
    idle = λ _ e. absurd (omega (arith, h.past, e));
    tells = λ _ e _ _ _ _. absurd (omega (arith, h.past, e));
  }

  -- So does a write that was under way.
  unbusied :
      (serial : ℕ) (busy' : Bool) (last : Option (Layout N)) (r : Read N)
      → Fresh serial true last r
      → Fresh serial busy' last r
  unbusied serial busy' last r h = record {
    past = h.past;
    idle = λ a e. absurd (cc (h.idle a e));
    tells = h.tells;
  }

  busy_of_flight : (s : LayoutSync N) → s.write_in_flight ≡ true → writing s ≡ true
  busy_of_flight s e = rw e refl

  pub flight_of_write :
      (s : System N) (v : Write N) → Agrees s → s.write ≡ some v → s.page.write_in_flight ≡ true
  flight_of_write s v a e = a.sound.flight_so ∙ ap is_some e

  pub no_write : (w : Option (Write N)) → false ≡ is_some w → w ≡ none
  no_write none e = refl
  no_write (some v) e = cc

  pub edited-Agrees :
      (s : System N) (update : Layout N → Layout N)
      → Agrees s
      → Agrees (record s {
        page = (persist s.page update).0;
        write = sent s.write (persist s.page update).1;
        last = some (update s.page.layout);
      })
  unfolding persist adopt_layout
  edited-Agrees s update a =
      flush_layout_cases
        (λ r.
          Agrees
            (record s { page = r.0; write = sent s.write r.1; last = some (update s.page.layout) }))
        (record (adopt_layout s.page (update s.page.layout)) {
          edit_serial = suc s.page.edit_serial;
          pending_write = some (update s.page.layout);
        })
        (λ e. cc)
        (λ l e f. record {
          sound = record {
            flight_so = a.sound.flight_so;
            pending_last = λ p q. q;
            pending_flight = λ p q. f;
            write_last = λ v q. cc;
            write_stored = a.sound.write_stored;
            quiet_daemon = λ v q. cc;
          };
          fresh = All-map (outdated _ _ _ _ _) s.reads a.fresh;
        })
        (λ l e f. record {
          sound = record {
            flight_so = refl;
            pending_last = λ p q. cc;
            pending_flight = λ p q. cc;
            write_last = λ v q w. e ∙ ap (λ (x : Write N). some x.value) (some_inj w);
            write_stored = λ v w k. cc (ap (λ (x : Write N). x.stored) (some_inj w), k);
            quiet_daemon = λ v q w. cc;
          };
          fresh = All-map (outdated _ _ _ _ _) s.reads a.fresh;
        })

  pub ended-Agrees :
      (s : System N) (l : Layout N)
      → s.write ≡ some (record { value = l; stored = true })
      → Agrees s
      → Agrees (record s { page = (written s.page).0; write = sent none (written s.page).1 })
  unfolding written
  ended-Agrees s l h a =
      flush_layout_cases (λ r. Agrees (record s { page = r.0; write = sent none r.1 }))
        (record s.page { write_in_flight = false })
        (λ e. record {
          sound = record {
            flight_so = refl;
            pending_last = a.sound.pending_last;
            pending_flight = λ p q. cc (e, q);
            write_last = λ v q w. cc;
            write_stored = λ v w k. cc;
            quiet_daemon = λ v q w k.
                a.sound.write_stored _ h refl ∙ some_inj (sym (a.sound.write_last _ q h) ∙ k);
          };
          fresh = All-map (λ r k. unbusied _ _ _ r (busied r k)) s.reads a.fresh;
        })
        (λ l e f. cc)
        (λ p e f. record {
          sound = record {
            flight_so = refl;
            pending_last = λ p q. cc;
            pending_flight = λ p q. cc;
            write_last =
                λ v q w. a.sound.pending_last p e ∙ ap (λ (x : Write N). some x.value) (some_inj w);
            write_stored = λ v w k. cc (ap (λ (x : Write N). x.stored) (some_inj w), k);
            quiet_daemon = λ v q w. cc;
          };
          fresh = All-map (λ r k. unbusied _ _ _ r (busied r k)) s.reads a.fresh;
        })
    where
      busy : writing s.page ≡ true
      busy = busy_of_flight s.page (flight_of_write s _ a h)

      busied :
          (r : Read N)
          → Fresh s.page.edit_serial (writing s.page) s.last r
          → Fresh s.page.edit_serial true s.last r
      busied r k = subst (λ b. Fresh s.page.edit_serial b s.last r) busy k

  pub stored-Agrees :
      (s : System N) (l : Layout N)
      → s.write ≡ some (record { value = l; stored = false })
      → Agrees s
      → Agrees (record s { daemon = l; write = some (record { value = l; stored = true }) })
  stored-Agrees s l h a = record {
    sound = record {
      flight_so = flight_of_write s _ a h;
      pending_last = a.sound.pending_last;
      pending_flight = a.sound.pending_flight;
      write_last =
          λ v q w. a.sound.write_last _ q h ∙ ap (λ (x : Write N). some x.value) (some_inj w);
      write_stored = λ v w k. ap (λ (x : Write N). x.value) (some_inj w);
      quiet_daemon = λ v q w. cc;
    };
    fresh = a.fresh;
  }

  pub asked-Agrees :
      (s : System N) (settle : Bool)
      → Agrees s
      → Agrees (record s {
        reads = record { fetch = refresh_layout s.page settle; answer = none } ∷ s.reads;
      })
  unfolding refresh_layout
  asked-Agrees s settle a = record {
    sound = a.sound;
    fresh = (record { past = le_refl; idle = λ q e. q; tells = λ q e v k w. cc }, a.fresh);
  }
    where
      le_refl : s.page.edit_serial ≤ s.page.edit_serial
      le_refl = omega arith

  quiet_parts :
      (s : LayoutSync N)
      → writing s ≡ false
      → (s.write_in_flight ≡ false) × (s.pending_write ≡ none)
  quiet_parts s h = go s.write_in_flight s.pending_write h
    where
      go : (b : Bool) (o : Option (Layout N)) → (b || is_some o) ≡ false → (b ≡ false) × (o ≡ none)
      go true o h = absurd (ground arith)
      go false none h = (refl, refl)
      go false (some l) h = cc

  -- While nothing is on its way, the daemon holds the last edit.
  pub Agrees-daemon :
      (s : System N)
      → Agrees s
      → writing s.page ≡ false
      → (e : Layout N) → s.last ≡ some e
      → s.daemon ≡ e
  Agrees-daemon s a h e k =
      let (f, p) = quiet_parts s.page h in
      a.sound.quiet_daemon e p (no_write s.write (sym f ∙ a.sound.flight_so)) k

  pub served-Agrees :
      (s : System N) (i : ℕ) (f : Fetch)
      → get_elem? s.reads i ≡ some (record { fetch = f; answer = none })
      → Agrees s
      → Agrees (record s { reads = set s.reads i (record { fetch = f; answer = some s.daemon }) })
  served-Agrees s i f h a = record {
    sound = a.sound;
    fresh = All-set _ s.reads i _ a.fresh (record {
      past = old.past;
      idle = old.idle;
      tells = λ q e v w k m. sym (some_inj k) ∙ Agrees-daemon s a (old.idle q e) w m;
    });
  }
    where
      old : Fresh s.page.edit_serial (writing s.page) s.last (record { fetch = f; answer = none })
      old = All-get_elem? _ s.reads i a.fresh h

  -- The page's own state, but for what is on its way
  pub kept-Agrees :
      (s : System N) (i : ℕ) (page : LayoutSync N)
      → page.pending_write ≡ s.page.pending_write
      → page.write_in_flight ≡ s.page.write_in_flight
      → page.edit_serial ≡ s.page.edit_serial
      → Agrees s
      → Agrees (record s { page = page; reads = erase_idx s.reads i })
  kept-Agrees s i page p f e a =
      rw (p, f, e) (record { sound = a.sound; fresh = All-erase_idx _ s.reads i a.fresh })
