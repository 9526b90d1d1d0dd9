-- ===== src/Term/ReflowGate/Releases.antt =====
-- Who is told of a release.
use multimux.Base.{
  ℕ, suc, ◌+◌, ◌<◌, ◌≡◌, refl, sym, ap, ◌∙◌, inl, inr, Bool, true, false, not, ◌||◌, ◌&&◌, List, [],
  ◌∷◌, ◌++◌, if◌then◌else◌, ◌==◌, ==_iff, ==_refl, arith, any, Bool-cases, by_true, by_false, subst,
}
use multimux.Term.ReflowGate.{
  Gate, Call, begin_reflow_hold, end_reflow_hold, listen, unlisten, opened, added, deleted, step,
  run,
}

abbrev pub count : ℕ → List ℕ → ℕ
count n [] = 0
count n (m ∷ ns) = if m == n then suc (count n ns) else count n ns

abbrev bit : Bool → ℕ
bit true = 1
bit false = 0

-- Whether a hold is on, and whether `n` listens, after more calls
abbrev pub holds : Bool → List Call → Bool
holds b [] = b
holds b (begin_reflow_hold ∷ cs) = holds true cs
holds b (end_reflow_hold ∷ cs) = holds false cs
holds b (listen m ∷ cs) = holds b cs
holds b (unlisten m ∷ cs) = holds b cs

abbrev pub listens : ℕ → Bool → List Call → Bool
listens n b [] = b
listens n b (begin_reflow_hold ∷ cs) = listens n b cs
listens n b (end_reflow_hold ∷ cs) = listens n b cs
listens n b (listen m ∷ cs) = listens n (b || m == n) cs
listens n b (unlisten m ∷ cs) = listens n (b && not (m == n)) cs

count-append : (n m : ℕ) (ns : List ℕ) → count n (ns ++ m ∷ []) ≡ count n ns + bit (m == n)
count-append n m [] = ground arith
count-append n m (k ∷ ns) = ground (arith, count-append n m ns)

count-absent : (n : ℕ) (ns : List ℕ) → any (λ m. m == n) ns ≡ false → count n ns ≡ 0
count-absent n [] h = refl
count-absent n (k ∷ ns) h = ground (arith, count-absent n ns)

count-present : (n : ℕ) (ns : List ℕ) → any (λ m. m == n) ns ≡ true → 0 < count n ns
count-present n [] h = cc
count-present n (k ∷ ns) h = ground (arith, count-present n ns)

or_true : (b : Bool) → (b || true) ≡ true
or_true b = ground arith

or_false : (b : Bool) → (b || false) ≡ b
or_false b = ground arith

count-added_self : (n : ℕ) (ns : List ℕ) (b : Bool) → count n ns ≡ bit b → count n (added n ns) ≡ 1
count-added_self n ns b h = elim (Bool-cases (any (λ m. m == n) ns)) [
  | inl e ↦ rw e (one b h (count-present n ns e))
  | inr e ↦ rw (e, count-append n n ns, count-absent n ns e, ==_refl n) refl
]
  where
    one : (b : Bool) → count n ns ≡ bit b → 0 < count n ns → count n ns ≡ 1
    one true h k = h
    one false h k = absurd (omega (arith, h, k))

count-added :
    (n m : ℕ) (ns : List ℕ) (b : Bool)
    → count n ns ≡ bit b
    → count n (added m ns) ≡ bit (b || m == n)
count-added n m ns b h = elim (Bool-cases (m == n)) [
  | inl e ↦
      rw (e, or_true b)
        (subst (λ k. count n (added k ns) ≡ 1) (sym ((==_iff m n).0 e)) (count-added_self n ns b h))
  | inr e ↦
      rw (e, or_false b)
        (elim (Bool-cases (any (λ k. k == m) ns)) [
          | inl f ↦ rw f h
          | inr f ↦ rw (f, count-append n m ns, e) (omega (arith, h))
        ])
]

and_not : (b : Bool) → (b && not true) ≡ false
and_not b = ground arith

and_so : (b : Bool) → (b && not false) ≡ b
and_so b = ground arith

count-deleted_self : (n : ℕ) (ns : List ℕ) → count n (deleted n ns) ≡ 0
count-deleted_self n [] = refl
count-deleted_self n (k ∷ ns) = ground (arith, count-deleted_self n ns)

count-deleted_other :
    (n m : ℕ) (ns : List ℕ) → (m == n) ≡ false → count n (deleted m ns) ≡ count n ns
count-deleted_other n m [] h = refl
count-deleted_other n m (k ∷ ns) h = ground (arith, count-deleted_other n m ns)

count-deleted :
    (n m : ℕ) (ns : List ℕ) (b : Bool)
    → count n ns ≡ bit b
    → count n (deleted m ns) ≡ bit (b && not (m == n))
count-deleted n m ns b h = elim (Bool-cases (m == n)) [
  | inl e ↦
      rw (e, and_not b)
        (subst (λ k. count n (deleted k ns) ≡ 0) (sym ((==_iff m n).0 e)) (count-deleted_self n ns))
  | inr e ↦ rw (e, and_so b) (count-deleted_other n m ns e ∙ h)
]

-- The gate agrees with what the calls so far say.
record Agrees (n : ℕ) (b l : Bool) (g : Gate) : Type 0 where
  held_so : g.held ≡ b
  heard : count n g.listeners ≡ bit l

step-held : (g : Gate) → (step g end_reflow_hold).0.held ≡ false
unfolding step
step-held g = elim (Bool-cases g.held) [
  | inl e ↦
      by_true (λ (r : Gate × List ℕ). r.0.held ≡ false) (record g { held = false }, g.listeners)
        (g, []) e refl
  | inr e ↦
      by_false (λ (r : Gate × List ℕ). r.0.held ≡ false) (record g { held = false }, g.listeners)
        (g, []) e e
]

step-listeners : (g : Gate) → (step g end_reflow_hold).0.listeners ≡ g.listeners
unfolding step
step-listeners g = elim (Bool-cases g.held) [
  | inl e ↦
      by_true (λ (r : Gate × List ℕ). r.0.listeners ≡ g.listeners)
        (record g { held = false }, g.listeners) (g, []) e refl
  | inr e ↦
      by_false (λ (r : Gate × List ℕ). r.0.listeners ≡ g.listeners)
        (record g { held = false }, g.listeners) (g, []) e refl
]

run-Agrees :
    (n : ℕ) (b l : Bool) (g : Gate) (cs : List Call)
    → Agrees n b l g
    → Agrees n (holds b cs) (listens n l cs) (run g cs)
unfolding run step
run-Agrees n b l g [] a = a
run-Agrees n b l g (begin_reflow_hold ∷ cs) a =
    run-Agrees n true l (record g { held = true }) cs (record { held_so = refl; heard = a.heard })
run-Agrees n b l g (end_reflow_hold ∷ cs) a =
    run-Agrees n false l (step g end_reflow_hold).0 cs
      (record { held_so = step-held g; heard = ap (count n) (step-listeners g) ∙ a.heard })
run-Agrees n b l g (listen m ∷ cs) a =
    run-Agrees n b (l || m == n) (record g { listeners = added m g.listeners }) cs
      (record { held_so = a.held_so; heard = count-added n m g.listeners l a.heard })
run-Agrees n b l g (unlisten m ∷ cs) a =
    run-Agrees n b (l && not (m == n)) (record g { listeners = deleted m g.listeners }) cs
      (record { held_so = a.held_so; heard = count-deleted n m g.listeners l a.heard })

-- After any calls of a fresh gate, the end of a hold tells a listener once if a hold was on and the
-- listener had been added and not taken away since, and otherwise not at all.
pub release-once :
    (n : ℕ) (cs : List Call)
    → count n (step (run opened cs) end_reflow_hold).1
      ≡ (if holds false cs && listens n false cs then 1 else 0)
unfolding step
release-once n cs =
    let a = run-Agrees n false false opened cs (record { held_so = refl; heard = refl }) in
    told (run opened cs) (holds false cs) (listens n false cs) a.held_so a.heard
  where
    told :
        (g : Gate) (b l : Bool)
        → g.held ≡ b
        → count n g.listeners ≡ bit l
        → count n (step g end_reflow_hold).1 ≡ (if b && l then 1 else 0)
    told g true true e h =
        by_true (λ (r : Gate × List ℕ). count n r.1 ≡ 1) (record g { held = false }, g.listeners)
          (g, []) e h
    told g true false e h =
        by_true (λ (r : Gate × List ℕ). count n r.1 ≡ 0) (record g { held = false }, g.listeners)
          (g, []) e h
    told g false l e h =
        by_false (λ (r : Gate × List ℕ). count n r.1 ≡ 0) (record g { held = false }, g.listeners)
          (g, []) e refl
