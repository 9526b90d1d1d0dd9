-- ===== src/Grid/Launcher/Current.antt =====
-- Only the current run of a request changes what the launcher offers.
use multimux.Base.{
  ℕ, suc, ◌≤◌, ◌≡◌, refl, sym, ap, ◌∙◌, ◌⊎◌, inl, inr, true, false, Option, none, some, List, [],
  ◌∷◌, ◌++◌, arith, ◌==◌, ==_iff, All, All-map, All-append, by_true, by_false, Bool-cases, Str,
  str_eq, str_eq→eq, some_inj, subst, codes,
}
use multimux.Grid.Types.{Tool, Dir, Server}
use multimux.Grid.Launcher.{
  Launcher, Request, load, histories, removal, creation, is_none, server_of, loads, asks_histories,
  asking, same_ids, first_id, set_dirs, reset, select_server, on_loaded,
}

server_of-id :
    (servers : List Server) (id : Str) (s : Server) → server_of servers id ≡ some s → s.id ≡ id
unfolding server_of
server_of-id [] id s h = cc
server_of-id (t ∷ ts) id s h = elim (Bool-cases (str_eq t.id id)) [
  | inl e ↦ sym (ap (λ (u : Server). u.id) (some_inj (rw e at h))) ∙ str_eq→eq t.id id e
  | inr e ↦ server_of-id ts id s (rw e at h)
]

module _ (servers : List Server) (daemon : Str → List Tool × List Dir) where
  -- A request for the tools and directories is of an earlier run, or for the selected server.
  abbrev pub Current : Str → ℕ → Request → Type 0
  Current id run (load n server) = (suc n ≤ run) ⊎ ((n ≡ run) × (server.id ≡ id))
  Current id run _ = Unit

  -- Nothing is offered, or all that the selected server's daemon has.
  pub data Offer (l : Launcher) : Type 0 where
    nothing_yet : l.tools ≡ [] → l.dirs ≡ [] → Offer l
    all_of :
        l.loading ≡ false
        → l.tools ≡ (daemon l.server_id).0
        → l.dirs ≡ (daemon l.server_id).1
        → Offer l

  pub record Owns (l : Launcher) (out : List Request) : Type 0 where
    pub current : All (Current l.server_id l.load_run) out
    pub offer : Offer l

  abbrev pub After : List Request → Launcher × List Request → Type 0
  After out r = Owns r.0 (r.1 ++ out)

  asks_histories-Current :
      (id : Str) (run : ℕ) (l : Launcher) → All (Current id run) (asks_histories servers l)
  asks_histories-Current id run l = elim (Bool-cases (is_none l.dirs)) [
    | inl e ↦ by_true (All (Current id run)) [] _ e tt
    | inr e ↦ by_false (All (Current id run)) [] _ e (go (server_of servers l.server_id))
  ]
    where
      go :
          (o : Option Server)
          → All (Current id run) (asking o (λ s. histories l.history_run s l.dirs))
      go none = tt
      go (some server) = (tt, tt)

  set_dirs-Owns :
      (l : Launcher) (dirs : List Dir) (out : List Request)
      → All (Current l.server_id l.load_run) out
      → Offer (record l { dirs = dirs })
      → After out (set_dirs servers l dirs)
  unfolding set_dirs
  set_dirs-Owns l dirs out c o =
      let next : Launcher = record l { dirs = dirs; history_run = suc l.history_run } in
      elim (Bool-cases (same_ids l.dirs dirs)) [
        | inl e ↦
            by_true (After out) (record l { dirs = dirs }, []) (next, asks_histories servers next) e
              (record { current = c; offer = o })
        | inr e ↦
            by_false (After out) (record l { dirs = dirs }, []) (next, asks_histories servers next)
              e
              (record {
                current =
                    All-append _ (asks_histories servers next) out (asks_histories-Current _ _ next)
                      c;
                offer = moved o;
              })
      ]
    where
      moved :
          Offer (record l { dirs = dirs })
          → Offer (record l { dirs = dirs; history_run = suc l.history_run })
      moved (nothing_yet a b) = nothing_yet a b
      moved (all_of a b c) = all_of a b c

  pub loads-Current : (l : Launcher) → All (Current l.server_id l.load_run) (loads servers l)
  loads-Current l = go (server_of servers l.server_id) (server_of-id servers l.server_id)
    where
      go :
          (o : Option Server)
          → ((s : Server) → o ≡ some s → s.id ≡ l.server_id)
          → All (Current l.server_id l.load_run) (asking o (load l.load_run))
      go none h = tt
      go (some server) h = (inr (refl, h server refl), tt)

  -- A new run makes every earlier request one of the past.
  outdated : (id id' : Str) (run : ℕ) (r : Request) → Current id run r → Current id' (suc run) r
  outdated id id' run (load n server) (inl h) = inl (omega (arith, h))
  outdated id id' run (load n server) (inr (e, h)) = inl (omega (arith, e))
  outdated id id' run (histories n server dirs) h = tt
  outdated id id' run (removal server issued recent previous) h = tt
  outdated id id' run (creation server issued tool dir subdir) h = tt

  pub select_server-Owns :
      (l : Launcher) (id : Str) (out : List Request)
      → Owns l out
      → After out (select_server servers l id)
  unfolding select_server
  select_server-Owns l id out h =
      let next : Launcher = record (reset l id) {
        load_run = suc l.load_run;
        history_run = suc l.history_run;
      } in
      elim (Bool-cases (str_eq id l.server_id)) [
        | inl e ↦
            let same = All-map (kept (str_eq→eq id l.server_id e)) out h.current in
            by_true (After out) _ (next, loads servers next) e
              (elim (Bool-cases (is_none l.dirs)) [
                | inl f ↦
                    by_true (After out) (reset l id, [])
                      (record (reset l id) { history_run = suc l.history_run }, []) f
                      (record { current = same; offer = nothing_yet refl refl })
                | inr f ↦
                    by_false (After out) (reset l id, [])
                      (record (reset l id) { history_run = suc l.history_run }, []) f
                      (record { current = same; offer = nothing_yet refl refl })
              ])
        | inr e ↦
            by_false (After out) _ (next, loads servers next) e
              (record {
                current =
                    All-append _ (loads servers next) out (loads-Current next)
                      (All-map (outdated _ _ _) out h.current);
                offer = nothing_yet refl refl;
              })
      ]
    where
      kept :
          id ≡ l.server_id
          → (r : Request) → Current l.server_id l.load_run r
          → Current id l.load_run r
      kept e r c = subst (λ i. Current i l.load_run r) (sym e) c

  -- A request of the run that is on is for the selected server.
  now_own :
      (id : Str) (run n : ℕ) (server : Server)
      → Current id run (load n server)
      → (n == run) ≡ true
      → server.id ≡ id
  now_own id run n server (inl h) e = absurd (omega (arith, h, (==_iff n run).0 e))
  now_own id run n server (inr (h, k)) e = k

  pub on_loaded-Owns :
      (l : Launcher) (n : ℕ) (server : Server) (out : List Request)
      → Current l.server_id l.load_run (load n server)
      → Owns l out
      → After out (on_loaded servers l n server (some (daemon server.id)))
  unfolding on_loaded
  on_loaded-Owns l n server out c h =
      let (tools, dirs) = daemon server.id in
      let told : Launcher = record l {
        tools = tools;
        tool_id = first_id tools;
        error = [];
        loading = false;
      } in
      elim (Bool-cases (n == l.load_run)) [
        | inl e ↦
            let own = ap daemon (now_own l.server_id l.load_run n server c e) in
            by_true (After out) (set_dirs servers told dirs) (l, []) e
              (set_dirs-Owns told dirs out h.current
                (all_of refl (ap (λ p. p.0) own) (ap (λ p. p.1) own)))
        | inr e ↦ by_false (After out) (set_dirs servers told dirs) (l, []) e h
      ]

  pub on_loaded-none :
      (l : Launcher) (n : ℕ) (server : Server) (out : List Request)
      → Owns l out
      → After out (on_loaded servers l n server none)
  unfolding on_loaded
  on_loaded-none l n server out h =
      let told : Launcher = record l {
        tools = [];
        error = codes "can't reach " ++ server.name;
        loading = false;
      } in
      elim (Bool-cases (n == l.load_run)) [
        | inl e ↦
            by_true (After out) (set_dirs servers told []) (l, []) e
              (set_dirs-Owns told [] out h.current (nothing_yet refl refl))
        | inr e ↦ by_false (After out) (set_dirs servers told []) (l, []) e h
      ]

  -- The offer is not what changes.
  pub Owns-same :
      (l l' : Launcher) (out : List Request)
      → l'.server_id ≡ l.server_id
      → l'.load_run ≡ l.load_run
      → l'.loading ≡ l.loading
      → l'.tools ≡ l.tools
      → l'.dirs ≡ l.dirs
      → Owns l out
      → Owns l' out
  Owns-same l l' out a b c d e h = record {
    current =
        subst (λ i. All (Current i l'.load_run) out) (sym a)
          (subst (λ n. All (Current l.server_id n) out) (sym b) h.current);
    offer = go h.offer;
  }
    where
      go : Offer l → Offer l'
      go (nothing_yet p q) = nothing_yet (d ∙ p) (e ∙ q)
      go (all_of o p q) =
          all_of (c ∙ o) (d ∙ p ∙ ap (λ i. (daemon i).0) (sym a))
            (e ∙ q ∙ ap (λ i. (daemon i).1) (sym a))
