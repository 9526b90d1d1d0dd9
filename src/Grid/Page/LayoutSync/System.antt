-- ===== src/Grid/Page/LayoutSync/System.antt =====
-- The page and the daemon, when this page is the only one that writes the layout and no write fails.
-- Requests and answers may overtake one another.
use multimux.Base.{
  ℕ, ◌≡◌, Bool, true, false, Option, none, some, List, [], ◌∷◌, get_elem?, set, erase_idx,
}
use multimux.Grid.Numbers.{Numbers}
use multimux.Grid.Model.{Layout, adopt_sizes}
use multimux.Grid.Page.LayoutSync.{
  LayoutSync, Fetch, adopt_layout, written, persist, refresh_layout, on_layout,
}

-- A write on its way, and whether the daemon has stored it
pub record Write (N : Type 0) : Type 0 where
  pub value : Layout N
  pub stored : Bool

-- A read on its way, with what the daemon has answered
pub record Read (N : Type 0) : Type 0 where
  pub fetch : Fetch
  pub answer : Option (Layout N)

pub record System (N : Type 0) : Type 0 where
  pub page : LayoutSync N
  pub daemon : Layout N
  pub write : Option (Write N)
  pub reads : List (Read N)
  -- what the last edit made; the page does not know it
  pub last : Option (Layout N)

-- A layout that is sent replaces the write on its way.
abbrev pub sent : {N : Type 0} → Option (Write N) → List (Layout N) → Option (Write N)
sent w [] = w
sent w (l ∷ ls) = some (record { value = l; stored = false })

module _ (R : Numbers) where
  open R use {Num}

  abbrev pub edited : System Num → (Layout Num → Layout Num) → System Num
  edited s update = record s {
    page = (persist s.page update).0;
    write = sent s.write (persist s.page update).1;
    last = some (update s.page.layout);
  }

  abbrev pub stored : System Num → Layout Num → System Num
  stored s l = record s { daemon = l; write = some (record { value = l; stored = true }) }

  abbrev pub ended : System Num → System Num
  ended s = record s { page = (written s.page).0; write = sent none (written s.page).1 }

  abbrev pub asked : System Num → Bool → System Num
  asked s settle = record s {
    reads = record { fetch = refresh_layout s.page settle; answer = none } ∷ s.reads;
  }

  abbrev pub served : System Num → ℕ → Fetch → System Num
  served s i f = record s { reads = set s.reads i (record { fetch = f; answer = some s.daemon }) }

  abbrev pub answered : System Num → ℕ → Fetch → Layout Num → System Num
  answered s i f v = record s {
    page = on_layout R s.page f (some (some v));
    reads = erase_idx s.reads i;
  }

  abbrev pub failed : System Num → ℕ → Fetch → System Num
  failed s i f = record s { page = on_layout R s.page f none; reads = erase_idx s.reads i }

  -- A splitter that is being dragged shows sizes that are not edits yet.
  abbrev pub previewed : System Num → Option (List Num) → Option (List (List Num)) → System Num
  previewed s rs cs = record s { page = adopt_layout s.page (adopt_sizes R s.page.layout rs cs) }

  pub data Step (s : System Num) : System Num → Type 0 where
    edit : (update : Layout Num → Layout Num) → Step s (edited s update)
    store :
        (l : Layout Num)
        → s.write ≡ some (record { value = l; stored = false })
        → Step s (stored s l)
    end_write :
        (l : Layout Num) → s.write ≡ some (record { value = l; stored = true }) → Step s (ended s)
    ask : (settle : Bool) → Step s (asked s settle)
    serve :
        (i : ℕ) (f : Fetch)
        → get_elem? s.reads i ≡ some (record { fetch = f; answer = none })
        → Step s (served s i f)
    answer_read :
        (i : ℕ) (f : Fetch) (v : Layout Num)
        → get_elem? s.reads i ≡ some (record { fetch = f; answer = some v })
        → Step s (answered s i f v)
    fail :
        (i : ℕ) (f : Fetch) (v : Option (Layout Num))
        → get_elem? s.reads i ≡ some (record { fetch = f; answer = v })
        → Step s (failed s i f)
    preview : (rs : Option (List Num)) (cs : Option (List (List Num))) → Step s (previewed s rs cs)

  -- A page that has just been opened, with a daemon that holds some layout
  pub record IsStart (s : System Num) : Type 0 where
    pub no_pending : s.page.pending_write ≡ none
    pub no_flight : s.page.write_in_flight ≡ false
    pub no_write : s.write ≡ none
    pub no_reads : s.reads ≡ []
    pub no_edit : s.last ≡ none

  pub data Reach : System Num → Type 0 where
    start : {s : System Num} → IsStart s → Reach s
    later : {s t : System Num} → Reach s → Step s t → Reach t
