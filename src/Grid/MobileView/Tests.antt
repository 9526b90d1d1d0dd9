-- ===== src/Grid/MobileView/Tests.antt =====
-- The small screen at work: swipes, keys, and a session that was just started.
use multimux.Base.{ℕ, ◌≡◌, refl, true, false, none, some, List, [], ◌∷◌, str_eq, codes}
use multimux.Base.Decimal.{decimal}
use multimux.Grid.Types.{Session}
use multimux.Grid.Samples.{local, session_at}
use multimux.Grid.Mobile.{MobileSession, session_key, entry_of, reconcile_mobile_selection}
use multimux.Grid.MobileView.{
  MobileView, settle, on_pointer_down, clear_pointer, move_selection, on_pointer_up, end, listed,
  started, pointer_down, pointer_up, key_down, handle, run,
}
use multimux.Grid.MobileView.Awaited.{started-selected}

abbrev at_work : ℕ → Session
at_work n = session_at n (codes "/r") (codes "running")

abbrev two_listed : List MobileSession
two_listed = entry_of local (at_work 7) ∷ entry_of local (at_work 12) ∷ []

abbrev three_listed : List MobileSession
three_listed =
    entry_of local (at_work 7) ∷ entry_of local (at_work 20) ∷ entry_of local (at_work 12) ∷ []

abbrev first_view : MobileView
first_view = record {
  selection = record { key = none; index = 0 };
  pending_key = none;
  pointer = none;
  creator_open = true;
  terminating = false;
}

-- A swipe to the left shows the next session, and a second one stays at the end.
swipes :
    (run first_view (
      (two_listed, pointer_down (record { id = 1; x = 200; y = 10 }) true false)
      ∷ (two_listed, pointer_up 1 100 30)
      ∷ (two_listed, pointer_down (record { id = 2; x = 200; y = 10 }) true false)
      ∷ (two_listed, pointer_up 2 100 30)
      ∷ [])).selection.index
    ≡ 1
unfolding run handle on_pointer_down on_pointer_up clear_pointer move_selection
    reconcile_mobile_selection session_key decimal str_eq
swipes = refl

started-selected_example :
    (settle three_listed (
      run
        (handle two_listed first_view (started local (at_work 20 ∷ []))).0
        ((two_listed, key_down end) ∷ (two_listed, listed) ∷ []))).selection
    ≡ record { key = some (session_key local (at_work 20)); index = 1 }
unfolding session_key decimal str_eq
started-selected_example =
    started-selected two_listed three_listed first_view local (at_work 20) []
      ((two_listed, key_down end) ∷ (two_listed, listed) ∷ []) 1 refl (refl, (refl, tt)) refl
