-- ===== src/Association/Cleanup.antt =====
-- The cleanup work always brings the device back to a state in which it can be used.
use u.Common.{◌≡◌, false, none, List, [], ◌∷◌, arith}
use u.Association.System.{
  idle, System, Event, start_cleanup, continue_cleanup, end_cleanup, step, run,
}
use u.Association.Invariant.{Inv}

-- The work's steps in order: the rest of a run that is under way, and one run more.
abbrev pub cleanup_to_end : List Event
cleanup_to_end =
    Event.cleanup_free ∷ Event.cleanup_end ∷ Event.cleanup_take ∷ Event.cleanup_free
    ∷ Event.cleanup_end ∷ []

pub record IsClean (s : System) : Type 0 where
  pub not_pending : s.device.association_cleanup_pending ≡ false
  pub no_context : s.device.association_cleanup_context ≡ none
  pub no_disconnected : s.device.disconnected_ap ≡ none
  pub finished : s.cleanup ≡ idle

-- From every system that satisfies the invariant, the rest of a cleanup that is under way and one run
-- more leave no pending cleanup, no context to clean up, no disconnected access point to release and
-- no work running.
pub run-IsClean : (s : System) → Inv s → IsClean (run s cleanup_to_end)
unfolding run step start_cleanup continue_cleanup end_cleanup
run-IsClean s v = ground arith
