-- ===== src/Tasks/Kill.antt =====
-- A task leaves the ring.
use owmice.Base.{ℕ, ◌≢◌, List, [], ◌∷◌}
use owmice.Tasks.{TaskRegs, Tasking, saved, set_next, saved, tasking_pause, task_kill}
use owmice.Tasks.Ring.{next_of, prev_of}

-- The first of the tasks, or else the other.
abbrev first_of : List ℕ → ℕ → ℕ
first_of [] p = p
first_of (q ∷ qs) p = q

module _ (task_main : ℕ) (dump : TaskRegs) (s : Tasking) (t : ℕ) (apart : t ≢ prev_of s t) where
  abbrev killed : Tasking
  killed = (task_kill task_main dump s t).0

  abbrev paused : Tasking
  paused = (tasking_pause task_main dump s).0

  -- In the middle of `task_kill`.
  abbrev bridged : Tasking
  bridged = set_next paused (prev_of paused t) (next_of paused t)
