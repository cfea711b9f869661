-- ===== src/Tasks/Walk.antt =====
-- The walks around the ring.
use owmice.Base.{
  ℕ, zero, suc, ◌<◌, ◌≡◌, refl, sym, ◌∙◌, arith, true, false, some, List, [], ◌∷◌, map, length,
  ◌==◌, ==-refl, ne→==,
}
use owmice.Tasks.{Tasking, walk, task_list, initial, tasking_init, TaskRegs}
use owmice.Tasks.Ring.{IsRing, Linked, NotIn, next_of, prev_of, next_put}

walk_lem :
    (task_main : ℕ) (s : Tasking) (fuel q : ℕ) (ts : List ℕ)
    → length ts < fuel
    → Linked (next_of s) (prev_of s) q ts task_main
    → NotIn task_main ts
    → walk task_main fuel s q ≡ some (q ∷ ts)
unfolding walk
walk_lem task_main s zero q ts enough h off = ground arith
walk_lem task_main s (suc fuel) q [] enough h off =
    let over : (next_of s q == task_main) ≡ true = rw h (==-refl task_main) in rw over refl
walk_lem task_main s (suc fuel) q (r ∷ ts) enough h off =
    let on : (next_of s q == task_main) ≡ false = rw h.0 (ne→== r task_main (λ e. off.0 (sym e))) in
    let next = walk_lem task_main s fuel r ts (omega arith) h.2 off.1 in rw (on, h.0, next) refl

-- With fuel above the number of tasks, `task_list` ends and prints the number, the entry point and
-- the time to sleep of the main task and then of every task of the ring, in their order.
pub task_list-ring :
    (task_main : ℕ) (s : Tasking) (fuel : ℕ) (ts : List ℕ)
    → IsRing task_main s ts
    → length ts < fuel
    → task_list task_main fuel s
      ≡ some (
          map
            (λ t. ((s.tasks t).id, (s.tasks t).entrypoint, (s.tasks t).sleeptime))
            (task_main ∷ ts))
unfolding task_list
task_list-ring task_main s fuel ts ring enough =
    rw (walk_lem task_main s fuel task_main ts enough ring.linked (ring.distinct).0) refl

-- The ring that `tasking_init` makes has the main task alone.
pub init-IsRing :
    (task_main : ℕ) (regs : TaskRegs) (kmain : ℕ) (s : Tasking)
    → IsRing task_main (tasking_init task_main regs kmain s) []
unfolding tasking_init
init-IsRing task_main regs kmain s = record {
  linked =
      next_put s task_main task_main (initial task_main regs kmain s.lid) task_main (λ t. refl)
      ∙ rw (==-refl task_main) refl;
  last = refl;
  closed = tt;
  distinct = (tt, tt);
}
