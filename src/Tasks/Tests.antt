-- ===== src/Tasks/Tests.antt =====
-- Two tasks beside the main one.
use owmice.Base.{◌≡◌, arith, refl, false, some, [], ◌∷◌, map, length, ◌==◌, if◌then◌else◌}
use owmice.Tasks.{TaskRegs, Task, Tasking, task_spawn, task_list, tasking_init}
use owmice.Tasks.Ring.{IsRing}
use owmice.Tasks.Spawn.{task_spawn-IsRing}
use owmice.Tasks.Turn.{turns, yields, yields-turn}
use owmice.Tasks.Walk.{task_list-ring, init-IsRing}

abbrev regs : TaskRegs
regs = record {
  eax = 1;
  ebx = 2;
  ecx = 3;
  edx = 4;
  esi = 5;
  edi = 6;
  esp = 0x9000;
  ebp = 0;
  eip = 0x100000;
  eflags = 0x202;
  cr3 = 0x1000;
}

abbrev no_task : Task
no_task = record { id = 0; sleeptime = 0; regs = regs; entrypoint = 0; next = 0; prev = 0 }

abbrev main_only : Tasking
main_only =
    tasking_init 0x5000 regs 0x100000
      (record { skip = false; task_current = 0; task_last = 0; lid = 0; tasks = λ p. no_task })

abbrev two_tasks : Tasking
two_tasks = (task_spawn 0x5000 regs regs main_only 0x6000 0x200000 0x202 0xa000).0

abbrev three_tasks : Tasking
three_tasks = (task_spawn 0x5000 regs regs two_tasks 0x7000 0x300000 0x202 0xb000).0

two_tasks-IsRing : IsRing 0x5000 two_tasks (0x6000 ∷ [])
two_tasks-IsRing =
    task_spawn-IsRing 0x5000 regs regs main_only [] 0x6000 0x200000 0x202 0xa000 (omega arith, tt)
      (init-IsRing 0x5000 regs 0x100000 _)

task_list-ring_example :
    task_list 0x5000 2 two_tasks
    ≡ some (
        map
          (λ t.
            ((two_tasks.tasks t).id, (two_tasks.tasks t).entrypoint, (two_tasks.tasks t).sleeptime))
          (0x5000 ∷ 0x6000 ∷ []))
task_list-ring_example =
    task_list-ring 0x5000 two_tasks 2 (0x6000 ∷ []) two_tasks-IsRing (omega arith)

-- A main task that runs, one behind it that sleeps for two ticks, and one that waits to run.
abbrev asleep_next : Tasking
asleep_next = record {
  skip = false;
  task_current = 0x5000;
  task_last = 0x7000;
  lid = 2;
  tasks = λ p.
      if p == 0x5000
      then record no_task { next = 0x6000; prev = 0x7000 }
      else if p == 0x6000
      then record no_task { sleeptime = 2; next = 0x7000; prev = 0x5000 }
      else record no_task { next = 0x5000; prev = 0x6000 };
}

asleep_next-IsRing : IsRing 0x5000 asleep_next (0x6000 ∷ 0x7000 ∷ [])
asleep_next-IsRing = record {
  linked = (refl, refl, (refl, refl, refl));
  last = refl;
  closed = refl;
  distinct = omega arith;
}

four : length (regs ∷ regs ∷ regs ∷ regs ∷ []) ≡ turns asleep_next (0x6000 ∷ 0x7000 ∷ [])
unfolding turns
four = refl

-- Four yields: two ticks of sleep, and two tasks to pass.
yields-turn_example : (yields (regs ∷ regs ∷ regs ∷ regs ∷ []) asleep_next).task_current ≡ 0x7000
yields-turn_example =
    yields-turn 0x5000 asleep_next (0x6000 ∷ 0x7000 ∷ []) [] (0x6000 ∷ 0x7000 ∷ []) (0x6000 ∷ []) []
      0x7000 (regs ∷ regs ∷ regs ∷ regs ∷ []) asleep_next-IsRing refl refl refl four
