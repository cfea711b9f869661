-- ===== src/Tasks.antt =====
-- The tasks of system/task.h. A task is named by the address of its `task_t`; `task_main` is one of
-- them. What `get_regs` reads and the stack that `amalloc` gives are arguments. `task_switch` is
-- assembly: an operation also answers which of its calls it makes, as the tasks whose registers are
-- saved and loaded. Messages are left out.
pub mod Ring
pub mod Spawn
pub mod Kill
pub mod Walk
pub mod Yield
pub mod Path
pub mod Turn
mod Tests
use owmice.Base.{
  ℕ, zero, suc, ◌+◌, ◌-◌, ◌%◌, ◌^◌, Bool, true, false, Option, none, some, ◌>>=◌, List, [], ◌∷◌,
  ◌++◌, map, ltb, ◌==◌, if◌then◌else◌,
}

pub record TaskRegs : Type 0 where
  pub eax : ℕ
  pub ebx : ℕ
  pub ecx : ℕ
  pub edx : ℕ
  pub esi : ℕ
  pub edi : ℕ
  pub esp : ℕ
  pub ebp : ℕ
  pub eip : ℕ
  pub eflags : ℕ
  pub cr3 : ℕ

pub record Task : Type 0 where
  pub id : ℕ
  pub sleeptime : ℕ
  pub regs : TaskRegs
  pub entrypoint : ℕ
  pub next : ℕ
  pub prev : ℕ

pub record Tasking : Type 0 where
  pub skip : Bool
  pub task_current : ℕ
  pub task_last : ℕ
  pub lid : ℕ
  pub tasks : ℕ → Task

-- A call of `task_switch`.
pub record Switch : Type 0 where
  pub from : ℕ
  pub to : ℕ

-- A write to one task.
abbrev pub put : Tasking → ℕ → (Task → Task) → Tasking
put s p f = record s { tasks = λ q. if q == p then f (s.tasks q) else s.tasks q }

abbrev pub set_next : Tasking → ℕ → ℕ → Tasking
set_next s p q = put s p (λ t. record t { next = q })

abbrev pub set_prev : Tasking → ℕ → ℕ → Tasking
set_prev s p q = put s p (λ t. record t { prev = q })

pub tasking_resume : Tasking → Tasking
tasking_resume s = record s { skip = false }

pub task_sleep : Tasking → ℕ → ℕ → Tasking
task_sleep s task ticks = put s task (λ t. record t { sleeptime = ticks })

pub task_self_sleep : Tasking → ℕ → Tasking
task_self_sleep s ticks = task_sleep s s.task_current ticks

-- The registers at the time of the call are `dump`; `ebp`, `eip`, `eflags` and `cr3` stay.
abbrev pub saved : TaskRegs → Task → Task
saved dump t = record t {
  regs = record (t.regs) {
    eax = dump.eax;
    ebx = dump.ebx;
    ecx = dump.ecx;
    edx = dump.edx;
    esi = dump.esi;
    edi = dump.edi;
    esp = dump.esp;
  };
}

pub save_task_state : TaskRegs → Tasking → Tasking
save_task_state dump s = put s s.task_current (saved dump)

-- The wait of one task that is not to run yet.
abbrev wait_on : Task → Task
wait_on t = record t { sleeptime = t.sleeptime - 1 }

pub task_yield : TaskRegs → Tasking → Tasking × List Switch
task_yield dump s =
    let last = s.task_current in
    let next = (s.tasks last).next in
    if s.skip
    then (s, [])
    else if next == last
    then (s, [])
    else let s = save_task_state dump s in
      if ltb 0 (s.tasks next).sleeptime
      then (put s next wait_on, record { from = last; to = last } ∷ [])
      else (record s { task_current = next }, record { from = last; to = next } ∷ [])

module _ (task_main : ℕ) where
  pub tasking_pause : TaskRegs → Tasking → Tasking × List Switch
  tasking_pause dump s =
      let s = save_task_state dump (record s { skip = true }) in
      (s, record { from = s.task_current; to = task_main } ∷ [])

  -- The registers that a new task starts with.
  pub start_regs : Tasking → TaskRegs → ℕ → ℕ → ℕ → TaskRegs
  start_regs s old main flags stack = record old {
    eax = 0;
    ebx = 0;
    ecx = 0;
    edx = 0;
    esi = 0;
    edi = 0;
    esp = stack;
    eip = main;
    eflags = flags;
    cr3 = (s.tasks task_main).regs.cr3;
  }

  -- `task_spawn` up to the call of `tasking_resume`, without the pause.
  pub link_task : Tasking → ℕ → ℕ → ℕ → ℕ → Tasking
  link_task s task main flags stack =
      let lid = (s.lid + 1) % 2 ^ 32 in
      let s = put (record s { lid = lid }) task (λ t. record t { id = lid }) in
      let s = set_next s s.task_last task in
      let s = set_prev s task s.task_last in
      let s = record s { task_last = task } in
      let s =
        put s task
          (λ t. record t { regs = start_regs s t.regs main flags stack; entrypoint = main }) in
      let s = set_next s task task_main in set_prev s task_main task

  pub task_spawn : TaskRegs → TaskRegs → Tasking → ℕ → ℕ → ℕ → ℕ → Tasking × List Switch
  task_spawn dump dump' s task main flags stack =
      let (s, paused) = tasking_pause dump s in
      let (s, yielded) = task_yield dump' (tasking_resume (link_task s task main flags stack)) in
      (s, paused ++ yielded)

  -- `task_kill` between the pause and the call of `tasking_resume`.
  pub unlink_task : Tasking → ℕ → Tasking
  unlink_task s task =
      let s = record s {
        task_last = if task == s.task_last then (s.tasks task).prev else s.task_last;
      } in
      let s = set_next s (s.tasks task).prev (s.tasks task).next in
      let s = set_prev s (s.tasks task).next (s.tasks task).prev in
      record s { task_current = task_main }

  pub task_kill : TaskRegs → Tasking → ℕ → Tasking × List Switch
  task_kill dump s task =
      let (s, paused) = tasking_pause dump s in (tasking_resume (unlink_task s task), paused)

  pub task_self_kill : TaskRegs → Tasking → Tasking × List Switch
  task_self_kill dump s = task_kill dump s s.task_current

  -- The task with the number, on the walk from `tmp` on to `task_main`; the inner `none` means that
  -- there is none.
  pub find_pid : ℕ → Tasking → ℕ → ℕ → Option (Option ℕ)
  find_pid zero s tmp pid = none
  find_pid (suc fuel) s tmp pid =
      let rest = find_pid fuel s (s.tasks tmp).next pid in
      if (s.tasks tmp).id == pid
      then some (some tmp)
      else if (s.tasks tmp).next == task_main
      then some none
      else rest

  -- Whether there was one, and the new state.
  pub task_kill_pid : ℕ → TaskRegs → Tasking → ℕ → Option (Bool × Tasking × List Switch)
  task_kill_pid fuel dump s pid = (do
    found ← find_pid fuel s task_main pid
    elim found [
      | some tmp ↦ (let (t, paused) = task_kill dump s tmp in some (true, t, paused))
      | none ↦ some (false, s, [])
    ])

  -- The tasks in the order in which `task_list` prints them, from `tmp` on.
  pub walk : ℕ → Tasking → ℕ → Option (List ℕ)
  walk zero s tmp = none
  walk (suc fuel) s tmp =
      let rest = walk fuel s (s.tasks tmp).next in
      if (s.tasks tmp).next == task_main then some (tmp ∷ []) else (do ts ← rest; some (tmp ∷ ts))

  -- The lines of `task_list`: number, entry point, time to sleep.
  pub task_list : ℕ → Tasking → Option (List (ℕ × ℕ × ℕ))
  task_list fuel s = (do
    ts ← walk fuel s task_main
    some (map (λ t. ((s.tasks t).id, (s.tasks t).entrypoint, (s.tasks t).sleeptime)) ts))

  -- `regs` are what the assembly and `get_regs` read; `ebp` and `prev` are not set.
  abbrev pub initial : TaskRegs → ℕ → ℕ → Task → Task
  initial regs kmain id t = record t {
    id = id;
    sleeptime = 0;
    regs = record regs { ebp = t.regs.ebp };
    entrypoint = kmain;
    next = task_main;
  }

  pub tasking_init : TaskRegs → ℕ → Tasking → Tasking
  tasking_init regs kmain s =
      let s = put s task_main (initial regs kmain s.lid) in
      record s { task_last = task_main; task_current = task_main }
