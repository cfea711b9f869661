-- ===== src/Tasks/Yield.antt =====
-- What one yield changes, while the next task is another one.
use owmice.Base.{
  ℕ, suc, ◌-◌, ◌≡◌, ◌≢◌, refl, sym, ap, ◌∙◌, arith, Bool, true, false, List, ltb, ◌==◌,
  if◌then◌else◌, ne→==, ==-refl,
}
use owmice.Tasks.{TaskRegs, Tasking, Switch, put, saved, save_task_state, wait_on, task_yield}
use owmice.Tasks.Ring.{next_of, next_kept, field_kept, field_either}

abbrev pub sleep_of : Tasking → ℕ → ℕ
sleep_of s p = (s.tasks p).sleeptime

-- A yield that leaves `q` to sleep for `k` more ticks, and `current` to run.
pub record Yielded (s s' : Tasking) (q current k : ℕ) : Type 0 where
  pub on : s'.skip ≡ false
  pub at : s'.task_current ≡ current
  pub next : (r : ℕ) → next_of s' r ≡ next_of s r
  pub others : (r : ℕ) → q ≢ r → sleep_of s' r ≡ sleep_of s r
  pub own : sleep_of s' q ≡ k

if_true : (c : Bool) (x y : Tasking × List Switch) → c ≡ true → (if c then x else y) ≡ x
if_true true x y e = refl
if_true false x y e = cc e

if_false : (c : Bool) (x y : Tasking × List Switch) → c ≡ false → (if c then x else y) ≡ y
if_false true x y e = cc e
if_false false x y e = refl

-- A yield while the next task is another one.
module _ (d : TaskRegs) (s : Tasking) (on : s.skip ≡ false)
    (apart : s.task_current ≢ next_of s s.task_current) where
  abbrev next_task : ℕ
  next_task = next_of s s.task_current

  abbrev kept : Tasking
  kept = put s s.task_current (saved d)

  sleep_kept : (r : ℕ) → sleep_of kept r ≡ sleep_of s r
  sleep_kept r =
      field_kept (λ t. t.sleeptime) (r == s.task_current) (saved d (s.tasks r)) (s.tasks r) refl

  next_same : (r : ℕ) → next_of kept r ≡ next_of s r
  next_same r = next_kept s s.task_current r (saved d) (λ t. refl)

  alone : (next_task == s.task_current) ≡ false
  alone = ne→== next_task s.task_current (λ e. apart (sym e))

  yield_awake :
      sleep_of s next_task ≡ 0 → (task_yield d s).0 ≡ record kept { task_current = next_task }
  unfolding task_yield save_task_state
  yield_awake awake =
      let test : ltb 0 (sleep_of kept next_task) ≡ false = rw (sleep_kept next_task ∙ awake) refl in
      ap (λ (x : Tasking × List Switch). x.0)
        (if_false s.skip _ _ on
          ∙ if_false (next_task == s.task_current) _ _ alone
          ∙ if_false (ltb 0 (sleep_of kept next_task)) _ _ test)

  yield_asleep :
      (k : ℕ) → sleep_of s next_task ≡ suc k → (task_yield d s).0 ≡ put kept next_task wait_on
  unfolding task_yield save_task_state
  yield_asleep k asleep =
      let test : ltb 0 (sleep_of kept next_task) ≡ true =
        rw (sleep_kept next_task ∙ asleep) (ground arith) in
      ap (λ (x : Tasking × List Switch). x.0)
        (if_false s.skip _ _ on
          ∙ if_false (next_task == s.task_current) _ _ alone
          ∙ if_true (ltb 0 (sleep_of kept next_task)) _ _ test)

  pub awake-Yielded :
      sleep_of s next_task ≡ 0 → Yielded s ((task_yield d s).0) next_task next_task 0
  awake-Yielded awake = rw (yield_awake awake) (record {
    on = on;
    at = refl;
    next = next_same;
    others = λ r far. sleep_kept r;
    own = sleep_kept next_task ∙ awake;
  })

  sleep_waited :
      (r : ℕ)
      → sleep_of (put kept next_task wait_on) r
        ≡ (if r == next_task then sleep_of s r - 1 else sleep_of s r)
  sleep_waited r =
      field_either (λ t. t.sleeptime) (r == next_task) (wait_on (kept.tasks r)) (kept.tasks r)
        (sleep_of s r - 1) (ap (λ (n : ℕ). n - 1) (sleep_kept r))
      ∙ ap (λ (n : ℕ). if r == next_task then sleep_of s r - 1 else n) (sleep_kept r)

  pub asleep-Yielded :
      (k : ℕ)
      → sleep_of s next_task ≡ suc k
      → Yielded s ((task_yield d s).0) next_task s.task_current k
  asleep-Yielded k asleep = rw (yield_asleep k asleep) (record {
    on = on;
    at = refl;
    next = λ r. next_kept kept next_task r wait_on (λ t. refl) ∙ next_same r;
    others = λ r far. sleep_waited r ∙ rw (ne→== r next_task (λ e. far (sym e))) refl;
    own = sleep_waited next_task ∙ rw (==-refl next_task, asleep) (omega arith);
  })
