-- ===== src/Tasks/Spawn.antt =====
-- A task joins the ring.
use owmice.Base.{
  ℕ, ◌≡◌, ◌≢◌, refl, sym, ap, ◌∙◌, Bool, true, false, List, [], ◌∷◌, ◌++◌, ◌==◌, if◌then◌else◌, ltb,
  ne→==, ==-refl, ◌%◌, ◌+◌, ◌^◌,
}
use owmice.Tasks.{
  TaskRegs, Task, Tasking, Switch, put, set_next, set_prev, saved, save_task_state, wait_on,
  task_yield, tasking_pause, link_task, start_regs, tasking_resume, task_spawn,
}
use owmice.Tasks.Ring.{
  IsRing, Linked, Closed, Distinct, NotIn, frame, same_all, last_of, not_last, apart_append,
  last_of-append, next_of, prev_of, next_put, prev_put, next_kept, prev_kept,
}

module _ (n b n' b' : ℕ → ℕ) (t main : ℕ) (new : t ≢ main) where
  -- The links after a task was put behind the last one.
  chain_with :
      (l q : ℕ) (ts : List ℕ)
      → ((r : ℕ) → n' r ≡ (if r == t then main else if r == l then t else n r))
      → ((r : ℕ) → b' r ≡ (if r == main then t else if r == t then l else b r))
      → Linked n b q ts main
      → l ≡ last_of q ts
      → Distinct (q ∷ ts)
      → NotIn t (q ∷ ts)
      → NotIn main ts
      → Linked n' b' q (ts ++ t ∷ []) main
  chain_with l q [] hn hb h e d off main_off = (
    hn q ∙ rw (ne→== q t (λ x. off.0 (sym x)), sym e, ==-refl l) refl,
    hb t ∙ rw (ne→== t main new, ==-refl t) e,
    hn t ∙ rw (==-refl t) refl,
  )
  chain_with l q (r ∷ ts) hn hb h e d off main_off = (
    hn q ∙ rw (ne→== q t (λ x. off.0 (sym x)), ne→== q l (λ x. not_last q r ts d.0 (x ∙ e))) h.0,
    hb r ∙ rw (ne→== r main (λ x. main_off.0 (sym x)), ne→== r t (λ x. (off.1).0 (sym x))) h.1,
    chain_with l r ts hn hb h.2 e d.1 off.1 main_off.1,
  )

same_end : (p : ℕ) (b b' : ℕ → ℕ) (ts : List ℕ) → b' p ≡ b p → Closed b p ts → Closed b' p ts
same_end p b b' [] same h = tt
same_end p b b' (q ∷ qs) same h = same ∙ h

-- A ring stays one when no link and no end changes.
same-IsRing :
    (task_main : ℕ) (s s' : Tasking) (ts : List ℕ)
    → ((r : ℕ) → next_of s' r ≡ next_of s r)
    → ((r : ℕ) → prev_of s' r ≡ prev_of s r)
    → s'.task_last ≡ s.task_last
    → IsRing task_main s ts
    → IsRing task_main s' ts
same-IsRing task_main s s' ts next prev last ring = record {
  linked =
      frame (next_of s) (prev_of s) (next_of s') (prev_of s') task_main ts task_main
        (same_all (next_of s) (next_of s') (task_main ∷ ts) next)
        (same_all (prev_of s) (prev_of s') ts prev) ring.linked;
  last = last ∙ ring.last;
  closed = same_end task_main (prev_of s) (prev_of s') ts (prev task_main) ring.closed;
  distinct = ring.distinct;
}

either-IsRing :
    (task_main : ℕ) (ts : List ℕ) (c : Bool) (x y : Tasking × List Switch)
    → IsRing task_main x.0 ts
    → IsRing task_main y.0 ts
    → IsRing task_main (if c then x else y).0 ts
either-IsRing task_main ts true x y h h' = h
either-IsRing task_main ts false x y h h' = h'

-- A task that yields, to sleep on or to let the next one run, leaves the ring as it is.
yield-IsRing :
    (task_main : ℕ) (dump : TaskRegs) (s : Tasking) (ts : List ℕ)
    → IsRing task_main s ts
    → IsRing task_main ((task_yield dump s).0) ts
unfolding task_yield save_task_state
yield-IsRing task_main dump s ts ring =
    let last = s.task_current in
    let next = next_of s last in
    let kept = put s last (saved dump) in
    let next_same : (r : ℕ) → next_of kept r ≡ next_of s r =
      λ r. next_kept s last r (saved dump) (λ x. refl) in
    let prev_same : (r : ℕ) → prev_of kept r ≡ prev_of s r =
      λ r. prev_kept s last r (saved dump) (λ x. refl) in
    let asleep =
      same-IsRing task_main s (put kept next wait_on) ts
        (λ r. next_kept kept next r wait_on (λ x. refl) ∙ next_same r)
        (λ r. prev_kept kept next r wait_on (λ x. refl) ∙ prev_same r) refl ring in
    let awake =
      same-IsRing task_main s (record kept { task_current = next }) ts next_same prev_same refl
        ring in
    either-IsRing task_main ts s.skip _ _ ring (
      either-IsRing task_main ts (next == last) _ _ ring
        (either-IsRing task_main ts (ltb 0 (kept.tasks next).sleeptime) _ _ asleep awake))

module _ (task_main : ℕ) (s : Tasking) (t main flags stack : ℕ) where
  abbrev with_id : Task → Task
  with_id x = record x { id = (s.lid + 1) % 2 ^ 32 }

  abbrev with_next : ℕ → Task → Task
  with_next q x = record x { next = q }

  abbrev with_prev : ℕ → Task → Task
  with_prev q x = record x { prev = q }

  abbrev counted : Tasking
  counted = record s { lid = (s.lid + 1) % 2 ^ 32 }

  abbrev numbered : Tasking
  numbered = put counted t with_id

  abbrev behind_last : Tasking
  behind_last = set_prev (set_next numbered s.task_last t) t s.task_last

  abbrev start : Task → Task
  start x = record x {
    regs = start_regs task_main (record behind_last { task_last = t }) x.regs main flags stack;
    entrypoint = main;
  }

  abbrev started : Tasking
  started = put (record behind_last { task_last = t }) t start

  next_started : (r : ℕ) → next_of started r ≡ (if r == s.task_last then t else next_of s r)
  next_started r =
      next_kept (record behind_last { task_last = t }) t r start (λ x. refl)
      ∙ next_kept (set_next numbered s.task_last t) t r (with_prev s.task_last) (λ x. refl)
      ∙ next_put numbered s.task_last r (with_next t) t (λ x. refl)
      ∙ ap (λ (v : ℕ). if r == s.task_last then t else v)
          (next_kept counted t r with_id (λ x. refl))

  prev_started : (r : ℕ) → prev_of started r ≡ (if r == t then s.task_last else prev_of s r)
  prev_started r =
      prev_kept (record behind_last { task_last = t }) t r start (λ x. refl)
      ∙ prev_put (set_next numbered s.task_last t) t r (with_prev s.task_last) s.task_last
          (λ x. refl)
      ∙ ap (λ (v : ℕ). if r == t then s.task_last else v)
          (prev_kept numbered s.task_last r (with_next t) (λ x. refl)
            ∙ prev_kept counted t r with_id (λ x. refl))

  next_link :
      (r : ℕ)
      → next_of (link_task task_main s t main flags stack) r
        ≡ (if r == t then task_main else if r == s.task_last then t else next_of s r)
  unfolding link_task
  next_link r =
      next_kept (set_next started t task_main) task_main r (with_prev t) (λ x. refl)
      ∙ next_put started t r (with_next task_main) task_main (λ x. refl)
      ∙ ap (λ (v : ℕ). if r == t then task_main else v) (next_started r)

  prev_link :
      (r : ℕ)
      → prev_of (link_task task_main s t main flags stack) r
        ≡ (if r == task_main then t else if r == t then s.task_last else prev_of s r)
  unfolding link_task
  prev_link r =
      prev_put (set_next started t task_main) task_main r (with_prev t) t (λ x. refl)
      ∙ ap (λ (v : ℕ). if r == task_main then t else v)
          (prev_kept started t r (with_next task_main) (λ x. refl) ∙ prev_started r)

end_append : (p t : ℕ) (b' : ℕ → ℕ) (ts : List ℕ) → b' p ≡ t → Closed b' p (ts ++ t ∷ [])
end_append p t b' [] e = e
end_append p t b' (q ∷ qs) e = e ∙ sym (last_of-append q qs t [])

last_link :
    (task_main : ℕ) (s : Tasking) (t main flags stack : ℕ)
    → (link_task task_main s t main flags stack).task_last ≡ t
unfolding link_task
last_link task_main s t main flags stack = refl

link-IsRing :
    (task_main : ℕ) (s : Tasking) (ts : List ℕ) (t main flags stack : ℕ)
    → NotIn t (task_main ∷ ts)
    → IsRing task_main s ts
    → IsRing task_main (link_task task_main s t main flags stack) (ts ++ t ∷ [])
link-IsRing task_main s ts t main flags stack new ring =
    let hn = next_link task_main s t main flags stack in
    let hb = prev_link task_main s t main flags stack in
    record {
      linked =
          chain_with (next_of s) (prev_of s) _ _ t task_main new.0 s.task_last task_main ts hn hb
            ring.linked ring.last ring.distinct new (ring.distinct).0;
      last = last_link task_main s t main flags stack ∙ sym (last_of-append task_main ts t []);
      closed =
          end_append task_main t (prev_of (link_task task_main s t main flags stack)) ts
            (hb task_main ∙ rw (==-refl task_main) refl);
      distinct = apart_append (task_main ∷ ts) t ring.distinct new;
    }

pub task_spawn-IsRing :
    (task_main : ℕ) (dump dump' : TaskRegs) (s : Tasking) (ts : List ℕ) (t main flags stack : ℕ)
    → NotIn t (task_main ∷ ts)
    → IsRing task_main s ts
    → IsRing task_main ((task_spawn task_main dump dump' s t main flags stack).0) (ts ++ t ∷ [])
unfolding task_spawn tasking_pause tasking_resume save_task_state
task_spawn-IsRing task_main dump dump' s ts t main flags stack new ring =
    let skipped = record s { skip = true } in
    let paused = put skipped s.task_current (saved dump) in
    let still =
      same-IsRing task_main s paused ts
        (λ r. next_kept skipped s.task_current r (saved dump) (λ x. refl))
        (λ r. prev_kept skipped s.task_current r (saved dump) (λ x. refl)) refl ring in
    let linked = link_task task_main paused t main flags stack in
    yield-IsRing task_main dump' (record linked { skip = false }) (ts ++ t ∷ [])
      (same-IsRing task_main linked (record linked { skip = false }) (ts ++ t ∷ []) (λ r. refl)
        (λ r. refl) refl (link-IsRing task_main paused ts t main flags stack new still))
