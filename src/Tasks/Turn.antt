-- ===== src/Tasks/Turn.antt =====
-- Every task gets its turn.
use mathlib.Core.List.{append_assoc}
use mathlib.Core.Path.{subst}
use owmice.Base.{
  ℕ, zero, suc, ◌+◌, ◌≡◌, ◌≢◌, ◌⊎◌, refl, sym, ap, ◌∙◌, arith, false, List, [], ◌∷◌, ◌++◌, length,
  inl, inr,
}
use owmice.Tasks.{TaskRegs, Tasking, task_yield}
use owmice.Tasks.Ring.{IsRing, Distinct, NotIn, last_of, next_of, prev_of, last_of-append}
use owmice.Tasks.Yield.{sleep_of, Yielded, awake-Yielded, asleep-Yielded}
use owmice.Tasks.Path.{Leads, Leads-same, Leads-behind, Leads-before, Distinct-before, turn_round}

-- The state after one yield for each of the readings of the registers.
pub yields : List TaskRegs → Tasking → Tasking
yields [] s = s
yields (d ∷ ds) s = yields ds ((task_yield d s).0)

-- The yields that it takes to pass the tasks: one for each, and one for each tick that it sleeps.
unfoldable pub turns : Tasking → List ℕ → ℕ
turns s [] = 0
turns s (q ∷ qs) = 1 + sleep_of s q + turns s qs

turns_same :
    (s s' : Tasking) (p : ℕ) (qs : List ℕ)
    → ((r : ℕ) → p ≢ r → sleep_of s' r ≡ sleep_of s r)
    → NotIn p qs
    → turns s' qs ≡ turns s qs
unfolding turns
turns_same s s' p [] same off = refl
turns_same s s' p (q ∷ qs) same off = omega (arith, same q off.0, turns_same s s' p qs same off.1)

ℕ-cases : (n : ℕ) → (n ≡ 0) ⊎ ((k : ℕ) × (n ≡ suc k))
ℕ-cases zero = inl refl
ℕ-cases (suc k) = inr (k, refl)

-- The path after the first task, which leaves the tasks behind it as they were.
step_on :
    (s s' : Tasking) (q c k : ℕ) (qs : List ℕ)
    → Yielded s s' q c k
    → NotIn q qs
    → Leads (next_of s) q qs
    → Leads (next_of s') q qs × (turns s' qs ≡ turns s qs)
step_on s s' q c k qs y off h =
    (Leads-same (next_of s) (next_of s') q qs y.next h, turns_same s s' q qs y.others off)

run_along :
    (ds : List TaskRegs) (s : Tasking) (c : ℕ) (qs : List ℕ)
    → s.skip ≡ false
    → s.task_current ≡ c
    → Leads (next_of s) c qs
    → Distinct (c ∷ qs)
    → length ds ≡ turns s qs
    → (yields ds s).task_current ≡ last_of c qs
unfolding yields turns
run_along [] s c [] on at h d e = at
run_along (r ∷ ds) s c [] on at h d e = absurd (omega (arith, e))
run_along [] s c (q ∷ qs) on at h d e = absurd (omega (arith, e))
run_along (r ∷ ds) s c (q ∷ qs) on at h d e =
    let to_q : next_of s s.task_current ≡ q = ap (next_of s) at ∙ h.0 in
    let apart : s.task_current ≢ next_of s s.task_current = λ x. (d.0).0 (sym at ∙ x ∙ to_q) in
    elim (ℕ-cases (sleep_of s q)) [
      | inl awake ↦
          let y : Yielded s ((task_yield r s).0) q q 0 =
            subst (λ x. Yielded s ((task_yield r s).0) x x 0) to_q
              (awake-Yielded r s on apart (ap (sleep_of s) to_q ∙ awake)) in
          let (path, same) = step_on s _ q q 0 qs y ((d.1).0) h.1 in
          run_along ds ((task_yield r s).0) q qs y.on y.at path d.1 (omega (arith, e, awake, same))
      | inr (k, asleep) ↦
          let y : Yielded s ((task_yield r s).0) q c k =
            subst (λ x. Yielded s ((task_yield r s).0) x c k) to_q
              (subst (λ x. Yielded s ((task_yield r s).0) (next_of s s.task_current) x k) at
                (asleep-Yielded r s on apart k (ap (sleep_of s) to_q ∙ asleep))) in
          let (path, same) = step_on s _ q c k qs y ((d.1).0) h.1 in
          run_along ds ((task_yield r s).0) c (q ∷ qs) y.on y.at (y.next c ∙ h.0, path) d
            (omega (arith, e, asleep, same, y.own))
    ]

-- On a ring that is not paused, when every yield is made by the current task: each task of the ring
-- is the current one after as many yields as there are tasks from behind the current one up to it,
-- and ticks that these sleep.
pub yields-turn :
    (task_main : ℕ) (s : Tasking) (ts xs ys before after : List ℕ) (t : ℕ) (ds : List TaskRegs)
    → IsRing task_main s ts
    → s.skip ≡ false
    → task_main ∷ ts ≡ xs ++ s.task_current ∷ ys
    → ys ++ xs ≡ before ++ t ∷ after
    → length ds ≡ turns s (before ++ t ∷ [])
    → (yields ds s).task_current ≡ t
yields-turn task_main s ts xs ys before after t ds ring on split behind count =
    let c = s.task_current in
    let path = Leads-behind (next_of s) (prev_of s) task_main c ts xs ys split ring.linked in
    let parts : ys ++ xs ≡ (before ++ t ∷ []) ++ after =
      behind ∙ sym (append_assoc before (t ∷ []) after) in
    let apart : Distinct (c ∷ (before ++ t ∷ []) ++ after) =
      subst (λ l. Distinct (c ∷ l)) parts
        (turn_round xs (c ∷ ys) (subst Distinct split ring.distinct)) in
    run_along ds s c (before ++ t ∷ []) on refl
      (Leads-before (next_of s) c (before ++ t ∷ []) after
        (subst (λ l. Leads (next_of s) c l) parts path))
      (Distinct-before (c ∷ before ++ t ∷ []) after apart) count
    ∙ last_of-append c before t []
