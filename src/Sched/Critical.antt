-- ===== src/Sched/Critical.antt =====
-- Critical sections: TASK_ATOMIC_ENTER and TASK_ATOMIC_LEAVE of task.h over `pause`, `sched_save`
-- and `sched_restore` of microkernel/sched.c.
use neftis.Base.{Bool, true, false, ◌&&◌, ◌≡◌, refl, inl, inr, Bool-cases}
use neftis.Sched.{
  Kernel, Result, ok, task_atomic, pause, sched_restore, defsched_set_state, set_state_by, schedule,
  sched_save, Returns, Returns-bind, Returns-mono, if-Returns, defsched_sched,
}
use neftis.Sched.Invariant.{IsSound, same-IsSound, defsched_sched-enabled, defsched_sched-paused}
use neftis.Sched.Turns.{turn-Turned}

-- What an operation that may switch tasks keeps: soundness and the states of the tasks.
abbrev pub Kept : Kernel → Kernel → Type 0
Kept k k' = IsSound k' × (k'.ts_state ≡ k.ts_state) × (k'.present ≡ k.present)

pub schedule-Kept : (k : Kernel) → IsSound k → Returns (Kept k) (schedule k)
unfolding schedule
schedule-Kept k v =
    if-Returns (Kept k) k.present (defsched_sched k) (ok k)
      (λ _. elim (Bool-cases k.enabled) [
        | inl e ↦
            rw (defsched_sched-enabled k e)
              (Returns-mono {Q = Kept k} _ (turn-Turned k v) (λ k' s. (s.6, s.5, s.4)))
        | inr e ↦
            rw (defsched_sched-paused k e)
              (same-IsSound k (record k { sched_pending = true }) refl refl refl v, refl, refl)
      ])
      (λ _. (v, refl, refl))

sched_restore-Kept : (b : Bool) (k : Kernel) → IsSound k → Returns (Kept k) (sched_restore b k)
unfolding sched_restore defsched_set_state set_state_by
sched_restore-Kept b k v =
    let k' : Kernel = record k { enabled = b } in
    let v' = same-IsSound k k' refl refl refl v in
    if-Returns (Kept k) k.present _ _
      (λ _.
        if-Returns (Kept k) (b && k.sched_pending) _ _ (λ _. schedule-Kept k' v')
          (λ _. (v', refl, refl)))
      (λ _. (v, refl, refl))

-- The kernel on entry to the section.
abbrev pub Entered : Kernel → Kernel → Type 0
Entered k i =
    IsSound i × (i.ts_state ≡ k.ts_state) × (i.present ≡ k.present) × (i.current ≡ k.current)

pause-Entered : (k : Kernel) → IsSound k → Returns (Entered k) (pause k)
unfolding pause defsched_set_state set_state_by
pause-Entered k v =
    if-Returns (Entered k) k.present _ _
      (λ p. (same-IsSound k (record k { enabled = false }) refl refl refl v, refl, refl, refl))
      (λ p. (v, refl, refl, refl))

abbrev pub And : {A : Type 0} → (A → Kernel → Type 0) → A × Kernel → Type 0
And P (a, k) = P a k × IsSound k

-- A critical section returns, and in a sound kernel, if its body does. What the body promises holds
-- after it as well, where it is about the states of the tasks only.
pub task_atomic-Returns :
    {A : Type 0} (P : A → Kernel → Type 0) (body : Kernel → Result (A × Kernel)) (k : Kernel)
    → IsSound k
    → ((i : Kernel) → Entered k i → Returns (And P) (body i))
    → ((a : A) (k' k'' : Kernel) → P a k' → Kept k' k'' → P a k'')
    → Returns (And P) (task_atomic body k)
unfolding task_atomic
task_atomic-Returns P body k v inner stable =
    Returns-bind (And P) (pause k) _ (pause-Entered k v) (λ i e.
      Returns-bind (And P) (body i) _ (inner i e) (λ (a, done) (p, sound).
        Returns-bind (And P) (sched_restore (sched_save k) done) _
          (sched_restore-Kept (sched_save k) done sound)
          (λ l kept. (stable a done l p kept, kept.0))))
