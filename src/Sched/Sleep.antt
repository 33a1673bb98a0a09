-- ===== src/Sched/Sleep.antt =====
-- A running task that goes to sleep: `__sleep` of microkernel/waitqueue.c in a critical section.
use mathlib.Core.Path.{subst}
use neftis.Base.{
  ℕ, Bool, true, false, ◌&&◌, ◌≡◌, ◌∙◌, refl, sym, ap, inl, inr, List, [], ◌∷◌, ◌++◌, ◌==◌,
  if◌then◌else◌, erase, IsDistinct, has, has_head, ==-refl, Bool-cases, arith,
}
use neftis.Sched.{
  Kernel, Result, ok, bug, ◌>>=◌, Tid, running, soft_wait, update, scroll_next, head_or, schedule,
  defsched_sched, Returns, Returns-bind, defsched_wake_up, wake_up, leave_runqueue, pause,
  task_atomic, sched_restore, set_state_by, defsched_set_state,
}
use neftis.Sched.WaitQueue.{WaitQueue, wait_queue_put_task, sleep_inside, sleep}
use neftis.Sched.Turns.{schedule-Turned}
use neftis.Sched.Invariant.{IsSound, stop-IsSound, defsched_sched-paused}

running-not_waiting : (s : ℕ) → (s == running) ≡ true → (s == soft_wait) ≡ false
running-not_waiting s h = ground arith

and_false : (b : Bool) → (b && false) ≡ false
and_false true = refl
and_false false = refl

update_self : (f : Tid → ℕ) (x v : ℕ) → update f x v x ≡ v
update_self f x v = rw (==-refl x)

erase_head : (x : ℕ) (xs : List ℕ) → erase x (x ∷ xs) ≡ xs
erase_head x xs = rw (==-refl x)

-- The running task goes to sleep outside any critical section.
module _ (alloc : Bool) (wq : WaitQueue) (k : Kernel) (x : Tid) (r : List Tid) (v : IsSound k)
    (p : k.present ≡ true) (e : k.enabled ≡ true) (q : k.runqueue ≡ x ∷ r) (c : k.current ≡ x) where
  runs : (k.ts_state x == running) ≡ true
  runs = sym (v.listed x) ∙ ap (has x) q ∙ has_head x r

  left_queue : leave_runqueue x k ≡ r
  unfolding leave_runqueue
  left_queue =
      ap (λ b. if b then erase x k.runqueue else k.runqueue) runs ∙ ap (erase x) q ∙ erase_head x r

  inside : Kernel
  inside = record k { enabled = false }

  waiting : List Tid → Kernel
  waiting ts = record k { enabled = false; runqueue = ts; ts_state = update k.ts_state x soft_wait }

  noted : List Tid → Kernel
  noted ts = record (waiting ts) { sched_pending = true }

  -- The kernel when the critical section is left.
  asleep : Kernel
  unfolding noted waiting
  asleep = record (noted r) { enabled = true }

  pausing : pause k ≡ ok inside
  unfolding pause defsched_set_state inside
  pausing = ap (λ b. if b then ok inside else ok k) p

  stopping : wake_up x soft_wait false false 0 inside ≡ ok (waiting r)
  unfolding wake_up defsched_wake_up waiting inside
  stopping =
      ap (λ b. if b then defsched_wake_up x soft_wait false false 0 inside else ok inside) p
      ∙ ap (λ b. if b && true then bug else ok (waiting (leave_runqueue x k)))
          (running-not_waiting (k.ts_state x) runs)
      ∙ ap (λ ts. ok (waiting ts)) left_queue

  putting_off : schedule (waiting r) ≡ ok (noted r)
  unfolding schedule waiting noted
  putting_off =
      ap (λ b. if b then defsched_sched (waiting r) else ok (waiting r)) p
      ∙ defsched_sched-paused (waiting r) refl

  leaving : sched_restore (k.present && k.enabled) (noted r) ≡ schedule asleep
  unfolding sched_restore defsched_set_state noted asleep
  leaving =
      ap (λ b. if b then set_state_by schedule (b && k.enabled) (noted r) else ok (noted r)) p
      ∙ ap (λ b. set_state_by schedule b (noted r)) e

  sleeping : sleep_inside alloc wq inside ≡ ok ((wait_queue_put_task alloc x wq).1, noted r)
  unfolding sleep_inside inside
  sleeping =
      let rest : Tid → Kernel → Result (WaitQueue × Kernel) =
        λ y i. schedule i >>= λ k'. ok ((wait_queue_put_task alloc y wq).1, k') in
      ap (λ y. wake_up y soft_wait false false 0 inside >>= rest y) c
      ∙ ap (λ s. s >>= rest x) stopping
      ∙ ap (λ s. s >>= λ k'. ok ((wait_queue_put_task alloc x wq).1, k')) putting_off

  sleep-run :
      sleep alloc wq k ≡ (schedule asleep >>= λ k'. ok ((wait_queue_put_task alloc x wq).1, k'))
  unfolding sleep task_atomic
  sleep-run =
      let out : WaitQueue × Kernel → Result (WaitQueue × Kernel) =
        λ (a, done). sched_restore (k.present && k.enabled) done >>= λ l. ok (a, l) in
      ap (λ s. s >>= λ i. sleep_inside alloc wq i >>= out) pausing
      ∙ ap (λ s. s >>= out) sleeping
      ∙ ap (λ s. s >>= λ l. ok ((wait_queue_put_task alloc x wq).1, l)) leaving

  asleep-IsSound : IsSound asleep
  unfolding asleep noted waiting
  asleep-IsSound =
      let s = stop-IsSound k x soft_wait refl (and_false (x == k.idle)) v in
      record {
        distinct = subst IsDistinct left_queue s.distinct;
        listed = λ t. sym (ap (has t) left_queue) ∙ s.listed t;
        idle_alive = s.idle_alive;
      }

  put_task :
      (wait_queue_put_task alloc x wq).1.tasks ≡ (if alloc then wq.tasks ++ x ∷ [] else wq.tasks)
  unfolding wait_queue_put_task
  put_task = elim (Bool-cases alloc) [ inl put ↦ rw put | inr lost ↦ rw lost ]

  -- The current task, at the head of the ring of a sound kernel whose scheduler is present and
  -- enabled, goes to sleep and leaves the ring, which is turned once more than that: the task after
  -- it, that was next, goes to the end, and the one behind that runs. The sleeper is
  -- the last of the wait queue, if its entry could be allocated; else it sleeps in no queue.
  pub sleep-passes_over :
      Returns
        (λ (wq', k').
          (k'.runqueue ≡ scroll_next r)
          × (k'.current ≡ head_or k.idle (scroll_next r))
          × (k'.ts_state x ≡ soft_wait)
          × (wq'.tasks ≡ (if alloc then wq.tasks ++ x ∷ [] else wq.tasks)))
        (sleep alloc wq k)
  unfolding asleep noted waiting
  sleep-passes_over = subst (Returns _) (sym sleep-run) (
      Returns-bind _ (schedule asleep) _ (schedule-Turned asleep asleep-IsSound p refl)
        (λ k' s. (s.1, s.0, ap (λ f. f x) s.5 ∙ update_self k.ts_state x soft_wait, put_task)))
